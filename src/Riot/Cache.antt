-- ===== src/Riot/Cache.antt =====
-- backend/arena/riot/cache.py: the payloads of matches in Redis, over an optional archive. JSON is an
-- argument: `dumps` with the encoding, and `_loads`, which yields an object or nothing. Whether a call of the
-- archive raises is an argument of the operation; a value of Redis expires as a step of its own.
pub mod Laws
mod Tests
use arena_rank_project.Prelude.{
  ℕ, Bool, true, false, Option, none, some, List, [], ◌∷◌, ◌++◌, map, if◌then◌else◌, not, ◌&&◌,
  Text,
}
use arena_rank_project.Prelude.{◌==◌ as nat_beq}
use arena_rank_project.Prelude.Table.{Table, lookup, insert, text_instance}

module _ (Payload : Type 0) where
  pub record MatchCache : Type 0 where
    pub key_prefix : Text
    pub has_overflow : Bool
    pub dumps : Payload → Text
    pub loads : Text → Option Payload

  pub record Tiers : Type 0 where
    pub hot : Table Text Text
    pub cold : Table Text Text

  module _ (c : MatchCache) where
    -- `_key`
    abbrev pub hot_key : Text → Text
    hot_key match_id = c.key_prefix ++ (b':' ∷ match_id)

    abbrev pub slashed : Text → Text
    slashed = map (λ x. if nat_beq x b':' then b'/' else x)

    abbrev pub json_suffix : Text
    json_suffix = b'.' ∷ b'j' ∷ b's' ∷ b'o' ∷ b'n' ∷ []

    -- `_overflow_key`
    abbrev pub overflow_key : Text → Text
    overflow_key match_id = slashed c.key_prefix ++ (b'/' ∷ (match_id ++ json_suffix))

    -- A value that the archive has: it goes back to Redis, if it is an object.
    unfoldable pub rewarm : Text → Text → Tiers → Option Payload × Tiers
    rewarm match_id blob s = elim (c.loads blob) [
      | none ↦ (none, s)
      | some value ↦ (some value, record s { hot = insert (hot_key match_id) blob s.hot })
    ]

    unfoldable pub get_overflow : Bool → Text → Tiers → Option Payload × Tiers
    unfolding rewarm
    get_overflow get_fails match_id s =
        if not c.has_overflow
        then (none, s)
        else if get_fails
        then (none, s)
        else elim (lookup (overflow_key match_id) s.cold) [
          | none ↦ (none, s)
          | some blob ↦ rewarm match_id blob s
        ]

    unfoldable pub get : Bool → Text → Tiers → Option Payload × Tiers
    unfolding get_overflow
    get get_fails match_id s = elim (lookup (hot_key match_id) s.hot) [
      | some raw ↦ (c.loads raw, s)
      | none ↦ get_overflow get_fails match_id s
    ]

    unfoldable pub set : Bool → Text → Payload → Tiers → Tiers
    set put_fails match_id payload s =
        let blob = c.dumps payload in
        record {
          hot = insert (hot_key match_id) blob s.hot;
          cold =
              if c.has_overflow && not put_fails
              then insert (overflow_key match_id) blob s.cold
              else s.cold;
        }

    -- An entry of Redis that has expired.
    abbrev pub expire : Text → Table Text Text → Table Text Text
    expire k [] = []
    expire k ((j, v) ∷ d) = if text_instance.same j k then expire k d else (j, v) ∷ expire k d

    -- The states that sets, gets and expiries lead to, when a match has one payload, as a finished one has.
    pub data Reach (payload_of : Text → Payload) : Tiers → Type 0 where
      cold_start : Reach payload_of record { hot = []; cold = [] }
      did_set :
          {s : Tiers} (put_fails : Bool) (match_id : Text)
          → Reach payload_of s
          → Reach payload_of (set put_fails match_id (payload_of match_id) s)
      did_get :
          {s : Tiers} (get_fails : Bool) (match_id : Text)
          → Reach payload_of s
          → Reach payload_of (get get_fails match_id s).1
      expired :
          {s : Tiers} (k : Text)
          → Reach payload_of s
          → Reach payload_of record { hot = expire k s.hot; cold = s.cold }
