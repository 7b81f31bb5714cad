-- ===== src/Integrity/Fingerprint.antt =====
-- backend/arena/integrity/fingerprint.py: the fingerprints of lobbies and pairs, and the Redis stores that
-- count them. A sorted set is a dict from members to scores, and its key lives until its expiry. The clock
-- of the worker and that of Redis are one, in seconds.
pub mod Window
use arena_rank_project.Prelude.{
  ℕ, zero, suc, ◌+◌, Bool, true, false, not, Option, none, some, List, [], ◌∷◌, ◌++◌, map,
  if◌then◌else◌, ltb, leb, length, any, Text, text_eq, text_ltb,
}
use arena_rank_project.Prelude.Int.{ℤ}
use arena_rank_project.Prelude.Table.{Table, lookup, lookup_or, insert, text_instance}
use arena_rank_project.Prelude.Sort.{sort_by}
use arena_rank_project.Floats.{Floats}
use arena_rank_project.Integrity.Types.{Builtins, ParticipantSnapshot, MatchSnapshot}

-- `set(texts)`, in the order of the last occurrences.
unfoldable pub distinct_texts : List Text → List Text
distinct_texts [] = []
distinct_texts (t ∷ ts) = if any (text_eq t) ts then distinct_texts ts else t ∷ distinct_texts ts

-- `list(dict.fromkeys(texts))`
unfoldable pub first_occurrences : List Text → List Text → List Text
first_occurrences seen [] = []
first_occurrences seen (t ∷ ts) =
    if any (text_eq t) seen then first_occurrences seen ts else t ∷ first_occurrences (t ∷ seen) ts

-- `sorted(set(texts))`
unfoldable pub sorted_set : List Text → List Text
unfolding distinct_texts sort_by
sorted_set ts = sort_by text_ltb (distinct_texts ts)

-- `",".join(texts)`
unfoldable pub join_commas : List Text → Text
join_commas [] = []
join_commas (t ∷ []) = t
join_commas (t ∷ u ∷ us) = t ++ (b',' ∷ join_commas (u ∷ us))

module _ (fl : Floats) (py : Builtins fl) where
  unfoldable pub lobby_fingerprint : MatchSnapshot fl → Text
  unfolding sorted_set join_commas
  lobby_fingerprint m =
      let players = sorted_set (map (λ p. p.player_id) m.participants) in
      py.sha256_hex (m.mode ++ (b':' ∷ (py.str_int m.team_size ++ (b':' ∷ join_commas players))))

  -- `(a, b) if a <= b else (b, a)`
  unfoldable pub pair_key : Text → Text → Text
  pair_key a b =
      if text_ltb b a then py.sha256_hex (b ++ (b',' ∷ a)) else py.sha256_hex (a ++ (b',' ∷ b))

  unfoldable pub pairs_from : List Text → List Text
  unfolding pair_key
  pairs_from [] = []
  pairs_from (a ∷ members) = map (pair_key a) members ++ pairs_from members

  unfoldable pub subteam_pair_keys : List Text → List Text
  unfolding pairs_from sorted_set
  subteam_pair_keys member_ids = pairs_from (sorted_set member_ids)

-- A sorted set and the moment at which its key expires.
pub record SortedSet : Type 0 where
  pub members : Table Text ℕ
  pub expires : ℕ

abbrev pub Sets : Type 0
Sets = Table Text SortedSet

unfoldable pub read_set : ℕ → Option SortedSet → Table Text ℕ
read_set now none = []
read_set now (some z) = if ltb now z.expires then z.members else []

-- `ZREMRANGEBYSCORE key 0 (now - window)`; a score is never negative.
unfoldable pub trim : ℕ → ℕ → Table Text ℕ → Table Text ℕ
trim now window [] = []
trim now window ((m, score) ∷ ms) =
    let rest = trim now window ms in if leb (score + window) now then rest else (m, score) ∷ rest

-- The four commands on one key: the reply to `ZCARD`, and the set after `EXPIRE`.
unfoldable pub observe_set : ℕ → ℕ → Text → Option SortedSet → ℕ × SortedSet
unfolding read_set trim
observe_set now window match_id key =
    let members = insert match_id now (trim now window (read_set now key)) in
    (length members, record { members = members; expires = now + window })

-- `RedisLobbyFingerprintStore.observe`
unfoldable pub observe_lobby : ℕ → ℕ → Text → Text → Sets → ℕ × Sets
unfolding observe_set
observe_lobby now window fingerprint match_id redis =
    let (count, z) = observe_set now window match_id (lookup fingerprint redis) in
    (count, insert fingerprint z redis)

unfoldable pub observe_keys : ℕ → ℕ → Text → List Text → Sets → Table Text ℕ × Sets
unfolding observe_lobby
observe_keys now window match_id [] redis = ([], redis)
observe_keys now window match_id (pk ∷ pks) redis =
    let (count, redis') = observe_lobby now window pk match_id redis in
    let (counts, redis'') = observe_keys now window match_id pks redis' in
    ((pk, count) ∷ counts, redis'')

-- `RedisPartyCooccurrenceStore.observe`
unfoldable pub observe_pairs : ℕ → ℕ → List Text → Text → Sets → Table Text ℕ × Sets
unfolding observe_keys first_occurrences
observe_pairs now window pair_keys match_id redis =
    observe_keys now window match_id (first_occurrences [] pair_keys) redis
