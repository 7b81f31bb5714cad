-- ===== src/Locks.antt =====
-- backend/arena/services/locks.py: the per-player locks of the rating transaction. Redis is a map from
-- keys to tokens; a player id is only compared and sorted, so it is a number, as is a random token. The
-- pipelines are no transactions: `others n` is what the other clients and the expiry of keys do to Redis
-- before the n-th command, be it between two commands of a pipeline, between pipelines or during a sleep.
pub mod Laws
pub mod Waiting
pub mod Order
mod Tests
use arena_rank_project.Prelude.{
  ℕ, zero, suc, ◌+◌, Bool, true, false, Option, none, some, List, [], ◌∷◌, if◌then◌else◌, ◌==◌, ltb,
  leb, length, any,
}
use arena_rank_project.Prelude.Sort.{sort_by}

abbrev pub Redis : Type 0
Redis = ℕ → Option ℕ

abbrev pub update : Redis → ℕ → Option ℕ → Redis
update r k v j = if j == k then v else r j

abbrev pub is_held : Option ℕ → Bool
is_held none = false
is_held (some t) = true

-- `SET key token NX`: a key that is held stays as it is.
abbrev pub set_lock : ℕ → ℕ → Redis → Redis
set_lock pid token r = if is_held (r pid) then r else update r pid (some token)

-- The compare-and-delete script.
unfoldable pub release : ℕ → ℕ → Redis → Redis
release pid token r = elim (r pid) [
  | none ↦ r
  | some t ↦ if t == token then update r pid none else r
]

pub data Acquired : Type 0 where
  holds : List (ℕ × ℕ) → Acquired
  timed_out : Acquired

-- The tokens that a round draws for the players.
abbrev pub with_tokens : (ℕ → ℕ) → List ℕ → List (ℕ × ℕ)
with_tokens token [] = []
with_tokens token (pid ∷ pids) = (pid, token pid) ∷ with_tokens token pids

module _ (others : ℕ → Redis → Redis) where
  -- The pipeline of `SET key token NX`, from the n-th command on: the pairs that were set, by the replies.
  unfoldable pub set_all : List (ℕ × ℕ) → ℕ → Redis → List (ℕ × ℕ) × Redis
  set_all [] n r = ([], r)
  set_all ((pid, token) ∷ ps) n r =
      let seen = others n r in
      let rest = set_all ps (suc n) (set_lock pid token seen) in
      (if is_held (seen pid) then rest.0 else (pid, token) ∷ rest.0, rest.1)

  -- `_release_all`
  unfoldable pub release_all : List (ℕ × ℕ) → ℕ → Redis → Redis
  unfolding release
  release_all [] n r = r
  release_all ((pid, token) ∷ held) n r = release_all held (suc n) (release pid token (others n r))

  -- One round of `_acquire_all`: if a lock is missing, those that were set are given back.
  unfoldable pub attempt : List (ℕ × ℕ) → ℕ → Redis → Bool × Redis
  unfolding set_all release_all
  attempt pairs n r =
      let (held, r') = set_all pairs n r in
      if length held == length pairs
      then (true, r')
      else (false, release_all held (n + length pairs) r')

  -- The `while True` of `_acquire_all`, for the i-th round and the n-th command on; none if the fuel runs
  -- out. Waits are whole numbers of the smallest float, which `plus` adds as the float addition does.
  module _ (plus : ℕ → ℕ → ℕ) (retry_delay max_wait : ℕ) (token : ℕ → ℕ → ℕ) where
    unfoldable pub rounds : ℕ → ℕ → ℕ → ℕ → List ℕ → Redis → Option (Acquired × Redis)
    unfolding attempt
    rounds zero i n waited ordered r = none
    rounds (suc fuel) i n waited ordered r =
        let (done, r') = attempt (with_tokens (token i) ordered) n r in
        let again =
          rounds fuel (suc i) (n + length ordered + length ordered) (plus waited retry_delay)
            ordered r' in
        if done
        then some (holds (with_tokens (token i) ordered), r')
        else if leb max_wait waited
        then some (timed_out, r')
        else again

    unfoldable pub acquire_all : ℕ → List ℕ → Redis → Option (Acquired × Redis)
    unfolding rounds
    acquire_all fuel [] r = some (holds [], r)
    acquire_all fuel (pid ∷ pids) r = rounds fuel 0 0 0 (pid ∷ pids) r

-- `sorted(set(player_ids))`
unfoldable pub distinct : List ℕ → List ℕ
distinct [] = []
distinct (p ∷ ps) = if any (λ q. q == p) ps then distinct ps else p ∷ distinct ps

unfoldable pub lock_order : List ℕ → List ℕ
unfolding distinct sort_by
lock_order player_ids = sort_by ltb (distinct player_ids)
