-- ===== src/Riot/Coalesce.antt =====
-- `_fetch_coordinated` of backend/arena/riot/coalesce.py, for one key: the lease in Redis, and the stored result
-- that `read_result` reads. `others k` is what the other workers and the expiry of the lease do before the
-- k-th command; `loader` is the fetch of the caller, which may raise. Times are whole
-- numbers of the smallest float, and `plus` is what the float addition makes of two of them, rounded.
pub mod Laws
mod Tests
use arena_rank_project.Prelude.{
  ℕ, suc, zero, ◌+◌, Bool, true, false, Option, none, some, if◌then◌else◌, ltb, Text,
}
use arena_rank_project.Prelude.Result.{Result, ok, err}

module _ (E V : Type 0) where
  pub record Shared : Type 0 where
    pub lease : Option Text
    pub stored : Option V

  -- A value that was stored already, or what a load of its own gives.
  pub data Fetched : Type 0 where
    found : V → Fetched
    loaded : Result E V → Fetched

  pub record World : Type 0 where
    pub others : ℕ → Shared → Shared
    pub loader : Shared → Result E V × Shared

  pub record Coalescer : Type 0 where
    pub poll : ℕ
    pub follower_timeout : ℕ
    pub plus : ℕ → ℕ → ℕ

  -- `_CLAIM_LUA`
  unfoldable pub claim_script : Text → Shared → Bool × Shared
  claim_script owner s = elim (s.lease) [
    | none ↦ (true, record s { lease = some owner })
    | some holder ↦ (false, s)
  ]

  abbrev pub drop_lease : Shared → Shared
  drop_lease s = record s { lease = none }

  module _ (w : World) where
    abbrev plain_load : ℕ → Shared → Fetched × Shared
    plain_load k s = let (r, s') = w.loader (w.others k s) in (loaded r, s')

    -- `try: return await loader() finally: await self._redis.delete(...)`
    unfoldable pub lead : ℕ → Shared → Fetched × Shared
    lead k s = let (r, s') = plain_load k s in (r, drop_lease (w.others (suc k) s'))

    abbrev pub lease_is_free : Shared → Bool
    lease_is_free s = elim (s.lease) [ none ↦ true | some holder ↦ false ]

    -- A free lease is contended for: what the new leader ends in, or the state after a claim that failed.
    unfoldable pub contend : Text → ℕ → Shared → Option (Fetched × Shared) × Shared
    unfolding claim_script lead
    contend owner k s =
        let (leads, s') = claim_script owner (w.others k s) in
        (if leads then some (lead (suc k) s') else none, s')

    -- The end of a round: the stored value, what a new leader ends in, or the rounds that follow.
    unfoldable pub round_end :
        Shared
        → Option V
        → Option (Fetched × Shared)
        → Option (Fetched × Shared)
        → Option (Fetched × Shared)
    round_end seen (some value) contended go_on = some (found value, seen)
    round_end seen none (some done) go_on = some done
    round_end seen none none go_on = go_on

    -- The loop of the follower, on fuel, with the commands counted from `k` on.
    unfoldable pub follow : Coalescer → Text → ℕ → ℕ → ℕ → Shared → Option (Fetched × Shared)
    unfolding contend round_end
    follow c owner zero k waited s = none
    follow c owner (suc fuel) k waited s =
        let seen = w.others k s in
        let later = w.others (k + 1) seen in
        let contended =
          if lease_is_free later then contend owner (k + 2) later else (none, later) in
        let go_on =
          follow c owner fuel (if lease_is_free later then k + 3 else k + 2) (c.plus waited c.poll)
            contended.1 in
        if ltb waited c.follower_timeout
        then round_end seen seen.stored contended.0 go_on
        else some (plain_load k s)

    unfoldable pub fetch_coordinated : Coalescer → Text → ℕ → Shared → Option (Fetched × Shared)
    unfolding follow contend round_end
    fetch_coordinated c owner fuel s =
        let seen = w.others 0 s in
        let contended = contend owner 1 seen in
        round_end seen seen.stored contended.0 (follow c owner fuel 2 0 contended.1)
