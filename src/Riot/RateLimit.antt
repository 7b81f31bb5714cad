-- ===== src/Riot/RateLimit.antt =====
-- backend/arena/riot/rate_limit.py: the token buckets, each a Redis hash that the two Lua scripts read and
-- write in one atomic step.
--
-- Time is in microseconds. A bucket refills `capacity` tokens over `refill` microseconds, so tokens are
-- counted in shares of 1/refill of a token: one microsecond brings `capacity` shares, and a token is
-- `refill` shares. In these units the arithmetic of the scripts, which Lua does in floating point, is
-- exact. A key lives until its expiry, and a hash that is absent or expired reads as nil.
pub mod Grants
pub mod Penalty
use arena_rank_project.Prelude.{
  ℕ, suc, ◌+◌, ◌-◌, ◌*◌, ◌/◌, ◌%◌, Bool, true, false, Option, none, some, List, [], ◌∷◌, ◌++◌,
  if◌then◌else◌, ltb, leb, ◌==◌, min, Text,
}
use arena_rank_project.Prelude.{text_eq}
use Prim.Native.Nat.{max}
use arena_rank_project.Prelude.Table.{Table, lookup, insert, text_instance}

pub record TokenBucketConfig : Type 0 where
  pub name : Text
  pub capacity : ℕ
  pub refill : ℕ
  pub nominal : ℕ

-- `self.nominal or self.capacity`
unfoldable pub advertised : TokenBucketConfig → ℕ
advertised cfg = if cfg.nominal == 0 then cfg.capacity else cfg.nominal

-- The hash `{tokens, ts}` with the moment at which the key expires.
pub record Bucket : Type 0 where
  pub tokens : ℕ
  pub ts : ℕ
  pub expires : ℕ

-- `HMGET` at the moment `now`.
unfoldable pub read : ℕ → Option Bucket → Option Bucket
read now none = none
read now (some b) = if ltb now b.expires then some b else none

-- `math.ceil(a / b)` for b > 0.
unfoldable pub ceil_div : ℕ → ℕ → ℕ
ceil_div a b = (a + b - 1) / b

module _ (cfg : TokenBucketConfig) where
  -- `tokens` and `ts` after the lazy refill. No time has elapsed while `ts` is in the future.
  unfoldable pub refilled : ℕ → Option Bucket → ℕ × ℕ
  refilled now none = (cfg.capacity * cfg.refill, now)
  refilled now (some b) =
      if ltb b.ts now
      then (min (cfg.capacity * cfg.refill) (b.tokens + (now - b.ts) * cfg.capacity), now)
      else (b.tokens, b.ts)

  -- The wait in milliseconds until the deficit has come in: a share takes 1/capacity microseconds; and
  -- what is left of a penalty.
  unfoldable pub wait_ms : ℕ → ℕ → ℕ → ℕ
  unfolding ceil_div
  wait_ms now deficit ts =
      let wait = ceil_div deficit (cfg.capacity * 1000) in
      if ltb now ts then wait + ceil_div (ts - now) 1000 else wait

  -- The acquire script for `needed` tokens: whether it granted them, the wait, and the new hash.
  unfoldable pub acquire_script : ℕ → ℕ → ℕ → Option Bucket → Bool × ℕ × Bucket
  unfolding read refilled wait_ms
  acquire_script ttl now needed key =
      let (tokens, ts) = refilled now (read now key) in
      let shares = needed * cfg.refill in
      if leb shares tokens
      then (true, 0, record { tokens = tokens - shares; ts = ts; expires = now + ttl })
      else (
        false,
        wait_ms now (shares - tokens) ts,
        record { tokens = tokens; ts = ts; expires = now + ttl },
      )

-- The penalize script: the bucket is emptied, and its clock parked in the future; an earlier penalty that
-- lasts longer is kept. It returns the milliseconds until the penalty ends.
unfoldable pub penalize_script : ℕ → ℕ → ℕ → Option Bucket → ℕ × Bucket
unfolding read ceil_div
penalize_script ttl now penalty key =
    let until : ℕ = elim (read now key) [
      | none ↦ now + penalty
      | some b ↦ max (now + penalty) b.ts
    ] in
    (ceil_div (until - now) 1000, record { tokens = 0; ts = until; expires = now + ttl })

-- The hashes of one API key, by bucket name.
abbrev pub Store : Type 0
Store = Table Text Bucket

-- One pass of `acquire` over the applicable buckets: the longest wait, 0 if all have granted.
unfoldable pub acquire_pass : ℕ → ℕ → ℕ → List TokenBucketConfig → Store → ℕ × Store
unfolding acquire_script
acquire_pass ttl now n [] redis = (0, redis)
acquire_pass ttl now n (cfg ∷ cfgs) redis =
    let (granted, wait, b) = acquire_script cfg ttl now n (lookup cfg.name redis) in
    let (longest, redis') = acquire_pass ttl now n cfgs (insert cfg.name b redis) in
    (max (if granted then 0 else wait) longest, redis')

-- `penalize` on the applicable buckets: the longest penalty in milliseconds.
unfoldable pub penalize_all : ℕ → ℕ → ℕ → List TokenBucketConfig → Store → ℕ × Store
unfolding penalize_script
penalize_all ttl now penalty [] redis = (0, redis)
penalize_all ttl now penalty (cfg ∷ cfgs) redis =
    let (wait, b) = penalize_script ttl now penalty (lookup cfg.name redis) in
    let (longest, redis') = penalize_all ttl now penalty cfgs (insert cfg.name b redis) in
    (max wait longest, redis')

-- The TTL that `penalize` computes, in microseconds: `max(key_ttl, int(seconds * 2) + 1)` seconds.
unfoldable pub penalty_ttl : ℕ → ℕ → ℕ
penalty_ttl key_ttl_seconds seconds = max key_ttl_seconds (seconds * 2 + 1) * 1000000

-- `headroom` is the fraction a / b; `int` rounds down.
unfoldable pub apply_headroom : ℕ → ℕ → ℕ → ℕ
apply_headroom nominal a b = if nominal == 0 then 0 else max 1 (nominal * a / b)

abbrev pub app_bucket : Text
app_bucket = b'a' ∷ b'p' ∷ b'p' ∷ []

abbrev pub account_v1_bucket : Text
account_v1_bucket = b'a' ∷ b'c' ∷ b'c' ∷ b'o' ∷ b'u' ∷ b'n' ∷ b't' ∷ b'-' ∷ b'v' ∷ b'1' ∷ []

abbrev match_v5 : Text
match_v5 = b'm' ∷ b'a' ∷ b't' ∷ b'c' ∷ b'h' ∷ b'-' ∷ b'v' ∷ b'5' ∷ b':' ∷ []

abbrev pub match_v5_ids_bucket : Text
match_v5_ids_bucket = match_v5 ++ (b'i' ∷ b'd' ∷ b's' ∷ [])

abbrev pub match_v5_match_bucket : Text
match_v5_match_bucket = match_v5 ++ (b'm' ∷ b'a' ∷ b't' ∷ b'c' ∷ b'h' ∷ [])

-- The advertised limits of a key, with the times over which they refill, and the headroom a / b.
pub record KeyLimits : Type 0 where
  pub app_capacity : ℕ
  pub app_refill : ℕ
  pub match_v5_capacity : ℕ
  pub match_v5_refill : ℕ
  pub account_v1_capacity : ℕ
  pub account_v1_refill : ℕ
  pub headroom_num : ℕ
  pub headroom_den : ℕ

-- The inner function `_bucket`.
unfoldable pub bucket_of : KeyLimits → Text → ℕ → ℕ → TokenBucketConfig
unfolding apply_headroom
bucket_of k name nominal refill = record {
  name = name;
  capacity = apply_headroom nominal k.headroom_num k.headroom_den;
  refill = refill;
  nominal = nominal;
}

unfoldable pub default_arena_buckets : KeyLimits → Table Text TokenBucketConfig
unfolding bucket_of
default_arena_buckets k =
    let buckets =
      insert match_v5_match_bucket
        (bucket_of k match_v5_match_bucket k.match_v5_capacity k.match_v5_refill)
        (insert match_v5_ids_bucket
          (bucket_of k match_v5_ids_bucket k.match_v5_capacity k.match_v5_refill)
          (insert account_v1_bucket
            (bucket_of k account_v1_bucket k.account_v1_capacity k.account_v1_refill) [])) in
    if ltb 0 k.app_capacity
    then insert app_bucket (bucket_of k app_bucket k.app_capacity k.app_refill) buckets
    else buckets
