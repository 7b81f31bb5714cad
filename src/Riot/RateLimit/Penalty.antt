-- ===== src/Riot/RateLimit/Penalty.antt =====
-- The 429 penalties of backend/arena/riot/rate_limit.py.
use arena_rank_project.Prelude.{ℕ, ◌+◌, ◌-◌, ◌*◌, ◌≤◌, ◌<◌, ◌≡◌, true, false, some, arith, ◌⊎◌}
use arena_rank_project.Riot.RateLimit.{
  TokenBucketConfig, Bucket, read, refilled, ceil_div, wait_ms, acquire_script, penalize_script,
}

ceil_div-ge : (a b : ℕ) → 0 < b → a ≤ ceil_div a b * b
unfolding ceil_div
ceil_div-ge a b h = grind arith

module _ (cfg : TokenBucketConfig) (ttl : ℕ) where
  refilled_penalized :
      (now : ℕ) (b : Bucket)
      → now < b.expires
      → now ≤ b.ts
      → refilled cfg now (read now (some b)) ≡ (b.tokens, b.ts)
  unfolding refilled read
  refilled_penalized now b alive early = ground arith

  wait_ms-ge : (now deficit ts : ℕ) → now < ts → ts ≤ now + wait_ms cfg now deficit ts * 1000
  unfolding wait_ms
  wait_ms-ge now deficit ts h = ground (arith, ceil_div-ge (ts - now) 1000)

  -- While a penalty runs and its key lives, every call for a token is denied, the wait that it is told
  -- reaches at least to the end of the penalty, and neither the tokens nor the penalty's end move.
  pub acquire_script_penalized :
      (now needed : ℕ) (b : Bucket)
      → now < b.expires
      → now < b.ts
      → b.tokens < needed * cfg.refill
      → let r = acquire_script cfg ttl now needed (some b) in
        (r.0 ≡ false) × (b.ts ≤ now + r.1 * 1000) × (r.2.tokens ≡ b.tokens) × (r.2.ts ≡ b.ts)
  unfolding acquire_script
  acquire_script_penalized now needed b alive early short =
      let e = refilled_penalized now b alive (omega arith) in
      ground (arith, e, wait_ms-ge now (needed * cfg.refill - b.tokens) b.ts early)

-- A penalty empties the bucket until at least its own end, and never ends one that was there sooner.
pub penalize_script_keeps :
    (ttl now penalty : ℕ) (b : Bucket)
    → now < b.expires
    → let b' = (penalize_script ttl now penalty (some b)).1 in
      (b'.tokens ≡ 0)
      × (now + penalty ≤ b'.ts)
      × (b.ts ≤ b'.ts)
      × ((b'.ts ≡ b.ts) ⊎ (b'.ts ≡ now + penalty))
unfolding penalize_script read
penalize_script_keeps ttl now penalty b alive = ground arith

mul-le_left : (n m k : ℕ) → n ≤ m → n * k ≤ m * k
mul-le_left n m k h = grind arith

-- A penalty that outlasts the key's own TTL can be lost: a call that is denied during it resets the
-- expiry to that TTL, and if no other call comes before the key expires, the next one finds a full bucket
-- and is granted, although the penalty has not ended.
pub penalty_lost :
    (cfg : TokenBucketConfig) (ttl first second n : ℕ) (b : Bucket)
    → first < b.expires
    → first < b.ts
    → b.tokens < n * cfg.refill
    → first + ttl ≤ second
    → second < b.ts
    → n ≤ cfg.capacity
    → let b' = (acquire_script cfg ttl first n (some b)).2 in
      (b'.ts ≡ b.ts) × ((acquire_script cfg ttl second n (some b')).0 ≡ true)
unfolding acquire_script read refilled
penalty_lost cfg ttl first second n b alive early short later still le =
    ground (arith, mul-le_left n cfg.capacity cfg.refill le)
