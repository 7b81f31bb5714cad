-- ===== src/Riot/RateLimit/Grants.antt =====
-- How many tokens a bucket of backend/arena/riot/rate_limit.py can hand out.
use arena_rank_project.Prelude.{
  All, length, text_eq, Text, if◌then◌else◌, ◌⊎◌, inl, inr, ◌==◌, Bool-cases, ℕ, ◌+◌, ◌-◌, ◌*◌, ◌≤◌,
  ◌<◌, ◌≡◌, refl, some, Option, List, [], ◌∷◌, arith, ltb, leb,
}
use native.Mathlib.Nat.{div-le_of_le-mul}
use arena_rank_project.Riot.RateLimit.{
  KeyLimits, bucket_of, default_arena_buckets, app_bucket, account_v1_bucket, match_v5_ids_bucket,
  match_v5_match_bucket, TokenBucketConfig, Bucket, read, refilled, acquire_script, apply_headroom,
}

-- The hash as the last call left it at the moment `t`, with no penalty on it.
pub record IsRunning (cfg : TokenBucketConfig) (ttl t : ℕ) (b : Bucket) : Type 0 where
  pub at_ts : b.ts ≡ t
  pub at_expires : b.expires ≡ t + ttl
  pub capped : b.tokens ≤ cfg.capacity * cfg.refill

module _ (cfg : TokenBucketConfig) (ttl : ℕ) where
  -- The tokens that a sequence of calls is granted, each call by the time since the one before it and
  -- the number of tokens that it asks for.
  unfoldable pub granted : ℕ → List (ℕ × ℕ) → Option Bucket → ℕ
  granted t [] key = 0
  granted t ((gap, needed) ∷ calls) key =
      let (ok, wait, b) = acquire_script cfg ttl (t + gap) needed key in
      (if ok then needed else 0) + granted (t + gap) calls (some b)

  unfoldable pub duration : List (ℕ × ℕ) → ℕ
  duration [] = 0
  duration ((gap, needed) ∷ calls) = gap + duration calls

  -- A time of at least one refill brings in at least a full bucket.
  full_after : (gap : ℕ) → cfg.refill ≤ gap → cfg.capacity * cfg.refill ≤ gap * cfg.capacity
  full_after gap h = grind arith

  -- An expired hash reads as a full bucket, and by then it would be full.
  refilled_le :
      (t gap : ℕ) (b : Bucket)
      → cfg.refill ≤ ttl
      → IsRunning cfg ttl t b
      → let r = refilled cfg (t + gap) (read (t + gap) (some b)) in
        (r.1 ≡ t + gap) × (r.0 ≤ b.tokens + gap * cfg.capacity) × (r.0 ≤ cfg.capacity * cfg.refill)
  unfolding refilled read
  refilled_le t gap b long w = elim (Bool-cases (ltb (t + gap) b.expires)) [
    | inl alive ↦ elim (Bool-cases (ltb b.ts (t + gap))) [
      | inl late ↦
          let d : t + gap - b.ts ≡ gap = omega (arith, w.at_ts) in
          rw (alive, late, d) (refl, omega arith, omega arith)
      | inr same ↦ rw (alive, same) (ground (arith, w.at_ts), omega arith, w.capped)
    ]
    | inr expired ↦
        rw expired (refl, omega (arith, full_after gap (ground (arith, w.at_expires))), omega arith)
  ]

  -- One call: what is granted and what is left came from what was there and from the time that passed.
  acquire_step :
      (t gap needed : ℕ) (b : Bucket)
      → cfg.refill ≤ ttl
      → IsRunning cfg ttl t b
      → let r = acquire_script cfg ttl (t + gap) needed (some b) in
        IsRunning cfg ttl (t + gap) r.2
        × ((if r.0 then needed else 0) * cfg.refill + r.2.tokens ≤ b.tokens + gap * cfg.capacity)
  unfolding acquire_script
  acquire_step t gap needed b long w =
      let (at_now, le, capped) = refilled_le t gap b long w in
      let tokens = (refilled cfg (t + gap) (read (t + gap) (some b))).0 in
      elim (Bool-cases (leb (needed * cfg.refill) tokens)) [
        | inl enough ↦ rw enough (
          record { at_ts = at_now; at_expires = refl; capped = omega (arith, capped) },
          ground (arith, le),
        )
        | inr short ↦
            rw short
              (record { at_ts = at_now; at_expires = refl; capped = capped }, omega (arith, le))
      ]

  granted_from :
      (t : ℕ) (calls : List (ℕ × ℕ)) (b : Bucket)
      → cfg.refill ≤ ttl
      → IsRunning cfg ttl t b
      → granted t calls (some b) * cfg.refill ≤ b.tokens + duration calls * cfg.capacity
  unfolding granted duration
  granted_from t [] b long w = omega arith
  granted_from t ((gap, needed) ∷ calls) b long w =
      let (running, spent) = acquire_step t gap needed b long w in
      let b' = (acquire_script cfg ttl (t + gap) needed (some b)).2 in
      omega (arith, spent, granted_from (t + gap) calls b' long running)

  -- If a key outlives a refill, then in any stretch of calls, however often they ask and whether or not the
  -- key expires in between, the bucket grants at most its capacity and what flows in during the stretch.
  pub granted_bound :
      (t : ℕ) (calls : List (ℕ × ℕ)) (b : Bucket)
      → cfg.refill ≤ ttl
      → IsRunning cfg ttl t b
      → granted t calls (some b) * cfg.refill ≤ (cfg.refill + duration calls) * cfg.capacity
  granted_bound t calls b long w = omega (arith, granted_from t calls b long w, w.capped)

scaled_le : (nominal a b : ℕ) → a ≤ b → nominal * a ≤ b * nominal
scaled_le nominal a b h = grind arith

-- The effective capacity is 0 for a limit of 0; for every other limit and any headroom of at most 1 it
-- lies between 1 and the advertised limit.
pub apply_headroom_range :
    (nominal a b : ℕ)
    → 0 < b
    → a ≤ b
    → (nominal ≡ 0) × (apply_headroom nominal a b ≡ 0)
      ⊎ (0 < nominal) × (1 ≤ apply_headroom nominal a b) × (apply_headroom nominal a b ≤ nominal)
unfolding apply_headroom
apply_headroom_range nominal a b pos le = elim (Bool-cases (nominal == 0)) [
  | inl e ↦ inl (ground arith, ground arith)
  | inr e ↦
      inr
        (ground arith, ground arith, ground (arith, div-le_of_le-mul b (scaled_le nominal a b le)))
]

-- A bucket that can grant a token and never promises more than its advertised limit, under its own name.
abbrev pub IsEffective : Text × TokenBucketConfig → Type 0
IsEffective (name, cfg) = (cfg.name ≡ name) × (1 ≤ cfg.capacity) × (cfg.capacity ≤ cfg.nominal)

bucket_of-IsEffective :
    (k : KeyLimits) (name : Text) (nominal refill : ℕ)
    → 0 < k.headroom_den
    → k.headroom_num ≤ k.headroom_den
    → 0 < nominal
    → IsEffective (name, bucket_of k name nominal refill)
unfolding bucket_of
bucket_of-IsEffective k name nominal refill pos le some_limit =
    elim (apply_headroom_range nominal k.headroom_num k.headroom_den pos le) [
      | inl (none_of_it, _) ↦ absurd (omega arith)
      | inr (_, low, high) ↦ (refl, low, high)
    ]

-- With a headroom of at most 1, every default bucket has a name of its own, can grant a token and stays
-- within its advertised limit, and there are four buckets if the key has an application limit, else three.
pub default_arena_buckets-IsEffective :
    (k : KeyLimits)
    → 0 < k.headroom_den
    → k.headroom_num ≤ k.headroom_den
    → 0 < k.match_v5_capacity
    → 0 < k.account_v1_capacity
    → let buckets = default_arena_buckets k in
      All IsEffective buckets × (length buckets ≡ (if ltb 0 k.app_capacity then 4 else 3))
unfolding default_arena_buckets text_eq
default_arena_buckets-IsEffective k pos le matches accounts =
    let account = bucket_of-IsEffective k account_v1_bucket _ k.account_v1_refill pos le accounts in
    let ids = bucket_of-IsEffective k match_v5_ids_bucket _ k.match_v5_refill pos le matches in
    let detail = bucket_of-IsEffective k match_v5_match_bucket _ k.match_v5_refill pos le matches in
    elim (Bool-cases (ltb 0 k.app_capacity)) [
      | inl e ↦
          let app = bucket_of-IsEffective k app_bucket _ k.app_refill pos le (ground arith) in
          rw e ((account, (ids, (detail, (app, tt)))), refl)
      | inr e ↦ rw e ((account, (ids, (detail, tt))), refl)
    ]
