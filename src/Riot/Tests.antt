-- ===== src/Riot/Tests.antt =====
-- The resilience layer at concrete inputs.
use arena_rank_project.Prelude.{
  All, length, ℕ, zero, suc, ◌+◌, ◌-◌, ◌*◌, ◌≡◌, ◌≤◌, ◌<◌, refl, true, false, none, some, [], ◌∷◌,
  Text, arith, ◌⊎◌, replicate,
}
use Prim.Native.Nat.{◌^◌}
use arena_rank_project.Prelude.Result.{ok, err}
use arena_rank_project.Riot.Breaker.{
  CircuitConfig, Breaker, circuit_open, failed, closed, open_circuit, fresh, call,
}
use arena_rank_project.Riot.Breaker.Laws.{
  moves, moves_below, call_open, burst_trips, Sparse-stays_closed, gates_after_cooldown, fail_all,
  gates, enters, fails,
}
use arena_rank_project.Riot.Retry.{
  RetryPolicy, RetryDecision, return, retry, returned, run_with_retry, delay_for,
}
use arena_rank_project.Riot.Retry.Laws.{IsRetry, waits, run_with_retry_ends, delay_for_bounds}
use arena_rank_project.Riot.RateLimit.{
  KeyLimits, default_arena_buckets, TokenBucketConfig, Bucket, acquire_script, penalize_script,
  apply_headroom,
}
use arena_rank_project.Riot.RateLimit.Grants.{
  granted, duration, granted_bound, apply_headroom_range, IsEffective,
  default_arena_buckets-IsEffective,
}
use arena_rank_project.Riot.RateLimit.Penalty.{
  acquire_script_penalized, penalize_script_keeps, penalty_lost,
}

abbrev circuit : CircuitConfig
circuit = record { failure_threshold = 3; window_seconds = 10; cooldown_seconds = 30 }

abbrev opened : Breaker
opened = record { state = open_circuit; failures = []; opened_at = 100 }

breaker_keeps_below :
    length (moves circuit (fails 1 ∷ fails 2 ∷ fails 3 ∷ enters 40 ∷ []) fresh).failures < 3
breaker_keeps_below =
    moves_below circuit (fails 1 ∷ fails 2 ∷ fails 3 ∷ enters 40 ∷ []) fresh (omega arith)
      (omega arith)

call_open_case :
    (110 < 100 + 30)
      × (call circuit {A = ℕ} {E = Text} 110 111 (ok 7) opened
          ≡ (err (circuit_open (100 + 30 - 110)), opened))
    ⊎ (100 + 30 ≤ 110)
      × (call circuit {A = ℕ} {E = Text} 110 111 (ok 7) opened
          ≡ (ok 7, record opened { state = closed; failures = [] }))
      × (call circuit {A = ℕ} {E = Text} 110 111 (err []) opened
          ≡ (err (failed []), record opened { state = open_circuit; opened_at = 111 }))
call_open_case = call_open circuit {A = ℕ} {E = Text} 110 111 7 [] (ok 7) opened refl (omega arith)

burst_trips_example :
    fail_all circuit (1 ∷ 2 ∷ 3 ∷ []) fresh
    ≡ record { state = open_circuit; failures = []; opened_at = 3 }
burst_trips_example =
    burst_trips circuit 1 1 (2 ∷ 3 ∷ []) fresh refl refl
      ((omega arith, omega arith), ((omega arith, omega arith), ((omega arith, omega arith), tt)))
      refl

abbrev one_failure : Breaker
one_failure = record { state = closed; failures = 5 ∷ []; opened_at = 0 }

Sparse-stays_closed_case :
    ((fail_all circuit (20 ∷ 40 ∷ 60 ∷ []) one_failure).state ≡ closed)
    × ((fail_all circuit (20 ∷ 40 ∷ 60 ∷ []) one_failure).failures ≡ 60 ∷ [])
Sparse-stays_closed_case =
    Sparse-stays_closed circuit 5 (20 ∷ 40 ∷ 60 ∷ []) one_failure (omega arith) refl refl
      (omega arith, (omega arith, (omega arith, tt)))

gates_after_cooldown_case : gates circuit (130 ∷ 130 ∷ 131 ∷ []) opened ≡ replicate 3 (ok tt)
gates_after_cooldown_case =
    gates_after_cooldown circuit 130 (130 ∷ 131 ∷ []) opened refl (omega arith)

abbrev policy : RetryPolicy
policy = record { max_retries = 3; base_delay = 500; max_delay = 8000; multiplier = 2 }

-- Two attempts fail, the third one returns.
abbrev third_time : ℕ → RetryDecision ℕ Text
third_time zero = retry (some 900) none
third_time (suc zero) = retry none none
third_time (suc (suc n)) = return 7

abbrev half : ℕ → ℕ → ℕ
half k zero = zero
half k (suc c) = c

half_le : (k c : ℕ) → half k c ≤ c
half_le k zero = omega arith
half_le k (suc c) = omega arith

retries_twice : (j : ℕ) → j < 2 → IsRetry (third_time j)
retries_twice zero h = tt
retries_twice (suc zero) h = tt
retries_twice (suc (suc n)) h = absurd (omega arith)

run_with_retry_ends_example :
    run_with_retry half policy third_time ≡ (returned 7, waits half policy third_time 0 2)
run_with_retry_ends_example =
    run_with_retry_ends half policy third_time 2 retries_twice (omega arith) (λ h. absurd h)

delay_for_bounds_case :
    (delay_for half policy 2 none ≤ 8000)
    × (delay_for half policy 2 none ≤ 500 * 2 ^ 2)
    × (900 ≤ delay_for half policy 2 (some 900))
    × (delay_for half policy 2 (some 900) ≤ 900 + 500)
delay_for_bounds_case = delay_for_bounds half policy 2 900 half_le

-- 20 tokens a second, and a key that lives for ten seconds.
abbrev limit : TokenBucketConfig
limit = record { name = []; capacity = 20; refill = 1000000; nominal = 20 }

abbrev started : Bucket
started = record { tokens = 5000000; ts = 100; expires = 10000100 }

granted_bound_example :
    granted limit 10000000 100 ((50, 1) ∷ (0, 20) ∷ (900000, 3) ∷ []) (some started) * 1000000
    ≤ (1000000 + duration limit 10000000 ((50, 1) ∷ (0, 20) ∷ (900000, 3) ∷ [])) * 20
granted_bound_example =
    granted_bound limit 10000000 100 ((50, 1) ∷ (0, 20) ∷ (900000, 3) ∷ []) started (omega arith)
      (record { at_ts = refl; at_expires = refl; capped = omega arith })

headroom_of_twenty :
    (◌≡◌ {A = ℕ} 20 0) × (apply_headroom 20 9 10 ≡ 0)
    ⊎ (0 < 20) × (1 ≤ apply_headroom 20 9 10) × (apply_headroom 20 9 10 ≤ 20)
headroom_of_twenty = apply_headroom_range 20 9 10 (omega arith) (omega arith)

-- A penalty of sixty seconds from the moment 0, under a key that lives as long.
abbrev penalized : Bucket
penalized = record { tokens = 0; ts = 60000000; expires = 121000000 }

penalty_case :
    (let r = acquire_script limit 10000000 1000000 1 (some penalized) in
      (r.0 ≡ false) × (60000000 ≤ 1000000 + r.1 * 1000) × (r.2.tokens ≡ 0) × (r.2.ts ≡ 60000000))
penalty_case =
    acquire_script_penalized limit 10000000 1000000 1 penalized (omega arith) (omega arith)
      (omega arith)

longer_penalty_kept :
    (let b = (penalize_script 10000000 1000000 5000000 (some penalized)).1 in
      (b.tokens ≡ 0)
      × (1000000 + 5000000 ≤ b.ts)
      × (60000000 ≤ b.ts)
      × ((b.ts ≡ 60000000) ⊎ (b.ts ≡ 1000000 + 5000000)))
longer_penalty_kept = penalize_script_keeps 10000000 1000000 5000000 penalized (omega arith)

-- A denied call at 1 s resets the expiry to 11 s; at 12 s the bucket is full again, 48 s too soon.
penalty_lost_example :
    (let b = (acquire_script limit 10000000 1000000 1 (some penalized)).2 in
      (b.ts ≡ 60000000) × ((acquire_script limit 10000000 12000000 1 (some b)).0 ≡ true))
penalty_lost_example =
    penalty_lost limit 10000000 1000000 12000000 1 penalized (omega arith) (omega arith)
      (omega arith) (omega arith) (omega arith) (omega arith)

abbrev key_limits : KeyLimits
key_limits = record {
  app_capacity = 0;
  app_refill = 10000000;
  match_v5_capacity = 2000;
  match_v5_refill = 10000000;
  account_v1_capacity = 1000;
  account_v1_refill = 60000000;
  headroom_num = 9;
  headroom_den = 10;
}

default_buckets_scaled :
    All IsEffective (default_arena_buckets key_limits)
    × (length (default_arena_buckets key_limits) ≡ 3)
default_buckets_scaled =
    default_arena_buckets-IsEffective key_limits (omega arith) (omega arith) (omega arith)
      (omega arith)
