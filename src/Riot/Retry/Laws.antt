-- ===== src/Riot/Retry/Laws.antt =====
-- What the retry runner of backend/arena/riot/retry.py does on every sequence of attempts.
use arena_rank_project.Prelude.{
  ℕ, zero, suc, ◌+◌, ◌-◌, ◌≤◌, ◌<◌, ◌≡◌, refl, subst, ◌∙◌, ap, Option, none, some, List, [], ◌∷◌,
  arith, inl, inr, ◌⊎◌,
}
use arena_rank_project.Prelude.{Text}
use arena_rank_project.Prelude.Int.{ℤ, pos}
use arena_rank_project.Prelude.Table.{Table, lookup, text_instance}
use Prim.Native.Nat.{◌^◌, ◌*◌}
use native.Mathlib.Nat.{zero-add}
use arena_rank_project.Riot.Retry.{
  RetryPolicy, RetryDecision, return, retry, raises, Outcome, returned, raised, ceiling, delay_for,
  give_up, parse_retry_after, retry_after_name, attempts_from, run_with_retry,
}

module _ {A E : Type 0} where
  abbrev pub IsRetry : RetryDecision A E → Type 0
  IsRetry (return a) = ⊥
  IsRetry (retry w e) = Unit
  IsRetry (raises e) = ⊥

  -- How a decision that is no RETRY ends the run; for a RETRY, how its error does.
  abbrev pub ending : RetryDecision A E → Outcome A E
  ending (return a) = returned a
  ending (raises e) = raised e
  ending (retry w error) = give_up error

  -- The `Retry-After` of a decision.
  abbrev pub asked : RetryDecision A E → Option ℕ
  asked (return a) = none
  asked (raises e) = none
  asked (retry w error) = w

  IsRetry-cases :
      (d : RetryDecision A E)
      → ((w : Option ℕ) × (e : Option E) × (d ≡ retry w e))
        ⊎ ((a : A) × (d ≡ return a))
        ⊎ ((e : E) × (d ≡ raises e))
  IsRetry-cases (return a) = inr (inl (a, refl))
  IsRetry-cases (retry w e) = inl (w, e, refl)
  IsRetry-cases (raises e) = inr (inr (e, refl))

module _ (uniform : ℕ → ℕ → ℕ) {A E : Type 0} (p : RetryPolicy)
    (decide : ℕ → RetryDecision A E) where
  -- The waits before the attempts i + 1, …, i + k.
  abbrev pub waits : ℕ → ℕ → List ℕ
  waits i zero = []
  waits i (suc k) = delay_for uniform p i (asked (decide i)) ∷ waits (suc i) k

  -- One attempt that is to be repeated.
  retry_step :
      (rounds i : ℕ) (last : Option E)
      → IsRetry (decide i)
      → i < p.max_retries
      → (next : Option E) × (attempts_from uniform p decide (suc rounds) i last ≡ (
        (attempts_from uniform p decide rounds (suc i) next).0,
        delay_for uniform p i (asked (decide i))
            ∷ (attempts_from uniform p decide rounds (suc i) next).1,
      ))
  unfolding attempts_from
  retry_step rounds i last h lt = elim (IsRetry-cases (decide i)) [
    | inl (w, error, e) ↦ (error, ground arith)
    | inr (inl (a, e)) ↦ absurd (rw e at h)
    | inr (inr (x, e)) ↦ absurd (rw e at h)
  ]

  -- An attempt that ends the run.
  stop_step :
      (rounds i : ℕ) (last : Option E)
      → (IsRetry (decide i) → p.max_retries ≤ i)
      → attempts_from uniform p decide (suc rounds) i last ≡ (ending (decide i), [])
  unfolding attempts_from
  stop_step rounds i last h = elim (IsRetry-cases (decide i)) [
    | inl (w, error, e) ↦ let at_end = h (rw e tt) in ground arith
    | inr (inl (a, e)) ↦ rw (e, attempts_from)
    | inr (inr (x, e)) ↦ rw (e, attempts_from)
  ]

  run_to :
      (k rounds i : ℕ) (last : Option E)
      → ((j : ℕ) → j < k → IsRetry (decide (i + j)))
      → i + k ≤ p.max_retries
      → (IsRetry (decide (i + k)) → p.max_retries ≤ i + k)
      → attempts_from uniform p decide (k + suc rounds) i last
        ≡ (ending (decide (i + k)), waits i k)
  run_to zero rounds i last again le stop =
      let same : i + 0 ≡ i = omega arith in
      rw (zero-add, same) (stop_step rounds i last (rw same at stop))
  run_to (suc k) rounds i last again le stop =
      let same : i + suc k ≡ suc i + k = omega arith in
      let (next, e) =
        retry_step (k + suc rounds) i last
          (subst (λ n. IsRetry (decide n)) (omega arith) (again 0 (omega arith))) (omega arith) in
      let rest =
        run_to k rounds (suc i) next
          (λ j h. subst (λ n. IsRetry (decide n)) (omega arith) (again (suc j) (omega arith)))
          (omega arith) (subst (λ n. IsRetry (decide n) → p.max_retries ≤ n) same stop) in
      subst
        (λ n.
          attempts_from uniform p decide n i last ≡ (ending (decide (i + suc k)), waits i (suc k)))
        (omega arith) (e ∙ rw (rest, same) refl)

  -- If the first k attempts are RETRYs, with k at most `max_retries`, and the next one is not, or k is
  -- `max_retries`, the run ends by that attempt, the k + 1st: with its value, its error, or, for a RETRY,
  -- the error that it carries. Before it the runner has waited k times, as the policy says.
  pub run_with_retry_ends :
      (k : ℕ)
      → ((j : ℕ) → j < k → IsRetry (decide j))
      → k ≤ p.max_retries
      → (IsRetry (decide k) → k ≡ p.max_retries)
      → run_with_retry uniform p decide ≡ (ending (decide k), waits 0 k)
  unfolding run_with_retry
  run_with_retry_ends k again le stop =
      subst (λ n. attempts_from uniform p decide n 0 none ≡ (ending (decide k), waits 0 k))
        (omega arith)
        (run_to k (p.max_retries - k) 0 none
            (λ j h. subst (λ n. IsRetry (decide n)) (omega arith) (again j h)) (omega arith)
            (λ h. omega (arith, stop (subst (λ n. IsRetry (decide n)) (omega arith) h)))
          ∙ ap (λ n. (ending (decide n), waits 0 k)) (omega arith))

-- Where the random source stays within its range, a wait without `Retry-After` is at most `max_delay` and
-- at most the exponential ceiling of its attempt; with one it is at least what the server asked for, and
-- longer by at most the base delay.
pub delay_for_bounds :
    (uniform : ℕ → ℕ → ℕ) (p : RetryPolicy) (attempt asked_for : ℕ)
    → ((k c : ℕ) → uniform k c ≤ c)
    → (delay_for uniform p attempt none ≤ p.max_delay)
      × (delay_for uniform p attempt none ≤ p.base_delay * p.multiplier ^ attempt)
      × (asked_for ≤ delay_for uniform p attempt (some asked_for))
      × (delay_for uniform p attempt (some asked_for) ≤ asked_for + p.base_delay)
unfolding delay_for
delay_for_bounds uniform p attempt asked_for h =
    let u = h attempt (ceiling p attempt) in
    unfold ceiling in (omega (arith, u), omega (arith, u), omega arith, omega arith)

-- A wait that Riot asks for in its header is kept: no delay before the next attempt is shorter.
parse_retry_after_kept :
    (uniform : ℕ → ℕ → ℕ) (p : RetryPolicy) (attempt : ℕ) (parse_float : Text → Option ℤ)
    (headers : Table Text Text) (c : ℕ) (raw : Text) (wait : ℕ)
    → lookup retry_after_name headers ≡ some (c ∷ raw)
    → parse_float (c ∷ raw) ≡ some (pos wait)
    → wait ≤ delay_for uniform p attempt (parse_retry_after parse_float headers)
unfolding parse_retry_after delay_for
parse_retry_after_kept uniform p attempt parse_float headers c raw wait e h =
    rw (parse_retry_after, e, h) (omega arith)
