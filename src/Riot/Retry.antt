-- ===== src/Riot/Retry.antt =====
-- backend/arena/riot/retry.py. Delays are counted in a unit in which those of the policy are whole (the
-- defaults are whole in milliseconds). The k-th value of `random.uniform(0, ceiling)` is an argument,
-- `uniform k ceiling`, and so is what the k-th attempt decides.
pub mod Laws
use arena_rank_project.Prelude.{
  ℕ, zero, suc, ◌+◌, ◌*◌, Option, none, some, List, [], ◌∷◌, if◌then◌else◌, leb, min, Text,
}
use arena_rank_project.Prelude.Int.{ℤ, pos, negsuc}
use arena_rank_project.Prelude.Table.{Table, lookup, text_instance}
use Prim.Native.Nat.{◌^◌}

pub record RetryPolicy : Type 0 where
  pub max_retries : ℕ
  pub base_delay : ℕ
  pub max_delay : ℕ
  pub multiplier : ℕ

-- `RetryDecision`, by its action: the value of a RETURN, the `Retry-After` and the error of a RETRY, and
-- the error of a RAISE, which the code asserts to be there.
pub data RetryDecision (A E : Type 0) : Type 0 where
  return : A → RetryDecision A E
  retry : Option ℕ → Option E → RetryDecision A E
  raises : E → RetryDecision A E

abbrev pub retry_after_name : Text
retry_after_name = b'R' ∷ b'e' ∷ b't' ∷ b'r' ∷ b'y' ∷ b'-' ∷ b'A' ∷ b'f' ∷ b't' ∷ b'e' ∷ b'r' ∷ []

abbrev lower_retry_after_name : Text
lower_retry_after_name =
    b'r' ∷ b'e' ∷ b't' ∷ b'r' ∷ b'y' ∷ b'-' ∷ b'a' ∷ b'f' ∷ b't' ∷ b'e' ∷ b'r' ∷ []

-- `x or y`
abbrev or_header : Option Text → Option Text → Option Text
or_header none y = y
or_header (some []) y = y
or_header (some (c ∷ t)) y = some (c ∷ t)

-- `value if value >= 0 else None`
abbrev non_negative : ℤ → Option ℕ
non_negative (pos n) = some n
non_negative (negsuc n) = none

-- `float(raw)` is an argument, in the unit of the delays: nothing for a text that is no number.
unfoldable pub parse_retry_after : (Text → Option ℤ) → Table Text Text → Option ℕ
parse_retry_after parse_float headers =
    elim (or_header (lookup retry_after_name headers) (lookup lower_retry_after_name headers)) [
      | none ↦ none
      | some raw ↦ elim (parse_float raw) [ none ↦ none | some value ↦ non_negative value ]
    ]

-- How the runner ends. `exhausted` is the `RuntimeError` of a last RETRY without an error.
pub data Outcome (A E : Type 0) : Type 0 where
  returned : A → Outcome A E
  raised : E → Outcome A E
  exhausted : Outcome A E

-- `min(max_delay, base * multiplier**attempt)`
unfoldable pub ceiling : RetryPolicy → ℕ → ℕ
ceiling p attempt = min p.max_delay (p.base_delay * p.multiplier ^ attempt)

-- After the loop: the error of the last RETRY.
abbrev pub give_up : {A E : Type 0} → Option E → Outcome A E
give_up none = exhausted
give_up (some e) = raised e

module _ (uniform : ℕ → ℕ → ℕ) where
  unfoldable pub backoff : RetryPolicy → ℕ → ℕ
  unfolding ceiling
  backoff p attempt = uniform attempt (ceiling p attempt)

  unfoldable pub delay_for : RetryPolicy → ℕ → Option ℕ → ℕ
  unfolding backoff
  delay_for p attempt retry_after =
      let jitter = backoff p attempt in
      elim retry_after [ none ↦ jitter | some wait ↦ wait + min jitter p.base_delay ]

  -- `for i in range(i, i + rounds)`, with the outcome and the waits before each further attempt.
  unfoldable pub attempts_from :
      {A E : Type 0}
      → RetryPolicy
      → (ℕ → RetryDecision A E)
      → ℕ
      → ℕ
      → Option E
      → Outcome A E × List ℕ
  unfolding delay_for
  attempts_from p decide zero i last_error = (give_up last_error, [])
  attempts_from p decide (suc rounds) i last_error = elim (decide i) [
    | return a ↦ (returned a, [])
    | raises e ↦ (raised e, [])
    | retry retry_after error ↦
        let rest = attempts_from p decide rounds (suc i) error in
        if leb p.max_retries i
        then (give_up error, [])
        else (rest.0, delay_for p i retry_after ∷ rest.1)
  ]

  unfoldable pub run_with_retry :
      {A E : Type 0} → RetryPolicy → (ℕ → RetryDecision A E) → Outcome A E × List ℕ
  unfolding attempts_from
  run_with_retry p decide = attempts_from p decide (p.max_retries + 1) 0 none
