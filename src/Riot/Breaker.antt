-- ===== src/Riot/Breaker.antt =====
-- backend/arena/riot/circuit_breaker.py. The clock is monotonic, and its readings, like the windows of
-- the configuration, are counted in one fixed unit; so the truncated `-` is exact where the code
-- subtracts from `now` and compares. Each method runs under the lock, as one step.
pub mod Laws
use arena_rank_project.Prelude.{ℕ, ◌+◌, ◌-◌, List, [], ◌∷◌, ◌++◌, if◌then◌else◌, ltb, leb, length}
use arena_rank_project.Prelude.Result.{Result, ok, err}

pub data CircuitState : Type 0 where
  closed open_circuit half_open : CircuitState

pub record CircuitConfig : Type 0 where
  pub failure_threshold : ℕ
  pub window_seconds : ℕ
  pub cooldown_seconds : ℕ

-- The failures are in the order in which they were appended.
pub record Breaker : Type 0 where
  pub state : CircuitState
  pub failures : List ℕ
  pub opened_at : ℕ

abbrev pub fresh : Breaker
fresh = record { state = closed; failures = []; opened_at = 0 }

-- `CircuitOpenError`, with the time to wait, or what the guarded call itself raised.
pub data CallError (E : Type 0) : Type 0 where
  circuit_open : ℕ → CallError E
  failed : E → CallError E

-- `while failures and failures[0] < cutoff: failures.popleft()`
unfoldable pub prune_before : ℕ → List ℕ → List ℕ
prune_before cutoff [] = []
prune_before cutoff (f ∷ fs) =
    let rest = prune_before cutoff fs in if ltb f cutoff then rest else f ∷ fs

unfoldable pub on_success : Breaker → Breaker
on_success s = record s { failures = []; state = closed }

module _ (cfg : CircuitConfig) where
  unfoldable pub prune : ℕ → List ℕ → List ℕ
  unfolding prune_before
  prune now failures = prune_before (now - cfg.window_seconds) failures

  enter : CircuitState → ℕ → Breaker → Result ℕ (Unit {0}) × Breaker
  enter open_circuit now s =
      let elapsed = now - s.opened_at in
      if leb cfg.cooldown_seconds elapsed
      then (ok tt, record s { state = half_open })
      else (err (cfg.cooldown_seconds - elapsed), s)
  enter closed now s = (ok tt, s)
  enter half_open now s = (ok tt, s)

  -- The gate: it lets the call through, or rejects it with the time that is left.
  unfoldable pub before_call : ℕ → Breaker → Result ℕ (Unit {0}) × Breaker
  unfolding enter
  before_call now s = enter s.state now s

  -- A failure outside a trial: it is counted, and trips the breaker at the threshold.
  unfoldable pub count_failure : ℕ → Breaker → Breaker
  unfolding prune
  count_failure now s =
      let failures = prune now (s.failures ++ (now ∷ [])) in
      if leb cfg.failure_threshold (length failures)
      then record { state = open_circuit; opened_at = now; failures = [] }
      else record s { failures = failures }

  fail_in : CircuitState → ℕ → Breaker → Breaker
  unfolding count_failure
  fail_in half_open now s = record s { state = open_circuit; opened_at = now }
  fail_in closed now s = count_failure now s
  fail_in open_circuit now s = count_failure now s

  unfoldable pub on_failure : ℕ → Breaker → Breaker
  unfolding fail_in
  on_failure now s = fail_in s.state now s

  -- `call(fn)`: the gate at `start`, then the call's own outcome, recorded at `end`.
  unfoldable pub call :
      {A E : Type 0} → ℕ → ℕ → Result E A → Breaker → Result (CallError E) A × Breaker
  unfolding before_call on_success on_failure
  call start end outcome s =
      let (gate, s') = before_call start s in
      elim gate [
        | err wait ↦ (err (circuit_open wait), s')
        | ok _ ↦ elim outcome [
          | ok a ↦ (ok a, on_success s')
          | err e ↦ (err (failed e), on_failure end s')
        ]
      ]
