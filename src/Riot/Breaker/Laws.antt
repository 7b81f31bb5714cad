-- ===== src/Riot/Breaker/Laws.antt =====
-- When the circuit breaker of backend/arena/riot/circuit_breaker.py trips, stays open and closes again.
use arena_rank_project.Prelude.{
  ◌⊎◌, inl, inr, leb, Bool-cases, ℕ, suc, ◌+◌, ◌-◌, ◌≤◌, ◌<◌, ◌≡◌, refl, sym, subst, ◌∙◌, ap, List,
  [], ◌∷◌, ◌++◌, arith, length, length-append, All, All-map, replicate, if◌then◌else◌,
}
use arena_rank_project.Prelude.Result.{Result, ok, err}
use arena_rank_project.Riot.Breaker.{
  CircuitConfig, Breaker, closed, open_circuit, half_open, circuit_open, failed, prune_before,
  before_call, on_success, on_failure, call,
}

-- What the callers and their calls do to a breaker, in the order in which the lock is taken.
pub data Move : Type 0 where
  enters : ℕ → Move
  succeeds : Move
  fails : ℕ → Move

module _ (cfg : CircuitConfig) where
  unfoldable pub move : Move → Breaker → Breaker
  unfolding before_call on_success on_failure
  move (enters now) s = (before_call cfg now s).1
  move succeeds s = on_success s
  move (fails now) s = on_failure cfg now s

  unfoldable pub moves : List Move → Breaker → Breaker
  unfolding move
  moves [] s = s
  moves (m ∷ ms) s = moves ms (move m s)

  length-prune_before : (cutoff : ℕ) (fs : List ℕ) → length (prune_before cutoff fs) ≤ length fs
  unfolding prune_before
  length-prune_before cutoff [] = omega arith
  length-prune_before cutoff (f ∷ fs) = ground (arith, length-prune_before cutoff fs)

  move_below :
      (m : Move) (s : Breaker)
      → 0 < cfg.failure_threshold
      → length s.failures < cfg.failure_threshold
      → length (move m s).failures < cfg.failure_threshold
  unfolding move
  move_below (enters now) s pos h = ground arith
  move_below succeeds s pos h = ground arith
  move_below (fails now) s pos h = ground arith

  -- In every interleaving of callers, the list of recorded failures stays shorter than the threshold,
  -- so it never grows without bound, whatever the state.
  pub moves_below :
      (ms : List Move) (s : Breaker)
      → 0 < cfg.failure_threshold
      → length s.failures < cfg.failure_threshold
      → length (moves ms s).failures < cfg.failure_threshold
  unfolding moves
  moves_below [] s pos h = h
  moves_below (m ∷ ms) s pos h = moves_below ms (move m s) pos (move_below m s pos h)

  -- While the cooldown runs, a call is rejected at once, whatever it would have done, with the time that
  -- is left, and the breaker stays as it is. From the cooldown's end on, an open breaker lets a call
  -- through; if that call succeeds the breaker closes, and if it fails it is open anew from that moment.
  pub call_open :
      {A E : Type 0} (start end : ℕ) (a : A) (e : E) (outcome : Result E A) (s : Breaker)
      → s.state ≡ open_circuit
      → s.opened_at ≤ start
      → (start < s.opened_at + cfg.cooldown_seconds)
          × (call cfg start end outcome s
              ≡ (err (circuit_open (s.opened_at + cfg.cooldown_seconds - start)), s))
        ⊎ (s.opened_at + cfg.cooldown_seconds ≤ start)
          × (call cfg {E = E} start end (ok a) s
              ≡ (ok a, record s { state = closed; failures = [] }))
          × (call cfg {A = A} start end (err e) s
              ≡ (err (failed e), record s { state = open_circuit; opened_at = end }))
  unfolding call
  call_open start end a e outcome s o h =
      elim (Bool-cases (leb (s.opened_at + cfg.cooldown_seconds) start)) [
        | inl late ↦ inr (ground arith, ground arith, ground arith)
        | inr early ↦ inl (ground arith, ground arith)
      ]

  -- A pruning that finds no old failure changes nothing.
  prune_recent : (cutoff : ℕ) (fs : List ℕ) → All (λ f. cutoff ≤ f) fs → prune_before cutoff fs ≡ fs
  unfolding prune_before
  prune_recent cutoff [] h = refl
  prune_recent cutoff (f ∷ fs) h = ground arith

  All-append : (P : ℕ → Type 0) (fs : List ℕ) (f : ℕ) → All P fs → P f → All P (fs ++ (f ∷ []))
  All-append P [] f h p = (p, tt)
  All-append P (g ∷ fs) f h p = (h.0, All-append P fs f h.1 p)

  -- One more recent failure is only counted.
  on_failure_counted :
      (now : ℕ) (s : Breaker)
      → s.state ≡ closed
      → All (λ f. now - cfg.window_seconds ≤ f) s.failures
      → on_failure cfg now s ≡ (
          if leb cfg.failure_threshold (suc (length s.failures))
          then record { state = open_circuit; opened_at = now; failures = [] }
          else record s { failures = s.failures ++ (now ∷ []) })
  unfolding on_failure
  on_failure_counted now s c h = ground (
    arith,
    prune_recent (now - cfg.window_seconds) (s.failures ++ (now ∷ []))
        (All-append _ s.failures now h (omega arith)),
    length-append s.failures (now ∷ []),
  )

  abbrev pub fail_all : List ℕ → Breaker → Breaker
  fail_all [] s = s
  fail_all (t ∷ ts) s = fail_all ts (on_failure cfg t s)

  -- The last failure of a burst.
  abbrev pub last_of : ℕ → List ℕ → ℕ
  last_of t [] = t
  last_of t (u ∷ us) = last_of u us

  -- All the failures of the burst lie between `low` and one window after it.
  abbrev pub InWindow : ℕ → List ℕ → Type 0
  InWindow low = All (λ t. (low ≤ t) × (t ≤ low + cfg.window_seconds))

  burst_from :
      (low t : ℕ) (ts : List ℕ) (s : Breaker)
      → s.state ≡ closed
      → All (λ f. low ≤ f) s.failures
      → InWindow low (t ∷ ts)
      → length s.failures + length (t ∷ ts) ≡ cfg.failure_threshold
      → fail_all (t ∷ ts) s
        ≡ record { state = open_circuit; failures = []; opened_at = last_of t ts }
  burst_from low t [] s c recent w e =
      on_failure_counted t s c (All-map _ _ s.failures (λ f h. omega arith) recent) ∙ ground arith
  burst_from low t (u ∷ us) s c recent w e =
      let s' = record s { failures = s.failures ++ (t ∷ []) } in
      let counted : on_failure cfg t s ≡ s' =
        on_failure_counted t s c (All-map _ _ s.failures (λ f h. omega arith) recent)
        ∙ ground arith in
      ap (fail_all (u ∷ us)) counted
      ∙ burst_from low u us s' c (All-append _ s.failures t recent w.0.0) w.1
          (omega (arith, length-append s.failures (t ∷ []), e))

  -- A closed breaker with no recorded failure is opened by as many failures in a row as the threshold
  -- says, if they all fall within one window: it is open from the last of them on, with an empty record.
  pub burst_trips :
      (low t : ℕ) (ts : List ℕ) (s : Breaker)
      → s.state ≡ closed
      → s.failures ≡ []
      → InWindow low (t ∷ ts)
      → length (t ∷ ts) ≡ cfg.failure_threshold
      → fail_all (t ∷ ts) s
        ≡ record { state = open_circuit; failures = []; opened_at = last_of t ts }
  burst_trips low t ts s c none_yet w e =
      burst_from low t ts s c (rw none_yet tt) w (rw none_yet (omega (arith, e)))

  -- Each failure comes more than one window after the one before it.
  abbrev pub Sparse : ℕ → List ℕ → Type 0
  Sparse t [] = Unit
  Sparse t (u ∷ us) = (t + cfg.window_seconds < u) × Sparse u us

  sparse_step :
      (t u : ℕ) (s : Breaker)
      → 2 ≤ cfg.failure_threshold
      → s.state ≡ closed
      → s.failures ≡ t ∷ []
      → t + cfg.window_seconds < u
      → on_failure cfg u s ≡ record s { failures = u ∷ [] }
  unfolding on_failure
  sparse_step t u s many c one late = ground arith

  -- With a threshold of two or more, failures that are further apart than the window never trip a
  -- closed breaker, however many they are.
  pub Sparse-stays_closed :
      (t : ℕ) (ts : List ℕ) (s : Breaker)
      → 2 ≤ cfg.failure_threshold
      → s.state ≡ closed
      → s.failures ≡ t ∷ []
      → Sparse t ts
      → ((fail_all ts s).state ≡ closed) × ((fail_all ts s).failures ≡ last_of t ts ∷ [])
  Sparse-stays_closed t [] s many c one h = (c, one)
  Sparse-stays_closed t (u ∷ us) s many c one h =
      subst (λ b. ((fail_all us b).state ≡ closed) × ((fail_all us b).failures ≡ last_of u us ∷ []))
        (sym (sparse_step t u s many c one h.0))
        (Sparse-stays_closed u us (record s { failures = u ∷ [] }) many c refl h.1)

  -- Callers that come one after another, before any of them has finished.
  abbrev pub gates : List ℕ → Breaker → List (Result ℕ (Unit {0}))
  gates [] s = []
  gates (t ∷ ts) s = (before_call cfg t s).0 ∷ gates ts (before_call cfg t s).1

  gates-half_open :
      (ts : List ℕ) (s : Breaker) → s.state ≡ half_open → gates ts s ≡ replicate (length ts) (ok tt)
  unfolding before_call
  gates-half_open [] s h = refl
  gates-half_open (t ∷ ts) s h = ground (arith, gates-half_open ts s h)

  -- Once the cooldown of an open breaker has elapsed, every caller is let through until the first of
  -- them finishes, and not one trial call alone.
  pub gates_after_cooldown :
      (t : ℕ) (ts : List ℕ) (s : Breaker)
      → s.state ≡ open_circuit
      → s.opened_at + cfg.cooldown_seconds ≤ t
      → gates (t ∷ ts) s ≡ replicate (length (t ∷ ts)) (ok tt)
  unfolding before_call
  gates_after_cooldown t ts s o h =
      ground (arith, gates-half_open ts (record s { state = half_open }) refl)
