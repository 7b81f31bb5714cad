-- ===== src/Season/Lifecycle/Runs.antt =====
-- Runs of the operations of the season service, in any order and number.
use arena_rank_project.Prelude.{
  ℕ, ◌+◌, ◌≤◌, ◌≡◌, refl, sym, ap, ◌∙◌, subst, List, [], ◌∷◌, arith, length, inl, inr, Bool-cases,
}
use arena_rank_project.Prelude.{◌==◌ as nat_beq}
use arena_rank_project.Prelude.Result.{Result, ok, err, >>=-eq-ok, ok_inj}
use arena_rank_project.Floats.{Floats}
use arena_rank_project.Rating.Params.{RatingParams}
use arena_rank_project.Season.Rows.{
  SeasonStatus, active, soft_lock, ended, off_season, Season, PlayerSeason, Store, get_season,
  set_status, get_season-set_status, get_season-set_status_other,
}
use arena_rank_project.Season.Close.{close_season, end_season, awards_of, with_added}
use arena_rank_project.Season.Reset.{soft_reset}
use arena_rank_project.Season.Lifecycle.{allowed_transition, check_transition, advance_status}

-- The place of a status in the chain.
abbrev pub stage : SeasonStatus → ℕ
stage active = 0
stage soft_lock = 1
stage ended = 2
stage off_season = 3

-- The later status is the same or the next one.
abbrev IsNext : Season → Season → Type 0
IsNext season season' =
    (stage season.status ≤ stage season'.status) × (stage season'.status ≤ stage season.status + 1)

allowed_stage : (s t : SeasonStatus) → check_transition s t ≡ ok tt → stage t ≡ stage s + 1
unfolding check_transition allowed_transition
allowed_stage s t h = ground arith

module _ (fl : Floats) where
  -- A call of the service, with the order that its query returns or its parameters.
  pub data Operation : Type 0 where
    advance : ℕ → SeasonStatus → Operation
    close : (List (PlayerSeason fl) → List (PlayerSeason fl)) → ℕ → Operation
    reset : RatingParams fl → ℕ → ℕ → Operation

  -- A call that raises writes nothing.
  abbrev pub committed {ℓ κ} :
      {E : Type ℓ} {A : Type κ} → Result E (A × Store fl) → Store fl → Store fl
  committed (err e) store = store
  committed (ok out) store = out.1

  unfoldable pub run_one : Operation → Store fl → Store fl
  run_one (advance sid to) store = committed (advance_status fl sid to store) store
  run_one (close order_by_cr sid) store = committed (close_season fl order_by_cr sid store) store
  run_one (reset params from to) store = (soft_reset fl params from to store).1

  unfoldable pub run : List Operation → Store fl → Store fl
  run [] store = store
  run (op ∷ ops) store = run ops (run_one op store)

  abbrev Later : ℕ → Season → Store fl → Type 0
  Later sid season store =
      (season' : Season) × (get_season fl sid store ≡ ok season') × IsNext season season'

  stays :
      (sid : ℕ) (store : Store fl) {season : Season}
      → get_season fl sid store ≡ ok season
      → Later sid season store
  stays sid store {season = season} h = (season, h, (omega arith, omega arith))

  -- A write of the next status, for this season or another.
  set_status-Later :
      (sid j : ℕ) (to : SeasonStatus) (store : Store fl) {season season0 : Season}
      → get_season fl sid store ≡ ok season
      → get_season fl j store ≡ ok season0
      → stage to ≡ stage season0.status + 1
      → Later sid season (set_status fl j to store)
  set_status-Later sid j to store {season = season} {season0 = season0} h h0 e =
      elim (Bool-cases (nat_beq j sid)) [
        | inl b ↦
            let same : j ≡ sid = ground arith in
            let h0' = subst (λ i. get_season fl i store ≡ ok season0) same h0 in
            let is : season0 ≡ season = ok_inj (sym h0' ∙ h) in
            let e' = subst (λ s. stage to ≡ stage s.status + 1) is e in
            (
              record season0 { status = to },
              subst
                  (λ i.
                    get_season fl sid (set_status fl i to store)
                    ≡ ok (record season0 { status = to }))
                  (sym same) (get_season-set_status fl sid to store h0'),
              (omega (arith, e'), omega (arith, e')),
            )
        | inr b ↦
            let (season', h', next) = stays sid store h in
            (season', get_season-set_status_other fl j sid to store b ∙ h', next)
      ]

  committed_by {ℓ κ μ} :
      {E : Type ℓ} {A : Type κ} (m : Result E (A × Store fl)) (store : Store fl)
      (P : Store fl → Type μ)
      → P store
      → ((out : A × Store fl) → m ≡ ok out → P out.1)
      → P (committed m store)
  committed_by (err e) store P h k = h
  committed_by (ok out) store P h k = k out refl

  advance-Later :
      (sid j : ℕ) (to : SeasonStatus) (store : Store fl) {season : Season}
      → get_season fl sid store ≡ ok season
      → Later sid season (committed (advance_status fl j to store) store)
  unfolding advance_status
  advance-Later sid j to store {season = season} h =
      committed_by (advance_status fl j to store) store (Later sid season) (stays sid store h)
        (λ out done.
          let (season0, h0, rest) = >>=-eq-ok (get_season fl j store) _ done in
          let (u, allowed, last) = >>=-eq-ok (check_transition season0.status to) _ rest in
          subst (λ o. Later sid season o.1) (ok_inj last)
            (set_status-Later sid j to store h h0 (allowed_stage season0.status to allowed)))

  end-Later :
      (sid j : ℕ) (status : SeasonStatus) (store : Store fl) {season season0 : Season}
      → get_season fl sid store ≡ ok season
      → get_season fl j store ≡ ok season0
      → season0.status ≡ status
      → Later sid season (end_season fl j status store)
  unfolding end_season
  end-Later sid j active store h h0 e = stays sid store h
  end-Later sid j soft_lock store h h0 e =
      set_status-Later sid j ended store h h0 (ap (λ s. stage s + 1) (sym e))
  end-Later sid j ended store h h0 e = stays sid store h
  end-Later sid j off_season store h h0 e = stays sid store h

  close-Later :
      (order_by_cr : List (PlayerSeason fl) → List (PlayerSeason fl)) (sid j : ℕ) (store : Store fl)
      {season : Season}
      → get_season fl sid store ≡ ok season
      → Later sid season (committed (close_season fl order_by_cr j store) store)
  unfolding close_season get_season
  close-Later order_by_cr sid j store {season = season} h =
      committed_by (close_season fl order_by_cr j store) store (Later sid season)
        (stays sid store h)
        (λ out done.
          let (season0, h0, last) = >>=-eq-ok (get_season fl j store) _ done in
          subst (λ o. Later sid season o.1) (ok_inj last)
            (end-Later sid j season0.status
              (with_added fl (awards_of fl order_by_cr j store).added store) h h0 refl))

  reset-Later :
      (params : RatingParams fl) (sid from to : ℕ) (store : Store fl) {season : Season}
      → get_season fl sid store ≡ ok season
      → Later sid season (soft_reset fl params from to store).1
  unfolding soft_reset get_season
  reset-Later params sid from to store {season = season} h = (season, h, (omega arith, omega arith))

  run_one-Later :
      (op : Operation) (sid : ℕ) (store : Store fl) {season : Season}
      → get_season fl sid store ≡ ok season
      → Later sid season (run_one op store)
  unfolding run_one
  run_one-Later (advance j to) sid store h = advance-Later sid j to store h
  run_one-Later (close order_by_cr j) sid store h = close-Later order_by_cr sid j store h
  run_one-Later (reset params from to) sid store h = reset-Later params sid from to store h

  -- Through any run of the service's operations, on this season and on others, a season stays, its status
  -- never goes back along the chain, and n operations take it n places along it at most.
  pub run-IsForward :
      (ops : List Operation) (sid : ℕ) (store : Store fl) {season : Season}
      → get_season fl sid store ≡ ok season
      → (season' : Season) × (get_season fl sid (run ops store) ≡ ok season')
        × (stage season.status ≤ stage season'.status)
        × (stage season'.status ≤ stage season.status + length ops)
  unfolding run
  run-IsForward [] sid store {season = season} h = (season, h, omega arith, omega arith)
  run-IsForward (op ∷ ops) sid store h =
      let (season₁, h₁, next) = run_one-Later op sid store h in
      let (season', h', low, high) = run-IsForward ops sid (run_one op store) h₁ in
      (season', h', omega (arith, low, next.0), omega (arith, high, next.1))

  -- The transitions that are left from a status on.
  abbrev pub remaining : ℕ → SeasonStatus → List Operation
  remaining sid active = advance sid soft_lock ∷ advance sid ended ∷ advance sid off_season ∷ []
  remaining sid soft_lock = advance sid ended ∷ advance sid off_season ∷ []
  remaining sid ended = advance sid off_season ∷ []
  remaining sid off_season = []

  advanced :
      (sid : ℕ) (to : SeasonStatus) (store : Store fl) {season : Season}
      → get_season fl sid store ≡ ok season
      → check_transition season.status to ≡ ok tt
      → get_season fl sid (run_one (advance sid to) store) ≡ ok (record season { status = to })
  unfolding run_one advance_status
  advanced sid to store h allowed = rw (h, allowed) (get_season-set_status fl sid to store h)

  remaining-ends :
      (sid : ℕ) (status : SeasonStatus) (store : Store fl) {season : Season}
      → get_season fl sid store ≡ ok season
      → season.status ≡ status
      → (season' : Season) × (get_season fl sid (run (remaining sid status) store) ≡ ok season')
        × (season'.status ≡ off_season)
  unfolding run check_transition allowed_transition
  remaining-ends sid active store h e =
      let h₁ = advanced sid soft_lock store h (rw e refl) in
      let h₂ = advanced sid ended (run_one (advance sid soft_lock) store) h₁ refl in
      let h₃ =
        advanced sid off_season
          (run_one (advance sid ended) (run_one (advance sid soft_lock) store)) h₂ refl in
      (_, h₃, refl)
  remaining-ends sid soft_lock store h e =
      let h₁ = advanced sid ended store h (rw e refl) in
      (_, advanced sid off_season (run_one (advance sid ended) store) h₁ refl, refl)
  remaining-ends sid ended store h e = (_, advanced sid off_season store h (rw e refl), refl)
  remaining-ends sid off_season store {season = season} h e = (season, h, e)

  -- From whatever status, running the transitions that are left, as many as there are places to the end of the
  -- chain, takes the season to OFF_SEASON.
  pub run-remaining :
      (sid : ℕ) (store : Store fl) {season : Season}
      → get_season fl sid store ≡ ok season
      → (stage season.status + length (remaining sid season.status) ≡ 3)
        × ((season' : Season) × (get_season fl sid (run (remaining sid season.status) store)
              ≡ ok season')
            × (season'.status ≡ off_season))
  run-remaining sid store {season = season} h =
      (ground arith, remaining-ends sid season.status store h refl)
