-- ===== src/Rating/Caps/Laws.antt =====
-- What the cap layer of backend/arena/rating/caps.py guarantees of every decision.
use arena_rank_project.Prelude.{◌⊎◌, Bool-cases, inl, inr, ℕ, ◌≡◌, sym, subst, true, false, arith}
use arena_rank_project.Prelude.Result.{ok, >>=-eq-ok}
use arena_rank_project.Floats.{
  Floats, IsOrdered, clamp, fmax, fmin, clamp_bounds, clamp_cases, fmax_ge, fmin_le, lt_asym,
  le_trans,
}
use arena_rank_project.Rating.Params.{CapParams}
use arena_rank_project.Rating.Caps.{
  unbound, gain_cap, loss_cap, min_gained, zero_f, CapDecision, decide_within, cap_bounds, min_gain,
  decide_pdl_cap,
}

module _ (fl : Floats) (ord : IsOrdered fl) where
  open fl use {Float, lt, mul}
  open ord use {lt_irrefl, lt_trans, lt_connex}

  -- What a decision says of itself: which rule set the value, and what that rule implies.
  pub data Explains (raw lo hi floor : Float) (d : CapDecision fl) : Type 0 where
    as_is : d.bound ≡ unbound → d.changed ≡ false → d.value ≡ raw → Explains raw lo hi floor d
    capped_gain :
        d.bound ≡ gain_cap
        → d.changed ≡ true
        → d.value ≡ hi
        → lt hi raw ≡ true
        → Explains raw lo hi floor d
    capped_loss :
        d.bound ≡ loss_cap
        → d.changed ≡ true
        → d.value ≡ lo
        → lt raw lo ≡ true
        → Explains raw lo hi floor d
    lifted :
        d.bound ≡ min_gained
        → d.changed ≡ true
        → d.value ≡ fmin fl floor hi
        → lt (zero_f fl) floor ≡ true
        → lt raw d.value ≡ true
        → Explains raw lo hi floor d

  decide_within-Explains :
      (raw lo hi floor : Float)
      → lt hi lo ≡ false
      → Explains raw lo hi floor (decide_within fl raw lo hi floor)
  unfolding decide_within fmax
  decide_within-Explains raw lo hi floor h =
      let top = fmin fl floor hi in
      let top_le = (fmin_le fl ord floor hi).1 in
      elim (clamp_cases fl ord raw lo hi h) [
        | inl (e, above, below) ↦ elim (Bool-cases (lt (zero_f fl) floor)) [
          | inl has ↦ elim (Bool-cases (lt raw top)) [
            | inl up ↦
                lifted (ground (arith, lt_asym fl ord raw top up))
                  (ground (arith, lt_asym fl ord raw top up)) (ground arith) has (ground arith)
            | inr keep ↦
                as_is (ground (arith, lt_irrefl raw)) (ground (arith, lt_irrefl raw)) (ground arith)
          ]
          | inr no_floor ↦
              as_is (ground (arith, lt_irrefl raw)) (ground (arith, lt_irrefl raw)) (ground arith)
        ]
        | inr (inl (e, below)) ↦ elim (Bool-cases (lt (zero_f fl) floor)) [
          | inl has ↦ elim (Bool-cases (lt lo top)) [
            | inl up ↦
                let over = lt_trans raw lo top below up in
                lifted (ground (arith, lt_asym fl ord lo top up))
                  (ground (arith, over, lt_asym fl ord raw top over)) (ground arith) has
                  (ground (arith, over))
            | inr keep ↦
                capped_loss (ground (arith, lt_irrefl lo, below))
                  (ground (arith, below, lt_asym fl ord raw lo below)) (ground arith) below
          ]
          | inr no_floor ↦
              capped_loss (ground (arith, below))
                (ground (arith, below, lt_asym fl ord raw lo below)) (ground arith) below
        ]
        | inr (inr (e, above)) ↦
            let under = lt_asym fl ord hi raw above in
            capped_gain (ground (arith, top_le, above, under, lt_irrefl hi))
              (ground (arith, top_le, above, under)) (ground (arith, top_le)) above
      ]

  decide_within_range :
      (raw lo hi floor : Float)
      → lt hi lo ≡ false
      → let d = decide_within fl raw lo hi floor in
        (lt d.value lo ≡ false)
        × (lt hi d.value ≡ false)
        × (lt (zero_f fl) floor ≡ true → lt d.value (fmin fl floor hi) ≡ false)
  unfolding decide_within
  decide_within_range raw lo hi floor h =
      let c = clamp fl raw lo hi in
      let top = fmin fl floor hi in
      let (c_lo, c_hi) = clamp_bounds fl ord raw lo hi h in
      let (ge_c, ge_top) = fmax_ge fl ord c top in
      let top_le = (fmin_le fl ord floor hi).1 in
      (
        ground (arith, c_lo, le_trans fl ord lo c (fmax fl c top) c_lo ge_c),
        unfold fmax in ground (arith, c_hi, top_le),
        λ has. ground (arith, ge_top),
      )

  decide_pdl_cap-ok :
      (raw : Float) (placement team_count : ℕ) (win loss : Float) (cp : CapParams fl) (mult : Float)
      {d : CapDecision fl}
      → decide_pdl_cap fl raw placement team_count win loss cp mult ≡ ok d
      → d ≡ decide_within fl raw d.lo d.hi d.floor
  unfolding decide_pdl_cap decide_within
  decide_pdl_cap-ok raw placement team_count win loss cp mult h =
      let (bounds, _, h') = >>=-eq-ok (cap_bounds fl placement team_count win loss cp) _ h in
      let (least, _, h'') = >>=-eq-ok (min_gain fl placement team_count cp) _ h' in ground arith

  -- Every decision whose bounds are in order lies between them, pays at least the minimum gain (or the
  -- upper bound, if that is less) where there is one, and names the rule that set its value: it is the raw
  -- change exactly if it says `none` and `changed` is false, the upper bound if it says `gain_cap`, the
  -- lower one if it says `loss_cap`, and the minimum gain, above the raw change, if it says `min_gain`.
  pub decide_pdl_cap_sound :
      (raw : Float) (placement team_count : ℕ) (win loss : Float) (cp : CapParams fl) (mult : Float)
      {d : CapDecision fl}
      → decide_pdl_cap fl raw placement team_count win loss cp mult ≡ ok d
      → lt d.hi d.lo ≡ false
      → (lt d.value d.lo ≡ false)
        × (lt d.hi d.value ≡ false)
        × ((lt (zero_f fl) d.floor ≡ false) ⊎ (lt d.value (fmin fl d.floor d.hi) ≡ false))
        × Explains raw d.lo d.hi d.floor d
  decide_pdl_cap_sound raw placement team_count win loss cp mult {d} h le =
      let e = decide_pdl_cap-ok raw placement team_count win loss cp mult h in
      let (low, high, least) = decide_within_range raw d.lo d.hi d.floor le in
      (
        subst (λ v. lt v.value d.lo ≡ false) (sym e) low,
        subst (λ v. lt d.hi v.value ≡ false) (sym e) high,
        elim (Bool-cases (lt (zero_f fl) d.floor)) [
          | inl has ↦
              inr (subst (λ v. lt v.value (fmin fl d.floor d.hi) ≡ false) (sym e) (least has))
          | inr no_floor ↦ inl no_floor
        ],
        subst (Explains raw d.lo d.hi d.floor) (sym e)
            (decide_within-Explains raw d.lo d.hi d.floor le),
      )
