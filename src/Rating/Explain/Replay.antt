-- ===== src/Rating/Explain/Replay.antt =====
-- The explanation of a fresh result of backend/arena/rating/engine.py by backend/arena/rating/explain.py.
use arena_rank_project.Prelude.{
  ℕ, ◌-◌, ltb, ◌≡◌, refl, sym, ap, ◌∙◌, subst, Bool, true, false, not, Option, none, some,
  if◌then◌else◌, Option-cases, if_intro, inl, inr, ◌⊎◌,
}
use arena_rank_project.Prelude.Int.{pos}
use arena_rank_project.Prelude.Result.{if_result, Result, ok, ◌>>=◌, >>=-eq-ok, ok_inj}
use arena_rank_project.Floats.{Floats}
use arena_rank_project.Rating.Params.{Error, CapParams, RatingParams}
use arena_rank_project.Rating.Caps.{
  unbound, mismatch_override, high_cr_scale, composite_win_mult, zero_f, one_f, CapDecision,
  decide_pdl_cap,
}
use arena_rank_project.Rating.Modifiers.{soft_cap_factor}
use arena_rank_project.Rating.Engine.{
  unit, mu_for, CapExplanation, ParticipantInput, PlayerRatingResult, capped, frozen, modified_step,
}
use arena_rank_project.Rating.Rate.{finish, rate_eligible, rate_player}
use arena_rank_project.Rating.Explain.Entries.{
  ExplainInput, CapVerdict, PdlExplanation, Ledger, chain_ledger,
}
use arena_rank_project.Rating.Explain.Tiers.{
  Stage, bare_verdict, or_else, uncapped_stage, replayed_stage, cap_from, cap_stage,
}
use arena_rank_project.Rating.Explain.{
  lump_stage, zero_floor_stage, adjusted_stage, is_zero_floored, has_gap, gap_stage, closed_stage,
  explanation_of, explain, result_input, explain_result,
}

not_ineligible : {A : Type 0} {b : Bool} (x y : A) → b ≡ true → (if not b then x else y) ≡ y
not_ineligible x y e = rw e refl

module _ (fl : Floats) where
  open fl use {Float, of_int, add, sub, div}

  abbrev verdict_on : CapExplanation fl → Float → CapVerdict fl
  verdict_on cf raw = record {
    active = true;
    bound = cf.decision.bound;
    gain_cap = some cf.decision.hi;
    loss_cap = some cf.decision.lo;
    min_gain = some cf.decision.floor;
    raw_pdl = some raw;
    adjustment_pdl = some (sub cf.decision.value raw);
    mismatch_override = some cf.mismatch_override;
    high_cr_scale = some cf.high_cr_scale;
    composite_win = some cf.composite_win;
  }

  -- The verdict that repeats the facts of the cap layer.
  abbrev pub verdict_from : Option (CapExplanation fl) → CapVerdict fl
  verdict_from none = bare_verdict fl false
  verdict_from (some cf) = verdict_on cf cf.raw_cr_delta

  bind-ok :
      {A B : Type 0} {a : A} (first : Result Error A) (next : A → Result Error B)
      → first ≡ ok a
      → (first >>= next) ≡ next a
  bind-ok first next e = ap (λ m. m >>= next) e

  closed_stage-verdict :
      (inp : ExplainInput fl) (st : Stage fl) → (closed_stage fl inp st).verdict ≡ st.verdict
  unfolding closed_stage
  closed_stage-verdict inp st =
      let P : Stage fl → Type 0 = λ s. s.verdict ≡ st.verdict in
      if_intro P st.lump (lump_stage fl inp st) (gap_stage fl inp st) (λ e. refl)
        (λ e.
          if_intro P (has_gap fl inp st)
            (if is_zero_floored fl inp st
              then zero_floor_stage fl inp st
              else adjusted_stage fl inp st)
            st
            (λ z.
              if_intro P (is_zero_floored fl inp st) (zero_floor_stage fl inp st)
                (adjusted_stage fl inp st) (λ f. refl) (λ f. refl))
            (λ z. refl))

  -- The facts that the engine kept: the decision is that of its inputs.
  record AreFacts (cp : CapParams fl) (placement team_count : ℕ) (raw : Float)
      (cf : CapExplanation fl) : Type 0 where
    same_raw : raw ≡ cf.raw_cr_delta
    decided :
        decide_pdl_cap fl cf.raw_cr_delta placement team_count cf.composite_win cf.composite_loss cp
          cf.gain_floor_mult
        ≡ ok cf.decision

  -- A cap layer without facts, or with those of its decision.
  data AreKept (placement team_count : ℕ) (raw : Float)
      : Option (CapParams fl) → Option (CapExplanation fl) → Type 0 where
    nothing_kept : AreKept placement team_count raw none none
    facts_kept :
        (cp : CapParams fl) (cf : CapExplanation fl)
        → AreFacts cp placement team_count raw cf
        → AreKept placement team_count raw (some cp) (some cf)

  replayed_stage-verdict :
      (inp : ExplainInput fl) (l : Ledger fl) (cp : CapParams fl) (cf : CapExplanation fl)
      → AreFacts cp inp.placement inp.team_count
          (or_else fl inp.pre_cap_cr_delta
            (add l.running (or_else fl inp.confidence_cr (zero_f fl))))
          cf
      → (st : Stage fl) × (replayed_stage fl inp cp cf l ≡ ok st)
        × (st.verdict ≡ verdict_from (some cf))
  unfolding replayed_stage
  replayed_stage-verdict inp l cp cf facts =
      let decide : Float → Result Error (CapDecision fl) = λ x.
        decide_pdl_cap fl x inp.placement inp.team_count cf.composite_win cf.composite_loss cp
          cf.gain_floor_mult in
      (_, bind-ok _ _ (ap decide facts.same_raw ∙ facts.decided), ap (verdict_on cf) facts.same_raw)

  abbrev raw_of : ExplainInput fl → Ledger fl → Float
  raw_of inp l =
      or_else fl inp.pre_cap_cr_delta (add l.running (or_else fl inp.confidence_cr (zero_f fl)))

  cap_from-verdict :
      (inp : ExplainInput fl) (l : Ledger fl) (caps : Option (CapParams fl))
      (facts : Option (CapExplanation fl))
      → AreKept inp.placement inp.team_count (raw_of inp l) caps facts
      → (st : Stage fl) × (cap_from fl inp l caps facts ≡ ok st) × (st.verdict ≡ verdict_from facts)
  unfolding cap_from uncapped_stage
  cap_from-verdict inp l _ _ nothing_kept = (_, refl, refl)
  cap_from-verdict inp l _ _ (facts_kept cp cf h) = replayed_stage-verdict inp l cp cf h

  explain-verdict :
      (inp : ExplainInput fl)
      → inp.eligible ≡ true
      → AreKept inp.placement inp.team_count
          (raw_of inp (chain_ledger fl inp))
          inp.params.caps
          inp.cap_facts
      → (out : PdlExplanation fl) × (explain fl inp ≡ ok out)
        × (out.cap ≡ verdict_from inp.cap_facts)
  unfolding explain cap_stage
  explain-verdict inp e h =
      let (st, is, same) =
        cap_from-verdict inp (chain_ledger fl inp) inp.params.caps inp.cap_facts h in
      (
        explanation_of fl inp (closed_stage fl inp st),
        not_ineligible _ _ e ∙ bind-ok _ _ is,
        closed_stage-verdict inp st ∙ same,
      )

  module _ (pt : ParticipantInput fl) (total : Float) (n : ℕ) (cr : Float) (cp : CapParams fl) where
    abbrev mean_of : Float
    mean_of = if ltb 1 n then div (sub total pt.state.mu) (of_int (pos (n - 1))) else pt.state.mu

    -- The facts that the engine keeps of a decision.
    abbrev facts_of : CapDecision fl → CapExplanation fl
    facts_of d =
        let ovr =
          mismatch_override fl pt.state.mu mean_of pt.state.sigma pt.state.matches_played cp in
        let hcs = high_cr_scale fl pt.state.cr cp in
        record {
          decision = d;
          raw_cr_delta = sub cr pt.state.cr;
          mismatch_override = ovr;
          high_cr_scale = hcs;
          composite_win = composite_win_mult fl ovr hcs (one_f fl) cp;
          composite_loss = one_f fl;
          gain_floor_mult = sub (one_f fl) (unit fl pt.boosting_penalty_factor);
          lobby_mean_mu = mean_of;
        }

    abbrev capped_pair :
        Float
        → Float
        → RatingParams fl
        → CapDecision fl
        → Float × Float × Option (CapExplanation fl)
    capped_pair mu sigma p d =
        if d.changed
        then (
          add pt.state.cr d.value,
          mu_for fl (add pt.state.cr d.value) sigma p,
          some (facts_of d),
        )
        else (cr, mu, some (facts_of d))

    capped_pair-AreKept :
        (placement team_count : ℕ) (mu sigma : Float) (p : RatingParams fl) (d : CapDecision fl)
        → AreFacts cp placement team_count (sub cr pt.state.cr) (facts_of d)
        → AreKept placement team_count (sub cr pt.state.cr) (some cp) (capped_pair mu sigma p d).2
    capped_pair-AreKept placement team_count mu sigma p d h =
        if_intro
          (λ (u : Float × Float × Option (CapExplanation fl)).
            AreKept placement team_count (sub cr pt.state.cr) (some cp) u.2)
          d.changed
          (add pt.state.cr d.value, mu_for fl (add pt.state.cr d.value) sigma p, some (facts_of d))
          (cr, mu, some (facts_of d)) (λ c. facts_kept cp (facts_of d) h)
          (λ c. facts_kept cp (facts_of d) h)

  module _ (placement team_count : ℕ) (pt : ParticipantInput fl) (total : Float) (n : ℕ) where
    abbrev decided_by : Float → CapParams fl → Result Error (CapDecision fl)
    decided_by cr cp =
        let cf =
          facts_of pt total n cr cp
            record { value = cr; changed = true; lo = cr; hi = cr; floor = cr; bound = unbound } in
        decide_pdl_cap fl cf.raw_cr_delta placement team_count cf.composite_win cf.composite_loss cp
          cf.gain_floor_mult

    capped-AreKept :
        (cr mu sigma : Float) (p : RatingParams fl) (o : Float × Float × Option (CapExplanation fl))
        → capped fl placement team_count pt total n cr mu sigma p ≡ ok o
        → AreKept placement team_count (sub cr pt.state.cr) p.caps o.2
    unfolding capped
    capped-AreKept cr mu sigma p o h =
        let raw = sub cr pt.state.cr in
        elim (Option-cases p.caps) [
          | inl e ↦
              subst (λ c. AreKept placement team_count raw c o.2) (sym e)
                (subst (λ u. AreKept placement team_count raw none u.2) (ok_inj (rw e at h))
                  nothing_kept)
          | inr (cp, e) ↦
              let (d, decided, last) =
                >>=-eq-ok (decided_by cr cp) (λ d. ok (capped_pair pt total n cr cp mu sigma p d))
                  {b = o} (rw e at h) in
              subst (λ c. AreKept placement team_count raw c o.2) (sym e)
                (subst (λ u. AreKept placement team_count raw (some cp) u.2) (ok_inj last)
                  (capped_pair-AreKept pt total n cr cp placement team_count mu sigma p d
                    record { same_raw = refl; decided = decided }))
        ]

  -- The explanation of a result of the engine.
  pub record IsReplayed (p : RatingParams fl) (placement team_count : ℕ) (r : PlayerRatingResult fl)
      : Type 0 where
    pub explanation : PdlExplanation fl
    pub returned : explain_result fl p placement team_count r ≡ ok explanation
    pub verdict : explanation.cap ≡ verdict_from r.cap
    pub factor :
        r.eligible ≡ false
        ⊎ soft_cap_factor fl r.cr_before r.modifiers.pl_base_delta_mu p
          ≡ r.modifiers.soft_cap_factor

  frozen-IsReplayed :
      (pt : ParticipantInput fl) (is_win : Bool) (p : RatingParams fl) (placement team_count : ℕ)
      → IsReplayed p placement team_count (frozen fl pt is_win team_count)
  unfolding explain_result explain frozen
  frozen-IsReplayed pt is_win p placement team_count = record {
    explanation = _;
    returned = refl;
    verdict = refl;
    factor = inl refl;
  }

  -- The record that `finish` returns.
  module _ (placement team_count : ℕ) (pt : ParticipantInput fl) (p : RatingParams fl) where
    kept-IsReplayed :
        (r : PlayerRatingResult fl)
        → r.eligible ≡ true
        → AreKept placement team_count r.pre_cap_cr_delta p.caps r.cap
        → soft_cap_factor fl r.cr_before r.modifiers.pl_base_delta_mu p
          ≡ r.modifiers.soft_cap_factor
        → IsReplayed p placement team_count r
    unfolding explain_result
    kept-IsReplayed r e kept factor =
        let (out, returned, same) =
          explain-verdict (result_input fl p placement team_count r) e kept in
        record { explanation = out; returned = returned; verdict = same; factor = inr factor }

    finish-IsReplayed :
        (base sigma_new cr : Float) (o : Float × Float × Option (CapExplanation fl))
        (r : PlayerRatingResult fl)
        → AreKept placement team_count (sub cr pt.state.cr) p.caps o.2
        → finish fl placement team_count pt p
            (modified_step fl placement team_count pt base p)
            sigma_new
            cr
            o
          ≡ ok r
        → IsReplayed p placement team_count r
    unfolding finish modified_step
    finish-IsReplayed base sigma_new cr o r kept h =
        subst (IsReplayed p placement team_count) (ok_inj h) (kept-IsReplayed _ refl kept refl)

    rate_eligible-IsReplayed :
        (total : Float) (n : ℕ) (mu_pl sigma_pl : Float) (r : PlayerRatingResult fl)
        → rate_eligible fl placement team_count total n pt mu_pl sigma_pl p ≡ ok r
        → IsReplayed p placement team_count r
    unfolding rate_eligible
    rate_eligible-IsReplayed total n mu_pl sigma_pl r h =
        let (o, is, fin) = >>=-eq-ok (capped fl placement team_count pt total n _ _ _ p) _ h in
        finish-IsReplayed _ _ _ o r (capped-AreKept placement team_count pt total n _ _ _ p o is)
          fin

  -- Explaining the result that the engine has just computed for a player always returns. The cap verdict of
  -- the explanation is the one that the engine took and kept, decided again from the kept facts, and the
  -- factor of the soft cap, which is computed again, is the one that the engine applied.
  pub rate_player-IsReplayed :
      (placement team_count : ℕ) (total : Float) (n : ℕ) (pt : ParticipantInput fl)
      (new_r : Float × Float) (p : RatingParams fl) (r : PlayerRatingResult fl)
      → rate_player fl placement team_count total n pt new_r p ≡ ok r
      → IsReplayed p placement team_count r
  unfolding rate_player
  rate_player-IsReplayed placement team_count total n pt new_r p r h =
      if_result pt.eligible_for_progression _ _ h
        (rate_eligible-IsReplayed placement team_count pt p total n new_r.0 new_r.1 r)
        (λ same.
          subst (IsReplayed p placement team_count) (ok_inj same)
            (frozen-IsReplayed pt _ p placement team_count))
