-- ===== src/Rating/Explain/Stages.antt =====
-- What each tier of backend/arena/rating/explain.py adds to a ledger.
use arena_rank_project.Prelude.{
  ◌≡◌, refl, sym, ap, ◌∙◌, subst, true, false, Option, none, some, [], arith, inl, inr, ◌⊎◌,
}
use arena_rank_project.Prelude.Result.{if_result, ok, >>=-eq-ok, ok_inj}
use arena_rank_project.Floats.{Floats}
use arena_rank_project.Rating.Params.{CapParams}
use arena_rank_project.Rating.Caps.{CapBound, zero_f, one_f, cap_bounds, min_gain, decide_pdl_cap}
use arena_rank_project.Rating.Engine.{CapExplanation}
use arena_rank_project.Rating.Explain.Entries.{
  ExplainState, ExplainInput, Ledger, confidence_entry, cap_entry, parcial,
}
use arena_rank_project.Rating.Explain.Tiers.{
  Stage, or_else, starting_fidelity, uncapped_stage, replayed_stage, near_zero_floor,
  probed_outcome, probed_stage, lost_stage, legacy_from, cap_from,
}
use arena_rank_project.Rating.Explain.Sums.{is_partial, IsOpen, enter-IsOpen}

module _ (fl : Floats) where
  open fl use {Float, add, sub, lt}

  pub record IsSound (st : Stage fl) : Type 0 where
    pub ledger : IsOpen fl st.ledger
    pub fidelity : is_partial st.fidelity ≡ st.lump
    pub unrecoverable : st.lump ≡ true ⊎ st.unrecoverable ≡ []

  starting_fidelity-exact : (inp : ExplainInput fl) → is_partial (starting_fidelity fl inp) ≡ false
  starting_fidelity-exact inp = ground arith

  module _ (inp : ExplainInput fl) (l : Ledger fl) (open_l : IsOpen fl l) where
    replayed_stage-IsSound :
        (cp : CapParams fl) (cf : CapExplanation fl) (st : Stage fl)
        → replayed_stage fl inp cp cf l ≡ ok st
        → IsSound st
    unfolding replayed_stage
    replayed_stage-IsSound cp cf st h =
        let raw =
          or_else fl inp.pre_cap_cr_delta
            (add l.running (or_else fl inp.confidence_cr (zero_f fl))) in
        let (dec, _, last) =
          >>=-eq-ok
            (decide_pdl_cap fl raw inp.placement inp.team_count cf.composite_win cf.composite_loss
              cp cf.gain_floor_mult)
            _ h in
        subst IsSound (ok_inj last) record {
          ledger =
              enter-IsOpen fl cap_entry _ none _ (enter-IsOpen fl confidence_entry _ none l open_l);
          fidelity = starting_fidelity-exact inp;
          unrecoverable = inr refl;
        }

    lumped-IsSound :
        (st : Stage fl) → st.ledger ≡ l → st.fidelity ≡ parcial → st.lump ≡ true → IsSound st
    lumped-IsSound st e f u = record {
      ledger = subst (IsOpen fl) (sym e) open_l;
      fidelity = ap is_partial f ∙ sym u;
      unrecoverable = inl u;
    }

    probed_outcome-IsSound :
        (lo hi floor ovr hcs comp_win : Float) (hit : Option CapBound)
        → IsSound (probed_outcome fl inp l lo hi floor ovr hcs comp_win hit)
    unfolding probed_outcome
    probed_outcome-IsSound lo hi floor ovr hcs comp_win none = record {
      ledger =
          enter-IsOpen fl cap_entry _ none _ (enter-IsOpen fl confidence_entry _ none l open_l);
      fidelity = refl;
      unrecoverable = inr refl;
    }
    probed_outcome-IsSound lo hi floor ovr hcs comp_win (some hit) = lumped-IsSound _ refl refl refl

    probed_stage-IsSound :
        (cp : CapParams fl) (state : ExplainState fl) (lobby_mean : Float) (st : Stage fl)
        → probed_stage fl inp cp state lobby_mean l ≡ ok st
        → IsSound st
    unfolding probed_stage
    probed_stage-IsSound cp state lobby_mean st h =
        let (bounds, _, h₁) =
          >>=-eq-ok (cap_bounds fl inp.placement inp.team_count _ (one_f fl) cp) _ h in
        let (least, _, h₂) = >>=-eq-ok (min_gain fl inp.placement inp.team_count cp) _ h₁ in
        subst IsSound (ok_inj h₂) (probed_outcome-IsSound _ _ _ _ _ _ _)

    lost_stage-IsSound : IsSound (lost_stage fl inp l)
    unfolding lost_stage
    lost_stage-IsSound = lumped-IsSound _ refl refl refl

    legacy_from-IsSound :
        (cp : CapParams fl) (state : Option (ExplainState fl)) (lobby : Option Float)
        (st : Stage fl)
        → legacy_from fl inp cp l state lobby ≡ ok st
        → IsSound st
    unfolding legacy_from
    legacy_from-IsSound cp none lobby st h = subst IsSound (ok_inj h) lost_stage-IsSound
    legacy_from-IsSound cp (some state) none st h = subst IsSound (ok_inj h) lost_stage-IsSound
    legacy_from-IsSound cp (some state) (some lobby_mean) st h =
        if_result (near_zero_floor fl inp) _ _ h
          (λ same. subst IsSound (ok_inj same) lost_stage-IsSound)
          (probed_stage-IsSound cp state lobby_mean st)

    uncapped_stage-IsSound : IsSound (uncapped_stage fl inp l)
    unfolding uncapped_stage
    uncapped_stage-IsSound = record {
      ledger = enter-IsOpen fl confidence_entry _ none l open_l;
      fidelity = starting_fidelity-exact inp;
      unrecoverable = inr refl;
    }

    pub cap_from-IsSound :
        (caps : Option (CapParams fl)) (facts : Option (CapExplanation fl)) (st : Stage fl)
        → cap_from fl inp l caps facts ≡ ok st
        → IsSound st
    unfolding cap_from
    cap_from-IsSound none facts st h = subst IsSound (ok_inj h) uncapped_stage-IsSound
    cap_from-IsSound (some cp) (some cf) st h = replayed_stage-IsSound cp cf st h
    cap_from-IsSound (some cp) none st h = legacy_from-IsSound cp inp.state inp.lobby_mean_mu st h
