-- ===== src/Rating/Explain.antt =====
-- backend/arena/rating/explain.py: the ledger of the contributions behind the displayed change of a player.
pub mod Entries
pub mod Tiers
pub mod Sums
pub mod Stages
pub mod Reconciled
pub mod Replay
mod Tests
use arena_rank_project.Prelude.{
  ℕ, Bool, true, false, not, Option, none, some, List, [], ◌∷◌, ◌++◌, ◌||◌, ◌&&◌, if◌then◌else◌,
  leb, any,
}
use arena_rank_project.Prelude.{◌==◌ as nat_beq}
use arena_rank_project.Prelude.Int.{pos}
use arena_rank_project.Prelude.Result.{Result, ok, err, ◌>>=◌}
use arena_rank_project.Floats.{Floats, fmin, fmax}
use arena_rank_project.Rating.Params.{Error, RatingParams, CapParams}
use arena_rank_project.Rating.Caps.{
  CapBound, unbound, gain_cap, loss_cap, min_gained, CapDecision, zero_f, one_f, mismatch_override,
  high_cr_scale, composite_win_mult, cap_bounds, min_gain, decide_pdl_cap,
}
use arena_rank_project.Rating.Modifiers.{soft_cap_factor, fabs}
use arena_rank_project.Rating.Engine.{CapExplanation, PlayerRatingResult, unit}
use arena_rank_project.Rating.Explain.Entries.{
  LedgerKind, Fidelity, Lost, extend_lost, reconcile_eps, ExplainState, ExplainInput, LedgerEntry,
  CapVerdict, PdlExplanation, Ledger, empty_ledger, enter, enter_steps, step_from, chain_steps,
  chain_ledger, base_entry, placement_entry, provisional_entry, streak_entry, soft_cap_entry,
  boosting_entry, party_entry, dispersion_entry, confidence_entry, cap_entry, zero_floor_entry,
  display_adjust_entry, exato, derivado, parcial, lost_cap_bounds, lost_zero_floor, lost_confidence,
  lost_cap_adjustment, lost_residual_gap, lost_code,
}
use arena_rank_project.Rating.Explain.Tiers.{
  Stage, bare_verdict, or_else, starting_fidelity, uncapped_stage, replayed_stage, near_zero_floor,
  first_hit, probed_outcome, probed_stage, lost_stage, legacy_from, cap_from, cap_stage, is_none,
}

module _ (fl : Floats) where
  open fl use {Float, of_int, add, sub, mul, div, lt}

  -- One entry for all that is past the chain, whose running total is `post_chain_cr`.
  abbrev pub lump_stage : ExplainInput fl → Stage fl → Stage fl
  lump_stage inp st = record {
    ledger =
        enter fl display_adjust_entry (sub inp.cr_delta st.ledger.running) none false st.ledger;
    verdict = st.verdict;
    fidelity = st.fidelity;
    unrecoverable = extend_lost st.unrecoverable (lost_confidence ∷ lost_cap_adjustment ∷ []);
    lump = st.lump;
  }

  abbrev pub gap_of : ExplainInput fl → Stage fl → Float
  gap_of inp st = sub inp.cr_delta st.ledger.running

  -- The last entry, for a gap that is left: the floor at 0, or what nothing explains.
  abbrev pub zero_floor_stage : ExplainInput fl → Stage fl → Stage fl
  zero_floor_stage inp st = record {
    ledger = enter fl zero_floor_entry (gap_of inp st) none true st.ledger;
    verdict = st.verdict;
    fidelity = st.fidelity;
    unrecoverable = st.unrecoverable;
    lump = st.lump;
  }

  abbrev pub adjusted_stage : ExplainInput fl → Stage fl → Stage fl
  adjusted_stage inp st = record {
    ledger = enter fl display_adjust_entry (gap_of inp st) none false st.ledger;
    verdict = st.verdict;
    fidelity = parcial;
    unrecoverable = st.unrecoverable ++ (lost_residual_gap ∷ []);
    lump = st.lump;
  }

  abbrev pub is_zero_floored : ExplainInput fl → Stage fl → Bool
  is_zero_floored inp st =
      near_zero_floor fl inp && lt (add inp.cr_before st.ledger.running) (zero_f fl)

  -- `abs(gap) > _RECONCILE_EPS`
  abbrev pub has_gap : ExplainInput fl → Stage fl → Bool
  has_gap inp st = lt (reconcile_eps fl) (fabs fl (gap_of inp st))

  abbrev pub gap_stage : ExplainInput fl → Stage fl → Stage fl
  gap_stage inp st =
      if has_gap inp st
      then (if is_zero_floored inp st then zero_floor_stage inp st else adjusted_stage inp st)
      else st

  unfoldable pub closed_stage : ExplainInput fl → Stage fl → Stage fl
  unfolding extend_lost
  closed_stage inp st = if st.lump then lump_stage inp st else gap_stage inp st

  abbrev pub explanation_of : ExplainInput fl → Stage fl → PdlExplanation fl
  explanation_of inp st = record {
    fidelity = st.fidelity;
    cr_before = inp.cr_before;
    cr_after = inp.cr_after;
    cr_delta = inp.cr_delta;
    placement = inp.placement;
    team_count = inp.team_count;
    entries = st.ledger.entries;
    cap = st.verdict;
    residual = sub inp.cr_delta st.ledger.running;
    unrecoverable = st.unrecoverable;
  }

  unfoldable pub explain : ExplainInput fl → Result Error (PdlExplanation fl)
  unfolding chain_ledger cap_stage closed_stage
  explain inp =
      if not inp.eligible
      then ok record {
        fidelity = exato;
        cr_before = inp.cr_before;
        cr_after = inp.cr_after;
        cr_delta = inp.cr_delta;
        placement = inp.placement;
        team_count = inp.team_count;
        entries = [];
        cap = bare_verdict fl false;
        residual = inp.cr_delta;
        unrecoverable = [];
      }
      else cap_stage fl inp (chain_ledger fl inp) >>= λ st.
          ok (explanation_of inp (closed_stage inp st))

  -- The input that `explain_result` builds from a result of the engine.
  abbrev pub result_input : RatingParams fl → ℕ → ℕ → PlayerRatingResult fl → ExplainInput fl
  result_input params placement team_count pr =
      let m = pr.modifiers in
      record {
        params = params;
        placement = placement;
        team_count = team_count;
        eligible = pr.eligible;
        cr_before = pr.cr_before;
        cr_after = pr.cr_after;
        cr_delta = pr.cr_delta;
        pl_base_delta_mu = m.pl_base_delta_mu;
        final_delta_mu = m.final_delta_mu;
        placement_weight = m.placement_weight;
        placement_amp = m.placement_amp;
        streak_mult = m.streak_mult;
        boosting_factor = m.boosting_factor;
        party_factor = m.party_factor;
        explain_version = 1;
        confidence_cr = some pr.confidence_cr;
        pre_cap_cr_delta = some pr.pre_cap_cr_delta;
        cap_facts = pr.cap;
        state = none;
        lobby_mean_mu = none;
        gain_floor_mult = one_f fl;
      }

  unfoldable pub explain_result :
      RatingParams fl → ℕ → ℕ → PlayerRatingResult fl → Result Error (PdlExplanation fl)
  unfolding explain
  explain_result params placement team_count pr =
      explain (result_input params placement team_count pr)
