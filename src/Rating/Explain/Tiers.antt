-- ===== src/Rating/Explain/Tiers.antt =====
-- The part of the cap layer in a ledger of backend/arena/rating/explain.py, by what is known of it.
use arena_rank_project.Prelude.{
  Bool, true, false, not, Option, none, some, List, [], ◌∷◌, ◌++◌, ◌||◌, if◌then◌else◌, leb,
}
use arena_rank_project.Prelude.Result.{Result, ok, ◌>>=◌}
use arena_rank_project.Floats.{Floats, fmin, fmax}
use arena_rank_project.Rating.Params.{Error, CapParams}
use arena_rank_project.Rating.Caps.{
  CapBound, unbound, gain_cap, loss_cap, min_gained, zero_f, one_f, mismatch_override,
  high_cr_scale, composite_win_mult, cap_bounds, min_gain, decide_pdl_cap,
}
use arena_rank_project.Rating.Modifiers.{fabs}
use arena_rank_project.Rating.Engine.{CapExplanation, unit}
use arena_rank_project.Rating.Explain.Entries.{
  Fidelity, Lost, reconcile_eps, ExplainState, ExplainInput, CapVerdict, Ledger, enter,
  confidence_entry, cap_entry, exato, derivado, parcial, lost_cap_bounds, lost_zero_floor,
}

module _ (fl : Floats) where
  open fl use {Float, of_int, add, sub, mul, div, lt}

  -- What is known after the cap layer: `lump` says that the rest collapses into one entry.
  pub record Stage : Type 0 where
    pub ledger : Ledger fl
    pub verdict : CapVerdict fl
    pub fidelity : Fidelity
    pub unrecoverable : List Lost
    pub lump : Bool

  abbrev pub bare_verdict : Bool → CapVerdict fl
  bare_verdict active = record {
    active = active;
    bound = unbound;
    gain_cap = none;
    loss_cap = none;
    min_gain = none;
    raw_pdl = none;
    adjustment_pdl = none;
    mismatch_override = none;
    high_cr_scale = none;
    composite_win = none;
  }

  -- `x if x is not None else y`
  abbrev pub or_else : Option Float → Float → Float
  or_else none y = y
  or_else (some x) y = x

  abbrev pub starting_fidelity : ExplainInput fl → Fidelity
  starting_fidelity inp = if leb 1 inp.explain_version then exato else derivado

  -- No cap layer.
  unfoldable pub uncapped_stage : ExplainInput fl → Ledger fl → Stage
  uncapped_stage inp l = record {
    ledger =
        enter fl confidence_entry (or_else inp.confidence_cr (sub inp.cr_delta l.running)) none true
          l;
    verdict = bare_verdict false;
    fidelity = starting_fidelity inp;
    unrecoverable = [];
    lump = false;
  }

  -- Tier A: the cap decision is replayed on the raw change that was kept.
  unfoldable pub replayed_stage :
      ExplainInput fl → CapParams fl → CapExplanation fl → Ledger fl → Result Error Stage
  unfolding decide_pdl_cap
  replayed_stage inp cp cf l = do
    let raw = or_else inp.pre_cap_cr_delta (add l.running (or_else inp.confidence_cr (zero_f fl)))
    dec ←
        decide_pdl_cap fl raw inp.placement inp.team_count cf.composite_win cf.composite_loss cp
          cf.gain_floor_mult
    let l' = enter fl confidence_entry (or_else inp.confidence_cr (sub raw l.running)) none true l
    let cap_term = sub dec.value raw
    ok record {
      ledger = enter fl cap_entry cap_term none true l';
      verdict = record {
        active = true;
        bound = dec.bound;
        gain_cap = some dec.hi;
        loss_cap = some dec.lo;
        min_gain = some dec.floor;
        raw_pdl = some raw;
        adjustment_pdl = some cap_term;
        mismatch_override = some cf.mismatch_override;
        high_cr_scale = some cf.high_cr_scale;
        composite_win = some cf.composite_win;
      };
      fidelity = starting_fidelity inp;
      unrecoverable = [];
      lump = false;
    }

  -- `inp.cr_after <= _RECONCILE_EPS`
  abbrev pub near_zero_floor : ExplainInput fl → Bool
  near_zero_floor inp = not (lt (reconcile_eps fl) inp.cr_after)

  -- `next((bound for c, bound in candidates if abs(cr_delta - c) < eps), None)`
  unfoldable pub first_hit : Float → List (Float × CapBound) → Option CapBound
  first_hit cr_delta [] = none
  first_hit cr_delta ((c, bound) ∷ candidates) =
      if lt (fabs fl (sub cr_delta c)) (reconcile_eps fl)
      then some bound
      else first_hit cr_delta candidates

  -- The bounds that can be recomputed, with the verdict on a hit.
  abbrev bound_verdict :
      CapBound
      → Float
      → Float
      → Float
      → Option Float
      → Float
      → Float
      → Float
      → Option Float
      → CapVerdict fl
  bound_verdict bound lo hi floor raw ovr hcs comp_win adjustment = record {
    active = true;
    bound = bound;
    gain_cap = some hi;
    loss_cap = some lo;
    min_gain = some floor;
    raw_pdl = raw;
    adjustment_pdl = adjustment;
    mismatch_override = some ovr;
    high_cr_scale = some hcs;
    composite_win = some comp_win;
  }

  -- After the probe: a bound that was hit, or the proof that none was.
  unfoldable pub probed_outcome :
      ExplainInput fl
      → Ledger fl
      → Float
      → Float
      → Float
      → Float
      → Float
      → Float
      → Option CapBound
      → Stage
  probed_outcome inp l lo hi floor ovr hcs comp_win none = record {
    ledger =
        enter fl cap_entry (zero_f fl) none true
          (enter fl confidence_entry (sub inp.cr_delta l.running) none true l);
    verdict =
        bound_verdict unbound lo hi floor (some inp.cr_delta) ovr hcs comp_win (some (zero_f fl));
    fidelity = derivado;
    unrecoverable = [];
    lump = false;
  }
  probed_outcome inp l lo hi floor ovr hcs comp_win (some hit) = record {
    ledger = l;
    verdict = bound_verdict hit lo hi floor none ovr hcs comp_win none;
    fidelity = parcial;
    unrecoverable = [];
    lump = true;
  }

  -- Tier B with the state and the mean of the lobby: the probe whether the cap did not bind.
  unfoldable pub probed_stage :
      ExplainInput fl → CapParams fl → ExplainState fl → Float → Ledger fl → Result Error Stage
  unfolding mismatch_override high_cr_scale composite_win_mult cap_bounds min_gain first_hit fmin
      fmax probed_outcome
  probed_stage inp cp state lobby_mean l = do
    let ovr = mismatch_override fl state.mu lobby_mean state.sigma state.matches_played cp
    let hcs = high_cr_scale fl inp.cr_before cp
    let comp_win = composite_win_mult fl ovr hcs (one_f fl) cp
    (lo, hi) ← cap_bounds fl inp.placement inp.team_count comp_win (one_f fl) cp
    least ← min_gain fl inp.placement inp.team_count cp
    let floor = mul least (unit fl inp.gain_floor_mult)
    let low_enough = if lt (zero_f fl) floor then (fmin fl floor hi, min_gained) ∷ [] else []
    ok (
        probed_outcome inp l lo hi floor ovr hcs comp_win
          (first_hit inp.cr_delta ((lo, loss_cap) ∷ (hi, gain_cap) ∷ low_enough)))

  abbrev pub is_none {ℓ} : {A : Type ℓ} → Option A → Bool
  is_none none = true
  is_none (some x) = false

  -- Tier B without them.
  unfoldable pub lost_stage : ExplainInput fl → Ledger fl → Stage
  lost_stage inp l = record {
    ledger = l;
    verdict = bare_verdict true;
    fidelity = parcial;
    unrecoverable =
        (if is_none inp.state || is_none inp.lobby_mean_mu then lost_cap_bounds ∷ [] else [])
        ++ (if near_zero_floor inp then lost_zero_floor ∷ [] else []);
    lump = true;
  }

  -- Tier B, by what there is of the state and of the mean of the lobby.
  unfoldable pub legacy_from :
      ExplainInput fl
      → CapParams fl
      → Ledger fl
      → Option (ExplainState fl)
      → Option Float
      → Result Error Stage
  unfolding probed_stage lost_stage
  legacy_from inp cp l none lobby = ok (lost_stage inp l)
  legacy_from inp cp l (some state) none = ok (lost_stage inp l)
  legacy_from inp cp l (some state) (some lobby_mean) =
      if near_zero_floor inp then ok (lost_stage inp l) else probed_stage inp cp state lobby_mean l

  unfoldable pub cap_from :
      ExplainInput fl
      → Ledger fl
      → Option (CapParams fl)
      → Option (CapExplanation fl)
      → Result Error Stage
  unfolding replayed_stage legacy_from uncapped_stage
  cap_from inp l none facts = ok (uncapped_stage inp l)
  cap_from inp l (some cp) (some cf) = replayed_stage inp cp cf l
  cap_from inp l (some cp) none = legacy_from inp cp l inp.state inp.lobby_mean_mu

  unfoldable pub cap_stage : ExplainInput fl → Ledger fl → Result Error Stage
  unfolding cap_from
  cap_stage inp l = cap_from inp l inp.params.caps inp.cap_facts
