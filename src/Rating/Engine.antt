-- ===== src/Rating/Engine.antt =====
-- The steps of `rate` of backend/arena/rating/engine.py, with the inputs and results of backend/arena/rating/types.py.
use arena_rank_project.Prelude.{ℕ, ◌-◌, Bool, false, Option, none, some, List, if◌then◌else◌, ltb}
use arena_rank_project.Prelude.Int.{ℤ, pos, negsuc}
use arena_rank_project.Prelude.Result.{Result, ok, ◌>>=◌}
use arena_rank_project.Floats.{Floats, fmax, fmin}
use arena_rank_project.Rating.Params.{Error, RatingParams}
use arena_rank_project.Rating.Caps.{
  zero_f, one_f, CapDecision, mismatch_override, high_cr_scale, composite_win_mult, decide_pdl_cap,
}
use arena_rank_project.Rating.Modifiers.{
  PlayerState, three, placement_weight, placement_amp, streak_multiplier, soft_cap_factor,
  boosting_penalty, party_dampener, dispersion_cap,
}

module _ (fl : Floats) where
  open fl use {Float, of_int, add, sub, mul, div, lt}

  pub record ParticipantInput : Type 0 where
    pub player_id : ℕ
    pub state : PlayerState fl
    pub eligible_for_progression : Bool
    pub boosting_penalty_factor : Float
    pub party_penalty_factor : Float

  pub record TeamInput : Type 0 where
    pub team_id : ℕ
    pub placement : ℕ
    pub participants : List ParticipantInput

  pub record MatchInput : Type 0 where
    pub match_id : ℕ
    pub teams : List TeamInput
    pub params : RatingParams fl

  pub record AppliedModifiers : Type 0 where
    pub pl_base_delta_mu : Float
    pub placement_weight : Float
    pub placement_amp : Float
    pub streak_mult : Float
    pub soft_cap_factor : Float
    pub boosting_factor : Float
    pub party_factor : Float
    pub dispersion_clamped : Bool
    pub final_delta_mu : Float

  -- The facts of the cap layer: its decision, and what went into it.
  pub record CapExplanation : Type 0 where
    pub decision : CapDecision fl
    pub raw_cr_delta : Float
    pub mismatch_override : Float
    pub high_cr_scale : Float
    pub composite_win : Float
    pub composite_loss : Float
    pub gain_floor_mult : Float
    pub lobby_mean_mu : Float

  pub record PlayerRatingResult : Type 0 where
    pub player_id : ℕ
    pub mu_before : Float
    pub mu_after : Float
    pub sigma_before : Float
    pub sigma_after : Float
    pub cr_before : Float
    pub cr_after : Float
    pub cr_delta : Float
    pub eligible : Bool
    pub is_win : Bool
    pub new_streak : ℤ
    pub modifiers : AppliedModifiers
    pub cap : Option CapExplanation
    pub confidence_cr : Float
    pub pre_cap_cr_delta : Float
    pub team_count : ℕ

  pub record RatingResult : Type 0 where
    pub match_id : ℕ
    pub voided : Bool
    pub players : List PlayerRatingResult

  unfoldable pub frozen : ParticipantInput → Bool → ℕ → PlayerRatingResult
  frozen part is_win team_count = record {
    player_id = part.player_id;
    mu_before = part.state.mu;
    mu_after = part.state.mu;
    sigma_before = part.state.sigma;
    sigma_after = part.state.sigma;
    cr_before = part.state.cr;
    cr_after = part.state.cr;
    cr_delta = zero_f fl;
    eligible = false;
    is_win = is_win;
    new_streak = part.state.current_streak;
    modifiers = record {
      pl_base_delta_mu = zero_f fl;
      placement_weight = one_f fl;
      placement_amp = one_f fl;
      streak_mult = one_f fl;
      soft_cap_factor = one_f fl;
      boosting_factor = one_f fl;
      party_factor = one_f fl;
      dispersion_clamped = false;
      final_delta_mu = zero_f fl;
    };
    cap = none;
    confidence_cr = zero_f fl;
    pre_cap_cr_delta = zero_f fl;
    team_count = team_count;
  }

  -- `max(0.0, min(1.0, x))`
  abbrev pub unit : Float → Float
  unit x = fmax fl (zero_f fl) (fmin fl (one_f fl) x)

  -- `1.0`, `-1.0` or `0.0`
  abbrev pub sign_of : Float → Float
  sign_of x =
      if lt (zero_f fl) x
      then one_f fl
      else if lt x (zero_f fl)
      then of_int (negsuc 0)
      else zero_f fl

  -- The step of mu after all the modifiers, and the record of them.
  unfoldable pub modified_step :
      ℕ → ℕ → ParticipantInput → Float → RatingParams fl → Float × AppliedModifiers
  modified_step placement team_count pt delta_mu_base p =
      let s = pt.state in
      let pw = placement_weight fl placement team_count p in
      let pa = placement_amp fl s p in
      let sm = streak_multiplier fl s.current_streak (sign_of delta_mu_base) p in
      let scf = soft_cap_factor fl s.cr delta_mu_base p in
      let bf = boosting_penalty fl delta_mu_base pt.boosting_penalty_factor in
      let df = party_dampener fl delta_mu_base pt.party_penalty_factor in
      let delta = mul (mul (mul (mul (mul (mul delta_mu_base pw) pa) sm) scf) bf) df in
      let (delta_final, clamped) = dispersion_cap fl delta s.sigma p in
      (
        delta_final,
        record {
          pl_base_delta_mu = delta_mu_base;
          placement_weight = pw;
          placement_amp = pa;
          streak_mult = sm;
          soft_cap_factor = scf;
          boosting_factor = bf;
          party_factor = df;
          dispersion_clamped = clamped;
          final_delta_mu = delta_final;
        },
      )

  -- Sigma after the match: shrunk less for a flagged account.
  unfoldable pub damped_sigma : ParticipantInput → Float → Float
  unfolding fmax fmin
  damped_sigma pt sigma_after_pl =
      let s = pt.state in
      let f = unit pt.boosting_penalty_factor in
      if lt (zero_f fl) f
      then sub s.sigma (mul (sub (one_f fl) f) (sub s.sigma sigma_after_pl))
      else sigma_after_pl

  -- `(cr_after - base_offset) / scale_factor + 3.0 * sigma_after`
  abbrev pub mu_for : Float → Float → RatingParams fl → Float
  mu_for cr_after sigma_after p =
      add (div (sub cr_after p.base_offset) p.scale_factor) (mul (three fl) sigma_after)

  -- What the cap layer leaves of (cr_after, mu_after), with its explanation.
  unfoldable pub capped :
      ℕ
      → ℕ
      → ParticipantInput
      → Float
      → ℕ
      → Float
      → Float
      → Float
      → RatingParams fl
      → Result Error (Float × Float × Option CapExplanation)
  unfolding fmax fmin
  capped placement team_count pt sum_mu_all n_all cr_after mu_after sigma_after p = elim (p.caps) [
    | none ↦ ok (cr_after, mu_after, none)
    | some cp ↦ do
      let s = pt.state
      let pre_cap = sub cr_after s.cr
      let lobby_mean =
          if ltb 1 n_all then div (sub sum_mu_all s.mu) (of_int (pos (n_all - 1))) else s.mu
      let ovr = mismatch_override fl s.mu lobby_mean s.sigma s.matches_played cp
      let hcs = high_cr_scale fl s.cr cp
      let comp_win = composite_win_mult fl ovr hcs (one_f fl) cp
      let gain_floor_mult = sub (one_f fl) (unit pt.boosting_penalty_factor)
      d ← decide_pdl_cap fl pre_cap placement team_count comp_win (one_f fl) cp gain_floor_mult
      let explanation : CapExplanation = record {
        decision = d;
        raw_cr_delta = pre_cap;
        mismatch_override = ovr;
        high_cr_scale = hcs;
        composite_win = comp_win;
        composite_loss = one_f fl;
        gain_floor_mult = gain_floor_mult;
        lobby_mean_mu = lobby_mean;
      }
      let cr_capped = add s.cr d.value
      ok (
          if d.changed
          then (cr_capped, mu_for cr_capped sigma_after p, some explanation)
          else (cr_after, mu_after, some explanation))
  ]
