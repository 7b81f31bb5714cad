-- ===== src/Rating/Params.antt =====
-- The parameters of the rating engine: `CapParams` of backend/arena/rating/caps.py and `RatingParams` of
-- backend/arena/rating/params.py with its validation. Curves are keyed by the number of teams.
use arena_rank_project.Prelude.{
  ℕ, Bool, true, false, not, Option, List, [], ◌∷◌, ◌||◌, ◌&&◌, length, all, any,
}
use arena_rank_project.Prelude.{◌==◌ as nat_beq}
use arena_rank_project.Prelude.Int.{ℤ, pos}
use arena_rank_project.Prelude.Table.{Table, nat_eq}
use arena_rank_project.Prelude.Result.{Result, ◌>>◌, raise_if}
use arena_rank_project.Floats.{Floats}

-- What the engine raises.
pub data Error : Type 0 where
  value_error index_error : Error

module _ (fl : Floats) where
  open fl use {Float, of_int, lt, is_finite}

  abbrev pub Curves : Type 0
  Curves = Table ℕ (List Float)

  pub record CapParams : Type 0 where
    pub base_cap_by_placement : Curves
    pub mismatch_beta : Float
    pub mismatch_threshold : Float
    pub mismatch_slope : Float
    pub mismatch_max_mult : Float
    pub mismatch_sigma_gate : Float
    pub mismatch_games_gate : ℕ
    pub high_cr_midpoint : Float
    pub high_cr_steepness : Float
    pub high_cr_max_reduction : Float
    pub composite_floor : Float
    pub composite_ceil : Float
    pub loss_clamp : Option Float
    pub loss_cap_by_placement : Option Curves
    pub min_gain_by_placement : Option Curves

  pub record RatingParams : Type 0 where
    pub mu0 : Float
    pub sigma0 : Float
    pub beta : Float
    pub tau : Float
    pub kappa : Float
    pub scale_factor : Float
    pub base_offset : Float
    pub placement_weights : Curves
    pub placement_amp : Float
    pub placement_match_count : ℕ
    pub streak_loss_floor : Float
    pub streak_win_ceil : Float
    pub streak_threshold : ℤ
    pub soft_cap_threshold : Float
    pub soft_cap_scale : Float
    pub max_delta_mu : Float
    pub dispersion_sigma_ref : Float
    pub reset_anchor : Float
    pub reset_factor : Float
    pub sigma_reset_mult : Float
    pub sigma_reset_cap : Float
    pub caps : Option CapParams

  -- The floats among the scalars that must be finite; an int always is.
  abbrev scalars : RatingParams → List Float
  scalars p =
      p.mu0 ∷ p.sigma0 ∷ p.beta ∷ p.tau ∷ p.kappa ∷ p.scale_factor ∷ p.base_offset ∷ p.placement_amp
      ∷ p.streak_loss_floor ∷ p.streak_win_ceil ∷ p.soft_cap_threshold ∷ p.soft_cap_scale
      ∷ p.max_delta_mu ∷ p.dispersion_sigma_ref ∷ p.reset_anchor ∷ p.reset_factor
      ∷ p.sigma_reset_mult ∷ p.sigma_reset_cap ∷ []

  -- `x <= y`
  abbrev le : Float → Float → Bool
  le x y = not (lt y x)

  abbrev is_empty_table : Curves → Bool
  is_empty_table [] = true
  is_empty_table (c ∷ cs) = false

  unfoldable pub validate_params : RatingParams → Result Error (Unit {0})
  validate_params p = do
    raise_if (not (all is_finite (scalars p))) value_error
    raise_if (le p.sigma0 (of_int (pos 0)) || le p.beta (of_int (pos 0))) value_error
    raise_if (not (lt (of_int (pos 0)) p.kappa && lt p.kappa (of_int (pos 1)))) value_error
    raise_if (le p.dispersion_sigma_ref (of_int (pos 0)) || le p.soft_cap_scale (of_int (pos 0)))
        value_error
    raise_if (lt (of_int (pos 1)) p.streak_loss_floor || lt p.streak_win_ceil (of_int (pos 1)))
        value_error
    raise_if (is_empty_table p.placement_weights) value_error
    raise_if
        (any (λ c. not (nat_beq (length c.1) c.0) || not (all is_finite c.1)) p.placement_weights)
        value_error
