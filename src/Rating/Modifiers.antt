-- ===== src/Rating/Modifiers.antt =====
-- backend/arena/rating/modifiers.py: the displayed rating, the multipliers on the rating step, and the
-- reset of a season; with the player state of backend/arena/rating/types.py.
pub mod Laws
use arena_rank_project.Prelude.{
  ℕ, suc, ◌+◌, ◌-◌, Bool, true, false, not, Option, none, some, List, [], ◌∷◌, ◌||◌, ◌&&◌,
  if◌then◌else◌, ltb, leb, length, get_elem?,
}
use arena_rank_project.Prelude.Int.{ℤ, pos, negsuc, ◌+ℤ◌, ◌-ℤ◌, ltb_ℤ, leb_ℤ, min_ℤ}
use arena_rank_project.Prelude.Table.{lookup, nat_eq}
use arena_rank_project.Floats.{Floats, clamp, fmax, fmin}
use arena_rank_project.Rating.Params.{RatingParams}
use arena_rank_project.Rating.Caps.{zero_f, one_f, neg, is_placed}

module _ (fl : Floats) where
  open fl use {Float, of_int, add, sub, mul, div, lt}

  -- A player id is only compared and sorted.
  pub record PlayerState : Type 0 where
    pub player_id : ℕ
    pub mu : Float
    pub sigma : Float
    pub cr : Float
    pub current_streak : ℤ
    pub matches_played : ℕ
    pub placement_matches_remaining : ℤ
    pub peak_cr : Float

  abbrev pub three : Float
  three = of_int (pos 3)

  unfoldable pub to_cr : Float → Float → RatingParams fl → Float
  to_cr mu sigma p =
      let cr = add (mul (sub mu (mul three sigma)) p.scale_factor) p.base_offset in
      if lt (zero_f fl) cr then cr else zero_f fl

  unfoldable pub placement_weight : ℕ → ℕ → RatingParams fl → Float
  placement_weight placement team_count p = elim (lookup team_count p.placement_weights) [
    | none ↦ one_f fl
    | some curve ↦
        if not (is_placed fl placement curve)
        then one_f fl
        else elim (get_elem? curve (placement - 1)) [ none ↦ one_f fl | some w ↦ w ]
  ]

  unfoldable pub placement_amp : PlayerState → RatingParams fl → Float
  placement_amp state p =
      if ltb_ℤ (pos 0) state.placement_matches_remaining then p.placement_amp else one_f fl

  -- `-n`
  abbrev neg_int : ℤ → ℤ
  neg_int n = pos 0 -ℤ n

  unfoldable pub streak_multiplier : ℤ → Float → RatingParams fl → Float
  unfolding fmax fmin ◌-ℤ◌
  streak_multiplier current_streak delta_mu_sign p =
      let thr = p.streak_threshold in
      if lt (zero_f fl) delta_mu_sign && ltb_ℤ (pos 0) current_streak
      then fmin fl p.streak_win_ceil (
          add (one_f fl) (
            mul (div (of_int (min_ℤ current_streak thr)) (of_int thr))
              (sub p.streak_win_ceil (one_f fl))))
      else if lt delta_mu_sign (zero_f fl) && ltb_ℤ current_streak (pos 0)
      then fmax fl p.streak_loss_floor (
          sub (one_f fl) (
            mul (div (of_int (min_ℤ (neg_int current_streak) thr)) (of_int thr))
              (sub (one_f fl) p.streak_loss_floor)))
      else one_f fl

  unfoldable pub soft_cap_factor : Float → Float → RatingParams fl → Float
  soft_cap_factor cr delta_mu p =
      if lt (zero_f fl) delta_mu && lt p.soft_cap_threshold cr
      then div (one_f fl) (add (one_f fl) (div (sub cr p.soft_cap_threshold) p.soft_cap_scale))
      else one_f fl

  unfoldable pub boosting_penalty : Float → Float → Float
  unfolding clamp
  boosting_penalty delta_mu factor =
      if lt (zero_f fl) delta_mu
      then sub (one_f fl) (clamp fl factor (zero_f fl) (one_f fl))
      else one_f fl

  unfoldable pub party_dampener : Float → Float → Float
  unfolding clamp
  party_dampener delta_mu factor =
      if lt (zero_f fl) delta_mu
      then sub (one_f fl) (clamp fl factor (zero_f fl) (one_f fl))
      else one_f fl

  -- `abs(x)`
  abbrev pub fabs : Float → Float
  fabs x = if lt x (zero_f fl) then neg fl x else x

  unfoldable pub effective_cap : Float → RatingParams fl → Float
  unfolding fmax
  effective_cap sigma_before p =
      mul p.max_delta_mu (fmax fl (one_f fl) (div sigma_before p.dispersion_sigma_ref))

  unfoldable pub dispersion_cap : Float → Float → RatingParams fl → Float × Bool
  unfolding effective_cap
  dispersion_cap delta_mu sigma_before p =
      let effective = effective_cap sigma_before p in
      (clamp fl delta_mu (neg fl effective) effective, lt effective (fabs delta_mu))

  unfoldable pub soft_reset : PlayerState → RatingParams fl → PlayerState
  unfolding to_cr fmin
  soft_reset state p =
      let new_mu = add p.reset_anchor (mul (sub state.mu p.reset_anchor) p.reset_factor) in
      let new_sigma = fmin fl (mul state.sigma p.sigma_reset_mult) p.sigma_reset_cap in
      let new_cr = to_cr new_mu new_sigma p in
      record {
        player_id = state.player_id;
        mu = new_mu;
        sigma = new_sigma;
        cr = new_cr;
        current_streak = pos 0;
        matches_played = 0;
        placement_matches_remaining = pos p.placement_match_count;
        peak_cr = new_cr;
      }

unfoldable pub next_streak : ℤ → Bool → ℤ
unfolding ◌+ℤ◌ ◌-ℤ◌
next_streak current_streak is_win =
    if is_win
    then (if leb_ℤ (pos 0) current_streak then current_streak +ℤ pos 1 else pos 1)
    else if leb_ℤ current_streak (pos 0)
    then current_streak -ℤ pos 1
    else negsuc 0
