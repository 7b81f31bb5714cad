-- ===== src/Rating/Caps.antt =====
-- backend/arena/rating/caps.py: the bounds on the displayed change of a match. A placement counts from 1.
pub mod Laws
use arena_rank_project.Prelude.{
  ℕ, suc, ◌+◌, ◌-◌, Bool, true, false, not, Option, none, some, List, [], ◌∷◌, ◌||◌, ◌&&◌,
  if◌then◌else◌, ltb, leb, length, get_elem?,
}
use arena_rank_project.Prelude.{◌==◌ as nat_beq}
use arena_rank_project.Prelude.Int.{ℤ, pos}
use arena_rank_project.Prelude.Table.{Table, lookup, nat_eq}
use arena_rank_project.Prelude.Result.{Result, ok, err, ◌>>=◌}
use arena_rank_project.Floats.{Floats, clamp, fmax, fmin}
use arena_rank_project.Rating.Params.{Error, index_error, Curves, CapParams}

-- `CapBound`
pub data CapBound : Type 0 where
  unbound gain_cap loss_cap min_gained : CapBound

-- `xs[i]`, for an index that the code has as a difference `a - b`: a negative one counts from the end.
unfoldable pub index_diff {ℓ} : {A : Type ℓ} → List A → ℕ → ℕ → Result Error A
index_diff xs a b =
    elim (if leb b a
      then get_elem? xs (a - b)
      else if leb (b - a) (length xs)
      then get_elem? xs (length xs + a - b)
      else none) [ none ↦ err index_error | some x ↦ ok x ]

module _ (fl : Floats) where
  open fl use {Float, of_int, neg_inf, pos_inf, add, sub, mul, div, exp, lt}

  abbrev pub zero_f : Float
  zero_f = of_int (pos 0)

  abbrev pub one_f : Float
  one_f = of_int (pos 1)

  -- `-x`
  abbrev pub neg : Float → Float
  neg x = sub zero_f x

  unfoldable pub sigmoid : Float → Float
  sigmoid x =
      if not (lt x zero_f)
      then div one_f (add one_f (exp (neg x)))
      else let z = exp x in div z (add one_f z)

  unfoldable pub mismatch_override : Float → Float → Float → ℕ → CapParams fl → Float
  unfolding clamp fmax
  mismatch_override mu lobby_mean_excl_self sigma games cp =
      if not (lt sigma cp.mismatch_sigma_gate || leb cp.mismatch_games_gate games)
      then one_f
      else let z = div (sub mu lobby_mean_excl_self) cp.mismatch_beta in
        let ovr =
          add one_f (mul cp.mismatch_slope (fmax fl zero_f (sub z cp.mismatch_threshold))) in
        clamp fl ovr one_f cp.mismatch_max_mult

  unfoldable pub high_cr_scale : Float → CapParams fl → Float
  unfolding sigmoid
  high_cr_scale cr_before cp = sub one_f (
      mul cp.high_cr_max_reduction
        (sigmoid (div (sub cr_before cp.high_cr_midpoint) cp.high_cr_steepness)))

  unfoldable pub composite_win_mult : Float → Float → Float → CapParams fl → Float
  unfolding clamp
  composite_win_mult ovr scf party_mult cp =
      clamp fl (mul (mul ovr scf) party_mult) cp.composite_floor cp.composite_ceil

  -- `(table or {}).get(team_count)`
  abbrev pub curve_of : Option (Curves fl) → ℕ → Option (List Float)
  curve_of none team_count = none
  curve_of (some table) team_count = lookup team_count table

  -- `1 <= placement <= len(curve)`
  abbrev pub is_placed : ℕ → List Float → Bool
  is_placed placement curve = leb 1 placement && leb placement (length curve)

  -- The magnitude of the loss bound when there is no curve of its own for it.
  fallback_loss : ℕ → ℕ → List Float → CapParams fl → Result Error Float
  unfolding index_diff
  fallback_loss placement team_count base cp = elim (cp.loss_clamp) [
    | some flat ↦ ok flat
    | none ↦ index_diff base team_count placement
  ]

  unfoldable pub loss_magnitude : ℕ → ℕ → List Float → CapParams fl → Result Error Float
  unfolding fallback_loss index_diff
  loss_magnitude placement team_count base cp =
      elim (curve_of cp.loss_cap_by_placement team_count) [
        | none ↦ fallback_loss placement team_count base cp
        | some curve ↦
            if nat_beq (length curve) (length base)
            then index_diff curve placement 1
            else fallback_loss placement team_count base cp
      ]

  unfoldable pub cap_bounds : ℕ → ℕ → Float → Float → CapParams fl → Result Error (Float × Float)
  unfolding loss_magnitude index_diff
  cap_bounds placement team_count composite_win composite_loss cp =
      elim (lookup team_count cp.base_cap_by_placement) [
        | none ↦ ok (neg_inf, pos_inf)
        | some base ↦ if not (is_placed placement base) then ok (neg_inf, pos_inf) else do
          b ← index_diff base placement 1
          loss_mag ← loss_magnitude placement team_count base cp
          ok (mul (neg loss_mag) composite_loss, mul b composite_win)
      ]

  unfoldable pub min_gain : ℕ → ℕ → CapParams fl → Result Error Float
  unfolding index_diff
  min_gain placement team_count cp = elim (curve_of cp.min_gain_by_placement team_count) [
    | none ↦ ok zero_f
    | some curve ↦
        if not (is_placed placement curve) then ok zero_f else index_diff curve placement 1
  ]

  pub record CapDecision : Type 0 where
    pub value : Float
    pub changed : Bool
    pub lo : Float
    pub hi : Float
    pub floor : Float
    pub bound : CapBound

  -- `x == y` on floats.
  abbrev pub feq : Float → Float → Bool
  feq x y = not (lt x y) && not (lt y x)

  -- The decision once the bounds and the minimum gain are known.
  unfoldable pub decide_within : Float → Float → Float → Float → CapDecision
  decide_within cr_delta_raw lo hi floor =
      let clamped = clamp fl cr_delta_raw lo hi in
      let clamp_bound =
        if lt cr_delta_raw clamped
        then loss_cap
        else if lt clamped cr_delta_raw
        then gain_cap
        else unbound in
      let floored = fmax fl clamped (fmin fl floor hi) in
      let value = if lt zero_f floor then floored else clamped in
      let bound =
        if lt zero_f floor && not (feq floored clamped) then min_gained else clamp_bound in
      record {
        value = value;
        changed = not (feq value cr_delta_raw);
        lo = lo;
        hi = hi;
        floor = floor;
        bound = bound;
      }

  unfoldable pub decide_pdl_cap :
      Float → ℕ → ℕ → Float → Float → CapParams fl → Float → Result Error CapDecision
  unfolding cap_bounds min_gain decide_within clamp
  decide_pdl_cap cr_delta_raw placement team_count composite_win composite_loss cp gain_floor_mult =
      do
        (lo, hi) ← cap_bounds placement team_count composite_win composite_loss cp
        least ← min_gain placement team_count cp
        let floor = mul least (clamp fl gain_floor_mult zero_f one_f)
        ok (decide_within cr_delta_raw lo hi floor)

  unfoldable pub apply_pdl_cap :
      Float → ℕ → ℕ → Float → Float → CapParams fl → Float → Result Error (Float × Bool)
  unfolding decide_pdl_cap
  apply_pdl_cap cr_delta_raw placement team_count composite_win composite_loss cp gain_floor_mult =
      do
        d ←
            decide_pdl_cap cr_delta_raw placement team_count composite_win composite_loss cp
              gain_floor_mult
        ok (d.value, d.changed)
