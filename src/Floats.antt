-- ===== src/Floats.antt =====
-- Python's floats, which the rating code computes with, as an interface. A value is a float other than NaN,
-- and -0.0 is 0.0. Nothing is assumed of an operation but what a theorem takes as a hypothesis, and each
-- such law holds of IEEE numbers, rounding included. Where Python raises ZeroDivisionError, `div` has some
-- value.
pub mod Decimals
use arena_rank_project.Prelude.{◌≡◌, Bool, true, false, arith, if◌then◌else◌, ◌⊎◌}
use arena_rank_project.Prelude.Int.{ℤ}

pub record Floats : Type 1 where
  pub Float : Type 0
  pub of_int : ℤ → Float
  pub neg_inf : Float
  pub pos_inf : Float
  pub add : Float → Float → Float
  pub sub : Float → Float → Float
  pub mul : Float → Float → Float
  pub div : Float → Float → Float
  pub exp : Float → Float
  pub is_finite : Float → Bool
  pub lt : Float → Float → Bool

-- The order of the floats is a total one.
pub record IsOrdered (fl : Floats) : Type 1 where
  pub lt_irrefl : (x : fl.Float) → fl.lt x x ≡ false
  pub lt_trans : (x y z : fl.Float) → fl.lt x y ≡ true → fl.lt y z ≡ true → fl.lt x z ≡ true
  pub lt_connex : (x y : fl.Float) → fl.lt x y ≡ false → fl.lt y x ≡ false → x ≡ y

module _ (fl : Floats) where
  open fl use {Float, lt}

  -- `lo if x < lo else hi if x > hi else x`
  unfoldable pub clamp : Float → Float → Float → Float
  clamp x lo hi = if lt x lo then lo else if lt hi x then hi else x

  -- Python's two-argument `max` and `min` keep the first of two equal values.
  unfoldable pub fmax : Float → Float → Float
  fmax x y = if lt x y then y else x

  unfoldable pub fmin : Float → Float → Float
  fmin x y = if lt y x then y else x

  module _ (ord : IsOrdered fl) where
    open ord use {lt_irrefl, lt_trans, lt_connex}

    pub lt_asym : (x y : Float) → lt x y ≡ true → lt y x ≡ false
    lt_asym x y h = ground (arith, lt_trans x y x h, lt_irrefl x)

    pub le_trans : (x y z : Float) → lt y x ≡ false → lt z y ≡ false → lt z x ≡ false
    le_trans x y z h k = ground (
      arith,
      lt_connex x y,
      lt_asym z x,
      lt_trans x y z,
      lt_trans z x y,
      lt_connex y z,
      lt_irrefl x,
      lt_trans y z x,
    )

    pub clamp_bounds :
        (x lo hi : Float)
        → lt hi lo ≡ false
        → (lt (clamp x lo hi) lo ≡ false) × (lt hi (clamp x lo hi) ≡ false)
    unfolding clamp
    clamp_bounds x lo hi h = ground (arith, lt_irrefl lo, lt_irrefl hi)

    -- A clamp that does not move a value leaves it inside; one that does puts it on a bound.
    pub clamp_cases :
        (x lo hi : Float)
        → lt hi lo ≡ false
        → (clamp x lo hi ≡ x) × (lt x lo ≡ false) × (lt hi x ≡ false)
          ⊎ (clamp x lo hi ≡ lo) × (lt x lo ≡ true)
          ⊎ (clamp x lo hi ≡ hi) × (lt hi x ≡ true)
    unfolding clamp
    clamp_cases x lo hi h = ground arith

    pub fmax_ge : (x y : Float) → (lt (fmax x y) x ≡ false) × (lt (fmax x y) y ≡ false)
    unfolding fmax
    fmax_ge x y = ground (arith, lt_irrefl x, lt_irrefl y, lt_asym x y)

    pub fmin_le : (x y : Float) → (lt x (fmin x y) ≡ false) × (lt y (fmin x y) ≡ false)
    unfolding fmin
    fmin_le x y = ground (arith, lt_irrefl x, lt_irrefl y, lt_asym y x)
