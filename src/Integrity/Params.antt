-- ===== src/Integrity/Params.antt =====
-- backend/arena/integrity/params.py: the thresholds, and the check of a season's configuration.
use arena_rank_project.Prelude.{
  ℕ, Bool, true, false, not, List, [], ◌∷◌, ◌||◌, ◌&&◌, all, Text, text_eq, if◌then◌else◌,
}
use arena_rank_project.Prelude.Int.{ℤ, pos, ltb_ℤ, leb_ℤ}
use arena_rank_project.Prelude.Result.{Result, ok, err, ◌>>◌, raise_if}
use arena_rank_project.Floats.{Floats}
use arena_rank_project.Rating.Params.{Error, value_error}
use arena_rank_project.Integrity.Types.{FlagSeverity, info, warn, critical}

abbrev pub info_text : Text
info_text = b'I' ∷ b'N' ∷ b'F' ∷ b'O' ∷ []

abbrev pub warn_text : Text
warn_text = b'W' ∷ b'A' ∷ b'R' ∷ b'N' ∷ []

abbrev pub critical_text : Text
critical_text = b'C' ∷ b'R' ∷ b'I' ∷ b'T' ∷ b'I' ∷ b'C' ∷ b'A' ∷ b'L' ∷ []

-- `FlagSeverity(value)`
unfoldable pub severity_of : Text → Result Error FlagSeverity
severity_of value =
    if text_eq value info_text
    then ok info
    else if text_eq value warn_text
    then ok warn
    else if text_eq value critical_text
    then ok critical
    else err value_error

-- `severity in ("INFO", "WARN", "CRITICAL")`
unfoldable pub is_severity : Text → Bool
is_severity value =
    text_eq value info_text || text_eq value warn_text || text_eq value critical_text

module _ (fl : Floats) where
  open fl use {Float, of_int, lt, is_finite}

  pub record RdsTier : Type 0 where
    pub min_cr_gap : Float
    pub penalty_factor : Float
    pub severity : Text
    pub label : Text

  pub record IntegrityParams : Type 0 where
    pub rds_tiers : List RdsTier
    pub rds_min_gap : Float
    pub premade_strength : Float
    pub premade_repeat_threshold : ℤ
    pub premade_window_seconds : ℕ
    pub premade_homogeneity_gap : Float
    pub afk_min_participation : Float
    pub afk_min_damage : ℤ
    pub duration_mean_seconds : Float
    pub duration_std_seconds : Float
    pub duration_z_warn : Float
    pub duration_z_critical : Float
    pub duration_min_seconds : ℤ
    pub repeated_lobby_window_seconds : ℕ
    pub repeated_lobby_threshold : ℤ
    pub repeated_lobby_critical : ℤ
    pub dispersion_cr_warn : Float
    pub dispersion_cr_critical : Float

  abbrev pub le : Float → Float → Bool
  le x y = not (lt y x)

  -- `0.0 <= x <= 1.0`
  abbrev pub in_unit : Float → Bool
  in_unit x = le (of_int (pos 0)) x && le x (of_int (pos 1))

  abbrev scalars : IntegrityParams → List Float
  scalars p =
      p.rds_min_gap ∷ p.afk_min_participation ∷ p.duration_mean_seconds ∷ p.duration_std_seconds
      ∷ p.duration_z_warn ∷ p.duration_z_critical ∷ p.dispersion_cr_warn ∷ p.dispersion_cr_critical
      ∷ []

  abbrev no_tiers : List RdsTier → Bool
  no_tiers [] = true
  no_tiers (t ∷ ts) = false

  -- One round of the loop over the tiers.
  unfoldable pub validate_tier : RdsTier → Result Error (Unit {0})
  unfolding is_severity
  validate_tier t = do
    raise_if (not (is_finite t.min_cr_gap) || not (is_finite t.penalty_factor)) value_error
    raise_if (not (in_unit t.penalty_factor)) value_error
    raise_if (not (is_severity t.severity)) value_error

  unfoldable pub validate_tiers : List RdsTier → Result Error (Unit {0})
  validate_tiers [] = ok tt
  validate_tiers (t ∷ ts) = do validate_tier t; validate_tiers ts

  -- The checks before the loop over the tiers. A window in seconds is a natural number here, and `<= 0` is `== 0`.
  unfoldable pub validate_scalars : IntegrityParams → Result Error (Unit {0})
  validate_scalars p = do
    raise_if (not (all is_finite (scalars p))) value_error
    raise_if (not (in_unit p.afk_min_participation)) value_error
    raise_if (ltb_ℤ p.afk_min_damage (pos 0)) value_error
    raise_if (le p.duration_std_seconds (of_int (pos 0))) value_error
    raise_if (le p.duration_z_warn (of_int (pos 0)) || le p.duration_z_critical p.duration_z_warn)
        value_error
    raise_if (ltb_ℤ p.repeated_lobby_threshold (pos 1)) value_error
    raise_if (ltb_ℤ p.repeated_lobby_critical p.repeated_lobby_threshold) value_error
    raise_if (lt p.dispersion_cr_critical p.dispersion_cr_warn) value_error
    raise_if (not (in_unit p.premade_strength)) value_error
    raise_if (ltb_ℤ p.premade_repeat_threshold (pos 2)) value_error
    raise_if (leb_ℤ (pos p.premade_window_seconds) (pos 0)) value_error
    raise_if (le p.premade_homogeneity_gap (of_int (pos 0))) value_error
    raise_if (no_tiers p.rds_tiers) value_error

  unfoldable pub validate_integrity_params : IntegrityParams → Result Error (Unit {0})
  unfolding validate_scalars validate_tiers
  validate_integrity_params p = do validate_scalars p; validate_tiers p.rds_tiers
