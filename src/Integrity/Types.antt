-- ===== src/Integrity/Types.antt =====
-- backend/arena/integrity/types.py: the snapshot of a match, and what the evaluation returns. A metadata
-- dict is a constructor with the dict's values.
use arena_rank_project.Prelude.{ℕ, Bool, Option, List, Text}
use arena_rank_project.Prelude.Int.{ℤ}
use arena_rank_project.Prelude.Table.{Table}
use arena_rank_project.Floats.{Floats}

pub data FlagSeverity : Type 0 where
  info warn critical : FlagSeverity

pub data FlagType : Type 0 where
  boosting_rds afk_ineligible repeated_lobby unusual_duration rating_dispersion : FlagType

module _ (fl : Floats) where
  open fl use {Float}

  -- The calls of the standard library: `hashlib.sha256(text).hexdigest()`, `round(x, digits)`, and `str` of
  -- an int.
  pub record Builtins : Type 0 where
    pub sha256_hex : Text → Text
    pub round_to : Float → ℕ → Float
    pub str_int : ℤ → Text

  pub data Metadata : Type 0 where
    -- `afk`, `participation`, `rounds_played`, `rounds_total`, `damage_dealt`
    afk_metadata : Bool → Float → ℤ → ℤ → ℤ → Metadata
    -- `party_id`, `rds_cr_gap`, `tier`, `penalty_factor`, `booster_id`, `carried_id`, `party_size`
    rds_metadata : Text → Float → Text → Float → Text → Text → ℕ → Metadata
    -- `duration_seconds`, `z_score`, `mean_seconds`, `std_seconds`, `too_short`
    duration_metadata : ℤ → Float → Float → Float → Bool → Metadata
    -- `cr_spread`, `cr_max`, `cr_min`, `warn_threshold`, `critical_threshold`
    dispersion_metadata : Float → Float → Float → Float → Float → Metadata
    -- `fingerprint`, `occurrences_24h`, `threshold`, `window_seconds`, `player_count`
    lobby_metadata : Text → ℕ → ℤ → ℕ → ℕ → Metadata

  pub record IntegrityFlag : Type 0 where
    pub flag_type : FlagType
    pub severity : FlagSeverity
    pub player_id : Option Text
    pub metadata : Metadata

  -- `champion_id`, `mu`, `sigma` and `matches_played` are carried along and never read.
  pub record ParticipantSnapshot : Type 0 where
    pub player_id : Text
    pub team_id : ℤ
    pub party_id : Option Text
    pub afk : Bool
    pub rounds_played : ℤ
    pub rounds_total : ℤ
    pub damage_dealt : ℤ
    pub cr : Float

  pub record MatchSnapshot : Type 0 where
    pub match_id : Text
    pub mode : Text
    pub team_size : ℤ
    pub duration_seconds : ℤ
    pub participants : List ParticipantSnapshot

  pub record ParticipantVerdict : Type 0 where
    pub player_id : Text
    pub boosting_penalty_factor : Float
    pub eligible_for_progression : Bool
    pub party_penalty_factor : Float

  pub record EvaluationResult : Type 0 where
    pub match_id : Text
    pub flags : List IntegrityFlag
    pub verdicts : Table Text ParticipantVerdict
