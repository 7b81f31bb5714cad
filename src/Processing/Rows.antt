-- ===== src/Processing/Rows.antt =====
-- What a match is handed over as, of backend/arena/services/protocols.py, and the rows that processing it
-- writes, of backend/arena/db/models.py. Ids are numbers, and a time is one too.
use arena_rank_project.Prelude.{ℕ, Bool, Option, List, Text, not, any}
use arena_rank_project.Prelude.{◌==◌ as nat_beq}
use arena_rank_project.Prelude.Int.{ℤ}
use arena_rank_project.Prelude.Table.{Table, nat_eq, lookup_or}
use arena_rank_project.Floats.{Floats}
use arena_rank_project.Rating.Caps.{CapBound, zero_f}
use arena_rank_project.Season.Rows.{PlayerSeason}

-- The picks and the combat figures of a participant, which are only stored.
pub record Telemetry : Type 0 where
  pub augments : List ℕ
  pub items : List ℕ
  pub kills : ℕ
  pub deaths : ℕ
  pub assists : ℕ
  pub damage_to_champions : ℕ
  pub gold_earned : ℕ
  pub champion_level : ℕ
  pub damage_taken : ℕ
  pub total_heal : ℕ
  pub damage_self_mitigated : ℕ
  pub largest_multi_kill : ℕ
  pub killing_sprees : ℕ
  pub time_spent_dead : ℕ

pub record RawParticipant : Type 0 where
  pub player_id : ℕ
  pub champion_id : ℕ
  pub team_id : ℕ
  pub placement : ℕ
  pub is_premade : Bool
  pub party_id : Option Text
  pub telemetry : Telemetry

pub record RawMatch : Type 0 where
  pub match_id : ℕ
  pub riot_match_id : Text
  pub season_id : ℕ
  pub mode : Text
  pub queue_id : ℕ
  pub played_at : Text
  pub participants : List RawParticipant
  pub duration_seconds : Option ℕ

pub data Severity : Type 0 where
  info warn critical : Severity

pub record FlagSummary : Type 0 where
  pub flag_type : Text
  pub severity : Severity

-- The row of a match, without the columns that only this service's caller reads.
pub record MatchRow : Type 0 where
  pub id : ℕ
  pub riot_match_id : Text
  pub queue_id : ℕ
  pub mode : Text
  pub season_id : ℕ
  pub played_at : ℕ
  pub processed_at : ℕ
  pub processed : Bool
  pub integrity_flags : List FlagSummary
  pub duration_seconds : Option ℕ

module _ (fl : Floats) where
  open fl use {Float}

  -- `metadata` is a dict that is stored as it is.
  pub record IntegrityFlag : Type 0 where
    pub flag_type : Text
    pub severity : Severity
    pub player_id : Option ℕ
    pub metadata : Table Text Text

  pub record IntegrityVerdict : Type 0 where
    pub flags : List IntegrityFlag
    pub boosting_factors : Table ℕ Float
    pub ineligible_player_ids : List ℕ
    pub party_factors : Table ℕ Float

  unfoldable pub boosting_for : IntegrityVerdict → ℕ → Float
  boosting_for verdict pid = lookup_or pid (zero_f fl) verdict.boosting_factors

  unfoldable pub party_for : IntegrityVerdict → ℕ → Float
  party_for verdict pid = lookup_or pid (zero_f fl) verdict.party_factors

  unfoldable pub is_eligible : IntegrityVerdict → ℕ → Bool
  is_eligible verdict pid = not (any (λ i. nat_beq i pid) verdict.ineligible_player_ids)

  pub record CapJson : Type 0 where
    pub active : Bool
    pub bound : CapBound
    pub lo : Option Float
    pub hi : Option Float
    pub min_gain : Float
    pub mismatch_override : Float
    pub high_cr_scale : Float
    pub composite_win : Float
    pub composite_loss : Float
    pub gain_floor_mult : Float
    pub team_count : ℕ

  -- The keys of the JSON object; `explainVersion` is 1, and `paramsEpoch` is a constant.
  pub record ModifiersJson : Type 0 where
    pub pl_base_delta_mu : Float
    pub placement_weight : Float
    pub placement_amp : Float
    pub streak_mult : Float
    pub soft_cap_factor : Float
    pub boosting_factor : Float
    pub party_factor : Float
    pub dispersion_clamped : Bool
    pub final_delta_mu : Float
    pub cr_delta : Float
    pub eligible : Bool
    pub explain_version : ℕ
    pub confidence_pdl : Float
    pub pre_cap_cr_delta : Float
    pub team_count : ℕ
    pub cap : Option CapJson

  -- The JSON object of `state_before`, where a key that is missing is `none`.
  pub record Snapshot : Type 0 where
    pub mu : Option Float
    pub sigma : Option Float
    pub current_streak : Option ℤ
    pub matches_played : Option ℕ
    pub placement_matches_remaining : Option ℤ
    pub peak_cr : Option Float

  pub record MatchParticipant : Type 0 where
    pub match_id : ℕ
    pub player_id : ℕ
    pub played_at : ℕ
    pub champion_id : ℕ
    pub team_id : ℕ
    pub placement : ℕ
    pub eligible : Bool
    pub cr_before : Float
    pub cr_after : Float
    pub cr_delta : Float
    pub is_premade : Bool
    pub party_id : Option Text
    pub modifiers : ModifiersJson
    pub state_before : Option Snapshot
    pub telemetry : Telemetry

  -- A row of `cr_snapshots`, and of its mirror `cr_snapshots_recent`.
  pub record CrSnapshot : Type 0 where
    pub snapshot_at : ℕ
    pub player_id : ℕ
    pub season_id : ℕ
    pub cr : Float
    pub mu : Float
    pub sigma : Float
    pub matches_played : ℕ

  pub record ChampionStat : Type 0 where
    pub player_id : ℕ
    pub season_id : ℕ
    pub champion_id : ℕ
    pub matches_played : ℕ
    pub wins : ℕ
    pub top_half : ℕ
    pub total_placement_sum : ℕ
    pub cr_delta_sum : Float
    pub last10_placements : List ℕ

  pub record IntegrityEvent : Type 0 where
    pub match_id : ℕ
    pub player_id : Option ℕ
    pub flag_type : Text
    pub severity : Severity
    pub metadata : Option (Table Text Text)
    pub created_at : ℕ
    pub reviewed : Bool

  pub record Database : Type 0 where
    pub matches : List MatchRow
    pub player_seasons : List (PlayerSeason fl)
    pub match_participants : List MatchParticipant
    pub champion_stats : List ChampionStat
    pub cr_snapshots : List CrSnapshot
    pub cr_snapshots_recent : List CrSnapshot
    pub integrity_events : List IntegrityEvent
