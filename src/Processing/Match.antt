-- ===== src/Processing/Match.antt =====
-- `_persist` and `process_match` of backend/arena/services/rating_service.py, inside the players' locks. The
-- integrity evaluator is an argument, as are the update of the `openskill` package, the clock and the reading
-- of a time. A call that raises commits nothing.
pub mod Again
pub mod Sound
pub mod Local
pub mod Keyed
pub mod Recorded
use arena_rank_project.Locks.{lock_order}
use arena_rank_project.Rating.Rate.{rate}
use arena_rank_project.Processing.Commit.{
  flags_summary, event_of, mark_processed, put_rows, put_stats,
}
use arena_rank_project.Rating.Modifiers.{PlayerState}
use arena_rank_project.Prelude.{
  length, ℕ, Bool, true, false, List, [], ◌∷◌, ◌++◌, ◌&&◌, ◌||◌, if◌then◌else◌, map, any, Text,
  text_eq,
}
use arena_rank_project.Prelude.{◌==◌ as nat_beq}
use arena_rank_project.Prelude.Int.{pos}
use arena_rank_project.Prelude.Table.{Table, nat_eq, lookup_or, insert}
use arena_rank_project.Prelude.Result.{err, Result, ok, ◌>>=◌}
use arena_rank_project.Floats.{Floats}
use arena_rank_project.Rating.Params.{RatingParams}
use arena_rank_project.Rating.Engine.{
  RatingResult, ParticipantInput, TeamInput, MatchInput, PlayerRatingResult,
}
use arena_rank_project.Season.Rows.{PlayerSeason}
use arena_rank_project.Season.Reset.{state_of}
use arena_rank_project.Processing.Rows.{
  Database, RawParticipant, RawMatch, MatchRow, IntegrityVerdict, boosting_for, party_for,
  is_eligible, ChampionStat,
}
use arena_rank_project.Processing.StateBefore.{state_before_to_json, rating_of}
use arena_rank_project.Processing.Persist.{
  Context, by_player, engine_error, persist_players, Work, ProcessError, get_item, pair_instance,
}
use arena_rank_project.Processing.Inputs.{
  load_states, build_match_input, stat_keys, load_champion_stats,
}

pub data Status : Type 0 where
  processed already_processed voided : Status

pub record ProcessOutcome : Type 0 where
  pub match_id : ℕ
  pub status : Status
  pub voided : Bool
  pub players_updated : ℕ
  pub flags_emitted : ℕ
  pub affected_player_ids : List ℕ

abbrev pub already : ℕ → ProcessOutcome
already match_id = record {
  match_id = match_id;
  status = already_processed;
  voided = false;
  players_updated = 0;
  flags_emitted = 0;
  affected_player_ids = [];
}

-- The query puts the rows that are processed first, so that its first row is processed if any is.
unfoldable pub is_already_processed : ℕ → Text → List MatchRow → Bool
is_already_processed match_id riot_match_id rows =
    any (λ r. (nat_beq r.id match_id || text_eq r.riot_match_id riot_match_id) && r.processed) rows

module _ (fl : Floats) where
  open fl use {Float}

  -- The service's collaborators and settings.
  pub record Service : Type 0 where
    pub params : RatingParams fl
    pub snapshot_at_played : Bool
    pub evaluate : RawMatch → Table ℕ (PlayerState fl) → Result ProcessError (IntegrityVerdict fl)
    pub pl_rate :
        RatingParams fl → List (List (Float × Float)) → List ℕ → List (List (Float × Float))
    pub parse_iso : Text → Result ProcessError ℕ

  abbrev pub context_of :
      RawMatch → ℕ → ℕ → Table ℕ (PlayerSeason fl) → RatingResult fl → Context fl
  context_of m played_at snap_at states result = record {
    match_id = m.match_id;
    season_id = m.season_id;
    played_at = played_at;
    snap_at = snap_at;
    voided = result.voided;
    people = by_player m.participants [];
    state_before = map (λ e. (e.0, state_before_to_json fl e.1)) states;
  }

  abbrev pub work_of : Table ℕ (PlayerSeason fl) → Table (ℕ × ℕ) (ChampionStat fl) → Work fl
  work_of states champ_stats = record {
    states = states;
    champ_stats = champ_stats;
    cr_snapshots = [];
    cr_snapshots_recent = [];
    match_participants = [];
    updated = 0;
  }

  -- The one transaction.
  abbrev pub commit : RawMatch → IntegrityVerdict fl → ℕ → ℕ → Work fl → Database fl → Database fl
  commit m verdict played_at now w db = record {
    matches = mark_processed fl m (flags_summary fl verdict.flags) played_at now db.matches;
    player_seasons = put_rows fl w.states db.player_seasons;
    match_participants = db.match_participants ++ w.match_participants;
    champion_stats = put_stats fl w.champ_stats db.champion_stats;
    cr_snapshots = db.cr_snapshots ++ w.cr_snapshots;
    cr_snapshots_recent = db.cr_snapshots_recent ++ w.cr_snapshots_recent;
    integrity_events = db.integrity_events ++ map (event_of fl m.match_id now) verdict.flags;
  }

  abbrev pub outcome_of : RawMatch → IntegrityVerdict fl → RatingResult fl → ℕ → ProcessOutcome
  outcome_of m verdict result updated = record {
    match_id = m.match_id;
    status = if result.voided then voided else processed;
    voided = result.voided;
    players_updated = updated;
    flags_emitted = length verdict.flags;
    affected_player_ids = map (λ pr. pr.player_id) result.players;
  }

  module _ (service : Service) where
    unfoldable pub persist :
        ℕ
        → RawMatch
        → IntegrityVerdict fl
        → Table ℕ (PlayerSeason fl)
        → RatingResult fl
        → Database fl
        → Result ProcessError (ProcessOutcome × Database fl)
    persist now m verdict states result db = do
      played_at ← service.parse_iso m.played_at
      keys ← stat_keys fl (by_player m.participants []) result.players
      let snap_at = if service.snapshot_at_played then played_at else now
      let champ_stats = load_champion_stats fl m.season_id result.voided keys db.champion_stats
      w ←
          persist_players fl (context_of m played_at snap_at states result) result.players
            (work_of states champ_stats)
      ok (outcome_of m verdict result w.updated, commit m verdict played_at now w db)

    -- What the engine raises goes through.
    abbrev pub rated : MatchInput fl → Result ProcessError (RatingResult fl)
    rated input = elim (rate fl service.pl_rate input) [ err e ↦ err engine_error | ok r ↦ ok r ]

    -- The steps once the match is known not to be processed.
    unfoldable pub process_new :
        ℕ → RawMatch → Database fl → Result ProcessError (ProcessOutcome × Database fl)
    process_new now m db = do
      let player_ids = lock_order (map (λ p. p.player_id) m.participants)
      let states = load_states fl service.params m.season_id db.player_seasons player_ids
      verdict ← service.evaluate m (map (λ e. (e.0, state_of fl e.1)) states)
      input ← build_match_input fl service.params m verdict states
      result ← rated input
      persist now m verdict states result db

    unfoldable pub process_match :
        ℕ → RawMatch → Database fl → Result ProcessError (ProcessOutcome × Database fl)
    process_match now m db =
        let new = process_new now m db in
        if is_already_processed m.match_id m.riot_match_id db.matches
        then ok (already m.match_id, db)
        else new
