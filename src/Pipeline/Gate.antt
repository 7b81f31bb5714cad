-- ===== src/Pipeline/Gate.antt =====
-- `process_match` and `process_parsed` of backend/arena/services/match_pipeline.py: which match is rated, which
-- is put aside, and which is dropped. The parser of the payload, the ids, the clock and the reading of times
-- are arguments, as is the integrity evaluator that is built for a match.
pub mod Laws
pub mod Runs
use arena_rank_project.Prelude.{
  ℕ, ◌+◌, ◌≡◌, Bool, true, false, not, Option, none, some, List, [], ◌∷◌, ◌++◌, ◌&&◌, if◌then◌else◌,
  any, map, ltb, length, Text, text_eq, text_ltb,
}
use arena_rank_project.Prelude.{◌==◌ as nat_beq}
use arena_rank_project.Prelude.Table.{Table, text_instance, nat_eq, lookup}
use arena_rank_project.Prelude.Sort.{sort_by}
use arena_rank_project.Prelude.Result.{Result, ok, err, ◌>>=◌}
use arena_rank_project.Floats.{Floats}
use arena_rank_project.Rating.Modifiers.{PlayerState}
use arena_rank_project.Rating.Params.{RatingParams}
use arena_rank_project.Processing.Rows.{
  Telemetry, RawParticipant, RawMatch, IntegrityVerdict, Database,
}
use arena_rank_project.Processing.Persist.{ProcessError, get_item}
use arena_rank_project.Processing.Match.{
  Service, Status, processed, already_processed, voided, ProcessOutcome,
  process_match as rate_match,
}
use arena_rank_project.Pipeline.Watermark.{Marks, Fault, note_if_out_of_order}

-- The fields of a parsed match, of backend/arena/riot/arena.py, that the pipeline reads.
pub record ParsedParticipant : Type 0 where
  pub puuid : Text
  pub champion_id : ℕ
  pub eligible_for_progression : Bool
  pub telemetry : Telemetry

pub record ParsedSubteam : Type 0 where
  pub subteam_id : ℕ
  pub placement : ℕ
  pub participants : List ParsedParticipant

pub record ParsedArenaMatch : Type 0 where
  pub match_id : Text
  pub queue_id : ℕ
  pub mode : Text
  pub game_duration : ℕ
  pub started_at_ms : ℕ
  pub subteams : List ParsedSubteam

unfoldable pub before_cutoff : ℕ → ℕ → Bool
before_cutoff started_at_ms cutoff_ms =
    not (nat_beq cutoff_ms 0) && (ltb 0 started_at_ms && ltb started_at_ms cutoff_ms)

abbrev pub raw_participant : ParsedSubteam → ℕ → ParsedParticipant → RawParticipant
raw_participant subteam pid p = record {
  player_id = pid;
  champion_id = p.champion_id;
  team_id = subteam.subteam_id;
  placement = subteam.placement;
  is_premade = false;
  party_id = none;
  telemetry = p.telemetry;
}

-- `ineligible.add(pid)`, if the parser marked the participant
abbrev pub marked : ParsedParticipant → ℕ → List ℕ → List ℕ
marked p pid ineligible = if p.eligible_for_progression then ineligible else pid ∷ ineligible

unfoldable pub subteam_participants :
    Table Text ℕ
    → ParsedSubteam
    → List ParsedParticipant
    → Result ProcessError (List RawParticipant × List ℕ)
subteam_participants id_map subteam [] = ok ([], [])
subteam_participants id_map subteam (p ∷ ps) = do
  pid ← get_item p.puuid id_map
  rest ← subteam_participants id_map subteam ps
  ok (raw_participant subteam pid p ∷ rest.0, marked p pid rest.1)

unfoldable pub build_raw_participants :
    Table Text ℕ → List ParsedSubteam → Result ProcessError (List RawParticipant × List ℕ)
build_raw_participants id_map [] = ok ([], [])
build_raw_participants id_map (subteam ∷ subteams) = do
  first ← subteam_participants id_map subteam subteam.participants
  rest ← build_raw_participants id_map subteams
  ok (first.0 ++ rest.0, first.1 ++ rest.1)

pub data IngestMode : Type 0 where
  catching_up live : IngestMode

pub record Backlog : Type 0 where
  pub riot_match_id : Text
  pub season_id : ℕ
  pub played_at : ℕ
  pub parsed : ParsedArenaMatch

-- `INSERT ... ON CONFLICT (riot_match_id) DO NOTHING`
unfoldable pub stage_match : ℕ → ℕ → ParsedArenaMatch → List Backlog → List Backlog
stage_match sid played_at parsed rows =
    if any (λ row. text_eq row.riot_match_id parsed.match_id) rows
    then rows
    else rows
      ++ (record {
        riot_match_id = parsed.match_id;
        season_id = sid;
        played_at = played_at;
        parsed = parsed;
      }
          ∷ [])

pub data FilterReason : Type 0 where
  not_arena is_before_cutoff incomplete_teams : FilterReason

pub data Reply : Type 0 where
  filtered : FilterReason → Reply
  staged : Reply
  summary : ProcessOutcome → Reply

pub data PipelineError : Type 0 where
  no_active_season : PipelineError
  rating_error : ProcessError → PipelineError

-- The puuids of the match, each once, in the order of the upsert.
unfoldable pub roster : List Text → List Text
roster [] = []
roster (p ∷ ps) = let rest = roster ps in if any (λ q. text_eq q p) ps then rest else p ∷ rest

abbrev pub puuids_of : ParsedArenaMatch → List Text
puuids_of parsed = concat_map parsed.subteams
  where
    concat_map : List ParsedSubteam → List Text
    concat_map [] = []
    concat_map (t ∷ ts) = map (λ p. p.puuid) t.participants ++ concat_map ts

-- The upsert of `register_players`, for one puuid and for all.
unfoldable pub register : (Text → ℕ) → Text → Table Text ℕ → Table Text ℕ
register fresh_id puuid players = elim (lookup puuid players) [
  | none ↦ players ++ ((puuid, fresh_id puuid) ∷ [])
  | some pid ↦ players
]

unfoldable pub register_players : (Text → ℕ) → List Text → Table Text ℕ → Table Text ℕ
register_players fresh_id [] players = players
register_players fresh_id (p ∷ ps) players =
    register_players fresh_id ps (register fresh_id p players)

-- `parsed.started_at_ms` or now
abbrev pub played_at : ℕ → ParsedArenaMatch → ℕ
played_at now parsed = if ltb 0 parsed.started_at_ms then parsed.started_at_ms else now

unfoldable pub is_catching_up : Option IngestMode → Bool
is_catching_up none = false
is_catching_up (some catching_up) = true
is_catching_up (some live) = false

module _ (fl : Floats) where
  -- `EligibilityOnlyIntegrity.evaluate`
  unfoldable pub eligibility_only : List ℕ → IntegrityVerdict fl
  eligibility_only ineligible = record {
    flags = [];
    boosting_factors = [];
    ineligible_player_ids = ineligible;
    party_factors = [];
  }

  -- The rows that the pipeline reads and writes; a player's row is its id.
  pub record World : Type 0 where
    pub db : Database fl
    pub players : Table Text ℕ
    pub backlog : List Backlog
    pub mode : Option IngestMode
    pub marks : Marks

  pub record Setting : Type 0 where
    pub season : Option ℕ
    pub cutoff_ms : ℕ
    pub tolerance_ms : ℕ
    pub has_redis : Bool
    pub fault : Fault
    pub fresh_id : Text → ℕ
    pub match_id_of : Text → ℕ
    pub iso_of : ℕ → Text
    pub service_of : List ℕ → Service fl

  module _ (setting : Setting) (now : ℕ) where
    abbrev pub raw_match : ℕ → ParsedArenaMatch → List RawParticipant → RawMatch
    raw_match sid parsed participants = record {
      match_id = setting.match_id_of parsed.match_id;
      riot_match_id = parsed.match_id;
      season_id = sid;
      mode = parsed.mode;
      queue_id = parsed.queue_id;
      played_at = setting.iso_of (played_at now parsed);
      participants = participants;
      duration_seconds = some parsed.game_duration;
    }

    -- After the transaction: the marks move only for a match that was rated now, here with no other worker
    -- between the read of the mark and its write (Watermark has them between), and the players stay only if
    -- the transaction committed.
    unfoldable pub settled :
        ParsedArenaMatch → Table Text ℕ → ProcessOutcome → Database fl → World → Status → World
    settled parsed players outcome db w processed = record w {
      db = db;
      players = players;
      marks =
          note_if_out_of_order setting.has_redis setting.fault setting.tolerance_ms
            (played_at now parsed) w.marks.hwm w.marks;
    }
    settled parsed players outcome db w voided = record w { db = db; players = players }
    settled parsed players outcome db w already_processed = record w { db = db }

    -- The part of `process_parsed` that rates.
    unfoldable pub rate_parsed : ℕ → ParsedArenaMatch → World → Result ProcessError (Reply × World)
    rate_parsed sid parsed w = do
      let players =
          register_players setting.fresh_id (sort_by text_ltb (roster (puuids_of parsed))) w.players
      built ← build_raw_participants players parsed.subteams
      done ← rate_match fl (setting.service_of built.1) now (raw_match sid parsed built.0) w.db
      ok (summary done.0, settled parsed players done.0 done.1 w done.0.status)

    abbrev pub as_rating_error :
        Result ProcessError (Reply × World) → Result PipelineError (Reply × World)
    as_rating_error (err e) = err (rating_error e)
    as_rating_error (ok out) = ok out

    unfoldable pub process_in :
        Option ℕ → Bool → ParsedArenaMatch → World → Result PipelineError (Reply × World)
    process_in none allow_stage parsed w = err no_active_season
    process_in (some sid) allow_stage parsed w =
        if allow_stage && is_catching_up w.mode
        then ok
            (staged, record w { backlog = stage_match sid (played_at now parsed) parsed w.backlog })
        else as_rating_error (rate_parsed sid parsed w)

    abbrev pub process_parsed :
        Bool → ParsedArenaMatch → World → Result PipelineError (Reply × World)
    process_parsed allow_stage parsed w = process_in setting.season allow_stage parsed w

    -- `process_match`, on what the parser makes of the payload; `none` is NotAnArenaMatch.
    unfoldable pub process_payload :
        Option ParsedArenaMatch → World → Result PipelineError (Reply × World)
    process_payload none w = ok (filtered not_arena, w)
    process_payload (some parsed) w =
        if before_cutoff parsed.started_at_ms setting.cutoff_ms
        then ok (filtered is_before_cutoff, w)
        else if ltb (length parsed.subteams) 2
        then ok (filtered incomplete_teams, w)
        else process_parsed true parsed w
