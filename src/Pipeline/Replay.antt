-- ===== src/Pipeline/Replay.antt =====
-- `replay_chronological` of backend/arena/ingest/replay.py: crawled matches, rated in the order of play.
pub mod Laws
use arena_rank_project.Prelude.{
  ℕ, suc, ◌+◌, Bool, true, false, not, Option, none, some, List, [], ◌∷◌, ◌&&◌, if◌then◌else◌, all,
  ltb, Text,
}
use arena_rank_project.Prelude.Table.{Table, text_instance, lookup}
use arena_rank_project.Prelude.Sort.{sort_by}
use arena_rank_project.Prelude.Result.{Result, ok, err, ◌>>=◌}
use arena_rank_project.Floats.{Floats}
use arena_rank_project.Processing.Rows.{RawParticipant, RawMatch, Database}
use arena_rank_project.Processing.Persist.{ProcessError}
use arena_rank_project.Processing.Match.{Service, ProcessOutcome, process_match}
use arena_rank_project.Pipeline.Gate.{
  ParsedParticipant, ParsedSubteam, ParsedArenaMatch, build_raw_participants, played_at,
}

-- `pp.puuid and pp.puuid in id_map`
abbrev pub has_player : Table Text ℕ → Text → Bool
has_player id_map [] = false
has_player id_map (c ∷ s) = elim (lookup (c ∷ s) id_map) [ none ↦ false | some pid ↦ true ]

-- No participant of the match is missing.
abbrev pub is_known : Table Text ℕ → ParsedArenaMatch → Bool
is_known id_map parsed =
    all (λ t. all (λ p. has_player id_map p.puuid) t.participants) parsed.subteams

-- The key of the sort, `p.started_at_ms or 0`.
abbrev pub started_before : ParsedArenaMatch → ParsedArenaMatch → Bool
started_before a b = ltb a.started_at_ms b.started_at_ms

module _ (fl : Floats) where
  -- The season, the generated ids of the matches, the clock, and the service with the integrity evaluator that
  -- is put into it for a match.
  pub record Replay : Type 0 where
    pub season_id : ℕ
    pub id_map : Table Text ℕ
    pub new_match_id : ℕ → ℕ
    pub now : ℕ
    pub iso_of : ℕ → Text
    pub service_of : List ℕ → Service fl

  module _ (r : Replay) where
    abbrev pub replayed_match : ℕ → ParsedArenaMatch → List RawParticipant → RawMatch
    replayed_match n parsed participants = record {
      match_id = r.new_match_id n;
      riot_match_id = parsed.match_id;
      season_id = r.season_id;
      mode = parsed.mode;
      queue_id = parsed.queue_id;
      played_at = r.iso_of (played_at r.now parsed);
      participants = participants;
      duration_seconds = some parsed.game_duration;
    }

    -- The body of the loop for a match that is not skipped.
    unfoldable pub replay_one :
        ℕ → ParsedArenaMatch → Database fl → Result ProcessError (ProcessOutcome × Database fl)
    replay_one n parsed db = do
      built ← build_raw_participants r.id_map parsed.subteams
      process_match fl (r.service_of built.1) r.now (replayed_match n parsed built.0) db

    -- The loop, with `stats.processed` so far.
    unfoldable pub replay_all :
        List ParsedArenaMatch → ℕ → Database fl → Result ProcessError (ℕ × Database fl)
    replay_all [] n db = ok (n, db)
    replay_all (parsed ∷ later) n db =
        if is_known r.id_map parsed
        then replay_one n parsed db >>= (λ done. replay_all later (n + 1) done.1)
        else replay_all later n db

    unfoldable pub replay_chronological :
        List ParsedArenaMatch → Database fl → Result ProcessError (ℕ × Database fl)
    replay_chronological matches db = replay_all (sort_by started_before matches) 0 db
