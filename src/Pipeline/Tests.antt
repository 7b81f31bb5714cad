-- ===== src/Pipeline/Tests.antt =====
-- The pipeline on small matches, over decimals with three places.
use arena_rank_project.Pipeline.Replay.Laws.{known_of, Rated, replay_chronological-Rated}
use mathlib.Core.List.{Perm}
use arena_rank_project.Processing.Match.{is_already_processed, process_new, persist, process_match}
use arena_rank_project.Processing.Champions.{count_game, drop}
use arena_rank_project.Prelude.Sort.{IsAscending, sort_by}
use arena_rank_project.Prelude.Int.{◌-ℤ◌, ◌+ℤ◌}
use arena_rank_project.Processing.Commit.{
  mark_processed, put_row, put_rows, put_stat, put_stats, event_of,
}
use arena_rank_project.Processing.Inputs.{
  load_states, load_state, fresh_player, build_match_input, team_inputs, participant_inputs,
  teams_by_id, placement_by_team, stat_keys, load_champion_stats, select_stats,
}
use arena_rank_project.Locks.{lock_order, distinct}
use arena_rank_project.Rating.Rate.{
  rate, rate_all, rate_teams, ordered, rate_parts, rate_player, rate_eligible, finish,
}
use arena_rank_project.Rating.Params.{validate_params}
use arena_rank_project.Rating.Engine.{capped, frozen}
use arena_rank_project.Rating.Caps.{decide_pdl_cap}
use arena_rank_project.Processing.Rows.{is_eligible, boosting_for, party_for, Database}
use arena_rank_project.Processing.Persist.{
  persist_player, persist_players, update_row, by_player, modifiers_to_json, ProcessError,
}
use arena_rank_project.Pipeline.Replay.{Replay, replay_chronological, replay_one, replay_all}
use arena_rank_project.Prelude.{
  All, length, text_eq, ℕ, ◌≡◌, refl, true, Option, none, some, List, [], ◌∷◌, arith,
}
use arena_rank_project.Prelude.Result.{Result, ok, err}
use arena_rank_project.Floats.Decimals.{coarse, coarse_ordered}
use arena_rank_project.Season.Rows.{IsKeyed}
use arena_rank_project.Processing.Tests.{service, db, db-IsSound, no_figures}
use arena_rank_project.Processing.Match.Sound.{IsSound}
use arena_rank_project.Pipeline.Watermark.{note_marks, note_late, nothing, or_zero}
use arena_rank_project.Pipeline.Watermark.Floor.{
  after_all, greatest, least_late, after_all_lem, latest, played_of, IsTimeOf, reads, least_behind,
  after_all_interleaved,
}
use arena_rank_project.Pipeline.Gate.{
  build_raw_participants, subteam_participants, ParsedParticipant, ParsedSubteam, ParsedArenaMatch,
  World, Setting, filtered, incomplete_teams, catching_up, live, process_payload, before_cutoff,
  stage_match,
}
use arena_rank_project.Pipeline.Gate.Runs.{run_payloads, run_payloads-IsSound}

-- Rated in the order 500, 900, 300, 700, 250, with a tolerance of 100, one call after the other.
abbrev history : List (ℕ × ℕ)
history = (250, 0) ∷ (700, 0) ∷ (300, 0) ∷ (900, 0) ∷ (500, 0) ∷ []

after_all_lem_example :
    (or_zero (latest (after_all 100 history)).hwm ≡ greatest (played_of history))
    × ((latest (after_all 100 history)).replay_floor ≡ least_late 100 (played_of history))
after_all_lem_example =
    after_all_lem 100 history (omega arith) (refl, (refl, (refl, (refl, (refl, tt)))))

marks_of_history :
    (greatest (played_of history) ≡ 900) × (least_late 100 (played_of history) ≡ some 250)
marks_of_history = (refl, refl)

-- The call for 700 has read the mark before that for 900 wrote it, and sets the mark back; and so the match
-- of 650 is not found to be late.
abbrev scrambled : List (ℕ × ℕ)
scrambled = (650, 0) ∷ (700, 1) ∷ (900, 0) ∷ (500, 0) ∷ []

after_all_interleaved_example :
    IsTimeOf scrambled (or_zero (latest (after_all 100 scrambled)).hwm)
    × All (λ r. IsTimeOf scrambled r.1) (reads 100 scrambled)
    × ((latest (after_all 100 scrambled)).replay_floor ≡ least_behind 100 (reads 100 scrambled))
after_all_interleaved_example = after_all_interleaved 100 scrambled (omega arith)

set_back : latest (after_all 100 scrambled) ≡ record { hwm = some 700; replay_floor = none }
unfolding after_all note_marks note_late
set_back = refl

abbrev entrant : ℕ → ParsedParticipant
entrant puuid = record {
  puuid = puuid ∷ [];
  champion_id = 7;
  eligible_for_progression = true;
  telemetry = no_figures;
}

abbrev arena : List ParsedSubteam → ParsedArenaMatch
arena teams = record {
  match_id = 66 ∷ [];
  queue_id = 1700;
  mode = [];
  game_duration = 900;
  started_at_ms = 500;
  subteams = teams;
}

abbrev duel : ParsedArenaMatch
duel = arena (
    record { subteam_id = 1; placement = 1; participants = entrant 11 ∷ entrant 12 ∷ [] }
    ∷ record { subteam_id = 2; placement = 2; participants = entrant 13 ∷ entrant 14 ∷ [] }
    ∷ [])

abbrev first_code : List ℕ → ℕ
first_code [] = 0
first_code (c ∷ s) = c

abbrev setting : Setting coarse
setting = record {
  season = some 1;
  cutoff_ms = 400;
  tolerance_ms = 100;
  has_redis = true;
  fault = nothing;
  fresh_id = first_code;
  match_id_of = λ riot_match_id. 9;
  iso_of = λ ms. [];
  service_of = λ ids. service;
}

abbrev world : World coarse
world = record {
  db = db;
  players = [];
  backlog = [];
  mode = some catching_up;
  marks = record { hwm = none; replay_floor = none };
}

abbrev left_aside : World coarse
left_aside = record world { backlog = stage_match 1 500 duel [] }

too_few :
    process_payload coarse setting 600 (some (arena [])) world
    ≡ ok (filtered incomplete_teams, world)
unfolding process_payload before_cutoff
too_few = refl

abbrev payloads : List (ℕ × Option ParsedArenaMatch)
payloads = (600, some duel) ∷ (610, none) ∷ (620, some duel) ∷ []

abbrev live_world : World coarse
live_world = record world { mode = some live }

run_payloads-IsSound_example :
    All
      (IsSound coarse coarse_ordered)
      (run_payloads coarse setting payloads live_world).db.player_seasons
    × IsKeyed coarse (run_payloads coarse setting payloads live_world).db.player_seasons
run_payloads-IsSound_example =
    run_payloads-IsSound coarse setting coarse_ordered payloads live_world (λ ids. omega arith)
      db-IsSound (refl, (refl, (refl, tt)))

abbrev replay : Replay coarse
replay = record {
  season_id = 1;
  id_map = (11 ∷ [], 1) ∷ (12 ∷ [], 2) ∷ (13 ∷ [], 3) ∷ (14 ∷ [], 4) ∷ [];
  new_match_id = λ n. n;
  now = 600;
  iso_of = λ ms. [];
  service_of = λ ids. service;
}

-- One of the two matches has a participant without an id.
abbrev crawled : List ParsedArenaMatch
crawled =
    record duel { match_id = 67 ∷ []; started_at_ms = 900 }
    ∷ arena (record { subteam_id = 1; placement = 1; participants = entrant 19 ∷ [] } ∷ [])
    ∷ []

abbrev result_of : Result ProcessError (ℕ × Database coarse) → ℕ × Database coarse
result_of (ok out) = out
result_of (err e) = (0, db)

abbrev replayed : ℕ × Database coarse
replayed = result_of (replay_chronological coarse replay crawled db)

was_replayed : replay_chronological coarse replay crawled db ≡ ok replayed
unfolding process_match process_new persist is_already_processed load_states load_state fresh_player
    lock_order distinct sort_by build_match_input team_inputs participant_inputs teams_by_id
    placement_by_team stat_keys load_champion_stats select_stats persist_player persist_players
    update_row by_player modifiers_to_json mark_processed put_row put_rows put_stat put_stats
    event_of is_eligible boosting_for party_for rate ◌+ℤ◌ ◌-ℤ◌ validate_params rate_all rate_teams
    ordered rate_parts rate_player rate_eligible capped decide_pdl_cap finish frozen count_game drop
    replay_chronological replay_all replay_one build_raw_participants subteam_participants text_eq
was_replayed = refl

replay_chronological-Rated_example :
    (ordered : List ParsedArenaMatch) × Perm ordered crawled
    × IsAscending (λ m. m.started_at_ms) (known_of coarse replay ordered)
    × Rated coarse replay (known_of coarse replay ordered) 0 db replayed.1
    × (replayed.0 ≡ length (known_of coarse replay ordered))
replay_chronological-Rated_example =
    replay_chronological-Rated coarse replay crawled db was_replayed

one_was_rated : replayed.0 ≡ 1
unfolding process_match process_new persist is_already_processed load_states load_state fresh_player
    lock_order distinct sort_by build_match_input team_inputs participant_inputs teams_by_id
    placement_by_team stat_keys load_champion_stats select_stats persist_player persist_players
    update_row by_player modifiers_to_json mark_processed put_row put_rows put_stat put_stats
    event_of is_eligible boosting_for party_for rate ◌+ℤ◌ ◌-ℤ◌ validate_params rate_all rate_teams
    ordered rate_parts rate_player rate_eligible capped decide_pdl_cap finish frozen count_game drop
    replay_chronological replay_all replay_one build_raw_participants subteam_participants text_eq
one_was_rated = refl
