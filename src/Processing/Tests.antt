-- ===== src/Processing/Tests.antt =====
-- A match of two teams of two, over decimals with three places.
use arena_rank_project.Rating.Caps.{decide_pdl_cap}
use arena_rank_project.Rating.Engine.{capped, frozen}
use arena_rank_project.Rating.Params.{validate_params}
use arena_rank_project.Rating.Rate.{
  rate, rate_all, rate_teams, ordered, rate_parts, rate_player, rate_eligible, finish,
}
use arena_rank_project.Locks.{lock_order, distinct}
use arena_rank_project.Processing.Inputs.{
  load_states, load_state, fresh_player, build_match_input, team_inputs, participant_inputs,
  teams_by_id, placement_by_team, stat_keys, load_champion_stats, select_stats,
}
use arena_rank_project.Processing.Commit.{
  mark_processed, put_row, put_rows, put_stat, put_stats, event_of,
}
use arena_rank_project.Processing.Persist.{
  persist_player, persist_players, update_row, by_player, modifiers_to_json,
}
use arena_rank_project.Prelude.{
  ℕ, ◌≡◌, refl, true, false, Option, none, some, List, [], ◌∷◌, ◌++◌, map, ◌<◌, ◌+◌, length, All,
  find, arith, replicate,
}
use arena_rank_project.Prelude.Int.{ℤ, pos, negsuc, ◌-ℤ◌, ◌+ℤ◌}
use arena_rank_project.Prelude.Sort.{sort_by, sum_by}
use arena_rank_project.Prelude.Result.{Result, ok, err}
use arena_rank_project.Floats.Decimals.{whole, coarse, coarse_ordered}
use arena_rank_project.Rating.Tests.{params, nudge}
use arena_rank_project.Season.Rows.{PlayerSeason, IsKeyed}
use arena_rank_project.Processing.Rows.{
  is_eligible, boosting_for, party_for, Telemetry, RawParticipant, RawMatch, IntegrityVerdict,
  Database, warn,
}
use arena_rank_project.Processing.StateBefore.{
  rating_of, state_before_to_json, apply_state_before, apply_state_before-state_before_to_json,
}
use arena_rank_project.Processing.Champions.{
  count_game, drop, Game, after_games, new_stat, wins_in, placements, last_ten,
  after_games-IsHistory,
}
use arena_rank_project.Processing.Match.{
  is_already_processed, process_new, persist, Service, ProcessOutcome, processed, already,
  process_match,
}
use arena_rank_project.Processing.Match.Again.{process_match_again}
use arena_rank_project.Processing.Match.Sound.{IsSound, process_match-IsSound}
use arena_rank_project.Processing.Match.Recorded.{IsRecorded, process_match-IsRecorded}
use arena_rank_project.Processing.Match.Local.{is_row, process_match-find}
use arena_rank_project.Processing.Match.Keyed.{process_match-IsKeyed}

abbrev pub no_figures : Telemetry
no_figures = record {
  augments = [];
  items = [];
  kills = 0;
  deaths = 0;
  assists = 0;
  damage_to_champions = 0;
  gold_earned = 0;
  champion_level = 0;
  damage_taken = 0;
  total_heal = 0;
  damage_self_mitigated = 0;
  largest_multi_kill = 0;
  killing_sprees = 0;
  time_spent_dead = 0;
}

abbrev raw : ℕ → ℕ → ℕ → RawParticipant
raw pid team placement = record {
  player_id = pid;
  champion_id = 100 + pid;
  team_id = team;
  placement = placement;
  is_premade = false;
  party_id = none;
  telemetry = no_figures;
}

abbrev played : RawMatch
played = record {
  match_id = 9;
  riot_match_id = 66 ∷ 82 ∷ [];
  season_id = 1;
  mode = [];
  queue_id = 1700;
  played_at = [];
  participants = raw 4 1 2 ∷ raw 3 1 2 ∷ raw 2 2 1 ∷ raw 1 2 1 ∷ [];
  duration_seconds = none;
}

-- Player 2 is not eligible, and one flag is raised.
abbrev verdict : IntegrityVerdict coarse
verdict = record {
  flags = record { flag_type = []; severity = warn; player_id = some 2; metadata = [] } ∷ [];
  boosting_factors = [];
  ineligible_player_ids = 2 ∷ [];
  party_factors = [];
}

abbrev pub service : Service coarse
service = record {
  params = params;
  snapshot_at_played = true;
  evaluate = λ m states. ok verdict;
  pl_rate = nudge;
  parse_iso = λ t. ok 7;
}

abbrev row : ℕ → ℕ → PlayerSeason coarse
row pid sid = record {
  player_id = pid;
  season_id = sid;
  cr = whole 460;
  mu = whole 30;
  sigma = whole 4;
  matches_played = 6;
  placement_matches_remaining = pos 1;
  is_provisional = true;
  peak_cr = whole 500;
  current_streak = pos 2;
}

-- Player 1 has a row in the season, player 5 too, and player 3 in another.
abbrev pub db : Database coarse
db = record {
  matches = [];
  player_seasons = row 1 1 ∷ row 5 1 ∷ row 3 2 ∷ [];
  match_participants = [];
  champion_stats = [];
  cr_snapshots = [];
  cr_snapshots_recent = [];
  integrity_events = [];
}

abbrev out_of {ℓ κ} : {E : Type ℓ} {A : Type κ} → A → Result E A → A
out_of a (ok b) = b
out_of a (err e) = a

abbrev out : ProcessOutcome × Database coarse
out = out_of (already 0, db) (process_match coarse service 8 played db)

was_processed : process_match coarse service 8 played db ≡ ok out
unfolding process_match process_new persist is_already_processed load_states load_state fresh_player
    lock_order distinct sort_by build_match_input team_inputs participant_inputs teams_by_id
    placement_by_team stat_keys load_champion_stats select_stats persist_player persist_players
    update_row by_player modifiers_to_json mark_processed put_row put_rows put_stat put_stats
    event_of is_eligible boosting_for party_for rate ◌+ℤ◌ ◌-ℤ◌ validate_params rate_all rate_teams
    ordered rate_parts rate_player rate_eligible capped decide_pdl_cap finish frozen count_game drop
was_processed = refl

reported :
    (out.0.status ≡ processed)
    × (out.0.players_updated ≡ 3)
    × (out.0.affected_player_ids ≡ 1 ∷ 2 ∷ 3 ∷ 4 ∷ [])
    × (map (λ r. r.player_id) out.1.player_seasons ≡ 1 ∷ 5 ∷ 3 ∷ 2 ∷ 3 ∷ 4 ∷ [])
    × (map (λ r. r.matches_played) out.1.player_seasons ≡ 7 ∷ 6 ∷ 6 ∷ 0 ∷ 1 ∷ 1 ∷ [])
unfolding process_match process_new persist is_already_processed load_states load_state fresh_player
    lock_order distinct sort_by build_match_input team_inputs participant_inputs teams_by_id
    placement_by_team stat_keys load_champion_stats select_stats persist_player persist_players
    update_row by_player modifiers_to_json mark_processed put_row put_rows put_stat put_stats
    event_of is_eligible boosting_for party_for rate ◌+ℤ◌ ◌-ℤ◌ validate_params rate_all rate_teams
    ordered rate_parts rate_player rate_eligible capped decide_pdl_cap finish frozen count_game drop
reported = (refl, refl, refl, refl, refl)

process_match_again_example : process_match coarse service 20 played out.1 ≡ ok (already 9, out.1)
process_match_again_example = process_match_again coarse service 8 20 played db was_processed

at_least_one : 0 < service.params.placement_match_count
at_least_one = omega arith

pub db-IsSound : All (IsSound coarse coarse_ordered) db.player_seasons
db-IsSound = ((refl, refl), ((refl, refl), ((refl, refl), tt)))

process_match-IsSound_case : All (IsSound coarse coarse_ordered) out.1.player_seasons
process_match-IsSound_case =
    process_match-IsSound coarse coarse_ordered service at_least_one 8 played db db-IsSound
      was_processed

process_match-IsRecorded_example : IsRecorded coarse service db out
process_match-IsRecorded_example = process_match-IsRecorded coarse service 8 played db was_processed

process_match-find_example :
    find (is_row coarse 1 5) out.1.player_seasons ≡ find (is_row coarse 1 5) db.player_seasons
process_match-find_example = process_match-find coarse service 8 played db 1 5 refl was_processed

process_match-IsKeyed_case : IsKeyed coarse out.1.player_seasons
process_match-IsKeyed_case =
    process_match-IsKeyed coarse service 8 played db (refl, (refl, (refl, tt))) was_processed

-- A row whose rating is the one of the formula, and the same row two matches later.
abbrev before : PlayerSeason coarse
before = record (row 1 1) { cr = rating_of coarse params (whole 30) (whole 4) }

abbrev later : PlayerSeason coarse
later = record (row 1 1) { cr = whole 600; matches_played = 8; is_provisional = false }

apply_state_before-state_before_to_json_example :
    apply_state_before coarse params later (state_before_to_json coarse before) ≡ ok before
apply_state_before-state_before_to_json_example =
    apply_state_before-state_before_to_json coarse params before later refl refl refl refl

abbrev games : List (Game coarse)
games =
    replicate 11 (record { placement = 1; is_win = true; cr_delta = whole 5 })
    ++ (record { placement = 4; is_win = false; cr_delta = whole 5 } ∷ [])

after_games-IsHistory_example :
    (let cs = after_games coarse games (new_stat coarse 1 1 7) in
      (cs.matches_played ≡ length games)
      × (cs.wins ≡ wins_in coarse games)
      × (cs.top_half ≡ wins_in coarse games)
      × (cs.total_placement_sum ≡ sum_by (λ g. g.placement) games)
      × (cs.last10_placements ≡ last_ten (placements coarse games)))
after_games-IsHistory_example = after_games-IsHistory coarse 1 1 7 games

abbrev map_ok {ℓ} : {E : Type ℓ} → Result E (PlayerSeason coarse) → Option ℤ
map_ok (ok r) = some r.cr
map_ok (err e) = none

-- A rating that was floored_row at 0 is restored below it.
abbrev floored_row : PlayerSeason coarse
floored_row = record (row 1 1) { cr = pos 0; mu = whole 2; sigma = whole 8 }

restored_below_zero :
    map_ok (apply_state_before coarse params floored_row (state_before_to_json coarse floored_row))
    ≡ some (negsuc 339999)
unfolding apply_state_before state_before_to_json ◌+ℤ◌ ◌-ℤ◌
restored_below_zero = refl
