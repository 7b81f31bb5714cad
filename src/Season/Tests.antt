-- ===== src/Season/Tests.antt =====
-- The season service at a small database, over decimals with three places.
use arena_rank_project.Prelude.{
  ℕ, ◌≡◌, refl, Bool, true, false, List, [], ◌∷◌, map, ◌≤◌, ◌+◌, length,
}
use arena_rank_project.Prelude.Int.{pos, ltb_ℤ}
use arena_rank_project.Prelude.Sort.{sort_by}
use arena_rank_project.Prelude.Result.{ok, err}
use arena_rank_project.Floats.Decimals.{whole, coarse}
use arena_rank_project.Rating.Tests.{params}
use arena_rank_project.Season.Rows.{
  IsKeyed, active, soft_lock, ended, off_season, Season, top, PlayerAchievement, not_adjacent,
  not_found, PlayerSeason, Store, get_season, set_status,
}
use arena_rank_project.Season.Close.{
  held_in, ranked_rows, close_season, award_all, CloseSeasonResult, limit, where_rows, award_tier,
  is_held, tier_in, end_season,
}
use arena_rank_project.Season.Close.Again.{close_season_again, none_awarded}
use arena_rank_project.Season.Close.Earned.{IsClosed, close_season-IsEarned}
use arena_rank_project.Season.Reset.{soft_reset, carry_all}
use arena_rank_project.Season.Reset.Carried.{soft_reset-IsKeyed, soft_reset_again}
use arena_rank_project.Season.Lifecycle.{advance_status, check_transition, allowed_transition}
use arena_rank_project.Season.Lifecycle.Runs.{
  stage, Operation, advance, close, reset, run, run_one, run-IsForward, remaining, run-remaining,
}

abbrev row : ℕ → ℕ → ℕ → ℕ → Bool → PlayerSeason coarse
row pid sid cr played provisional = record {
  player_id = pid;
  season_id = sid;
  cr = whole cr;
  mu = whole 30;
  sigma = whole 4;
  matches_played = played;
  placement_matches_remaining = pos 0;
  is_provisional = provisional;
  peak_cr = whole cr;
  current_streak = pos 2;
}

-- Player 2 leads player 1, player 3 is provisional, and player 2 has a row in the next season.
abbrev store : Store coarse
store = record {
  seasons = record { id = 1; status = soft_lock } ∷ record { id = 2; status = active } ∷ [];
  player_seasons =
      row 1 1 1500 12 false
      ∷ row 2 1 1600 20 false
      ∷ row 3 1 1700 3 true
      ∷ row 2 2 1300 0 true
      ∷ [];
  achievements = [];
}

abbrev by_cr : List (PlayerSeason coarse) → List (PlayerSeason coarse)
by_cr = sort_by (λ a b. ltb_ℤ b.cr a.cr)

abbrev closed_result : CloseSeasonResult
closed_result = record {
  season_id = 1;
  achievements_awarded = 2;
  awarded_by_tier = (1, 1) ∷ (10, 1) ∷ [];
}

abbrev award_row : ℕ → ℕ → ℕ → PlayerAchievement
award_row pid n rank = record {
  player_id = pid;
  season_id = 1;
  achievement_type = top n;
  tier = top n;
  rank_value = rank;
}

abbrev closed_store : Store coarse
closed_store = record store {
  seasons = record { id = 1; status = ended } ∷ record { id = 2; status = active } ∷ [];
  achievements = award_row 2 1 1 ∷ award_row 1 10 2 ∷ [];
}

was_closed : close_season coarse by_cr 1 store ≡ ok (closed_result, closed_store)
unfolding close_season get_season ranked_rows limit where_rows sort_by award_all award_tier held_in
    is_held tier_in end_season set_status
was_closed = refl

close_season_again_example :
    close_season coarse by_cr 1 closed_store ≡ ok (none_awarded coarse by_cr 1, closed_store)
close_season_again_example = close_season_again coarse by_cr 1 store was_closed

close_season-IsEarned_example : IsClosed coarse by_cr 1 store (closed_result, closed_store)
close_season-IsEarned_example = close_season-IsEarned coarse by_cr 1 store was_closed

store-IsKeyed : IsKeyed coarse store.player_seasons
store-IsKeyed = (refl, (refl, (refl, (refl, tt))))

soft_reset-IsKeyed_case : IsKeyed coarse (soft_reset coarse params 1 2 store).1.player_seasons
soft_reset-IsKeyed_case = soft_reset-IsKeyed coarse params 1 2 store store-IsKeyed

soft_reset_again_case : soft_reset coarse params 1 2 (soft_reset coarse params 1 2 store).1 ≡ (
  record { from_season_id = 1; to_season_id = 2; players_carried = 0 },
  (soft_reset coarse params 1 2 store).1,
)
soft_reset_again_case = soft_reset_again coarse params 1 2 store

-- Players 1 and 3 are carried.
were_carried :
    (map (λ r. r.player_id) (soft_reset coarse params 1 2 store).1.player_seasons
      ≡ 1 ∷ 2 ∷ 3 ∷ 2 ∷ 1 ∷ 3 ∷ [])
    × ((soft_reset coarse params 1 2 store).0.players_carried ≡ 2)
unfolding soft_reset carry_all where_rows
were_carried = (refl, refl)

abbrev operations : List (Operation coarse)
operations = advance 1 ended ∷ close by_cr 1 ∷ advance 1 off_season ∷ reset params 1 2 ∷ []

found_1 : get_season coarse 1 store ≡ ok (record { id = 1; status = soft_lock })
unfolding get_season
found_1 = refl

run-IsForward_example :
    (season' : Season) × (get_season coarse 1 (run coarse operations store) ≡ ok season')
    × (stage soft_lock ≤ stage season'.status)
    × (stage season'.status ≤ stage soft_lock + length operations)
run-IsForward_example = run-IsForward coarse operations 1 store found_1

run-remaining_example :
    (stage soft_lock + length (remaining coarse 1 soft_lock) ≡ 3)
    × ((season' : Season) × (get_season coarse 1 (run coarse (remaining coarse 1 soft_lock) store)
          ≡ ok season')
        × (season'.status ≡ off_season))
run-remaining_example = run-remaining coarse 1 store found_1

-- A status can be neither skipped nor left at the end.
refused :
    (advance_status coarse 1 off_season store ≡ err not_adjacent)
    × (advance_status coarse 3 ended store ≡ err not_found)
unfolding advance_status get_season check_transition allowed_transition
refused = (refl, refl)

-- A season that is moved on by `advance_status` alone has no achievements.
none_without_close : (run_one coarse (advance 1 ended) store).achievements ≡ []
unfolding run_one advance_status get_season check_transition allowed_transition set_status
none_without_close = refl

-- With two players at the same rating, a second run in the other order awards TOP_1 twice.
abbrev tied : Store coarse
tied = record store { player_seasons = row 1 1 1500 12 false ∷ row 2 1 1500 20 false ∷ [] }

abbrev by_player_down : List (PlayerSeason coarse) → List (PlayerSeason coarse)
by_player_down = sort_by (λ a b. ltb_ℤ (pos b.player_id) (pos a.player_id))

abbrev by_cr_reversed : List (PlayerSeason coarse) → List (PlayerSeason coarse)
by_cr_reversed rows = by_cr (by_player_down rows)

awards_in : Store coarse → List (ℕ × ℕ)
awards_in s = map (λ a. (a.player_id, a.rank_value)) s.achievements

tied_twice :
    awards_in (run coarse (close by_cr 1 ∷ close by_cr_reversed 1 ∷ []) tied)
    ≡ (1, 1) ∷ (2, 2) ∷ (2, 1) ∷ (1, 2) ∷ []
unfolding awards_in run run_one close_season get_season ranked_rows limit where_rows sort_by
    award_all award_tier held_in is_held tier_in end_season set_status
tied_twice = refl
