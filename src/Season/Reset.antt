-- ===== src/Season/Reset.antt =====
-- `soft_reset` and `active_player_count` of backend/arena/services/season_service.py.
pub mod Laws
pub mod Carried
use arena_rank_project.Prelude.{
  ℕ, suc, ◌+◌, Bool, true, false, Option, none, some, List, [], ◌∷◌, ◌++◌, ◌&&◌, if◌then◌else◌, ltb,
  any, length,
}
use arena_rank_project.Prelude.{◌==◌ as nat_beq}
use arena_rank_project.Prelude.Int.{ℤ, pos}
use arena_rank_project.Floats.{Floats}
use arena_rank_project.Rating.Params.{RatingParams}
use arena_rank_project.Rating.Modifiers.{PlayerState}
use arena_rank_project.Rating.Modifiers.{soft_reset as engine_soft_reset}
use arena_rank_project.Season.Rows.{PlayerSeason, Store}
use arena_rank_project.Season.Close.{where_rows}

pub record SoftResetResult : Type 0 where
  pub from_season_id : ℕ
  pub to_season_id : ℕ
  pub players_carried : ℕ

module _ (fl : Floats) where
  abbrev pub state_of : PlayerSeason fl → PlayerState fl
  state_of prev = record {
    player_id = prev.player_id;
    mu = prev.mu;
    sigma = prev.sigma;
    cr = prev.cr;
    current_streak = prev.current_streak;
    matches_played = prev.matches_played;
    placement_matches_remaining = prev.placement_matches_remaining;
    peak_cr = prev.peak_cr;
  }

  abbrev pub fresh_row : ℕ → ℕ → PlayerState fl → PlayerSeason fl
  fresh_row pid to_season_id reset = record {
    player_id = pid;
    season_id = to_season_id;
    cr = reset.cr;
    mu = reset.mu;
    sigma = reset.sigma;
    matches_played = 0;
    placement_matches_remaining = reset.placement_matches_remaining;
    is_provisional = true;
    peak_cr = reset.peak_cr;
    current_streak = pos 0;
  }

  abbrev pub in_season : ℕ → PlayerSeason fl → Bool
  in_season sid row = nat_beq row.season_id sid

  abbrev pub played_in : ℕ → PlayerSeason fl → Bool
  played_in sid row = nat_beq row.season_id sid && ltb 0 row.matches_played

  -- `pid in already`, a set of the ids in the target season
  abbrev pub is_seeded : ℕ → List (PlayerSeason fl) → Bool
  is_seeded pid seeded = any (λ row. nat_beq row.player_id pid) seeded

  -- `active_player_count`
  unfoldable pub active_player_count : ℕ → Store fl → ℕ
  active_player_count sid store = length (where_rows fl (played_in sid) store.player_seasons)

  module _ (params : RatingParams fl) where
    -- The loop, as the rows that it adds; `players_carried` counts them.
    unfoldable pub carry_all :
        ℕ → List (PlayerSeason fl) → List (PlayerSeason fl) → List (PlayerSeason fl)
    carry_all to_season_id seeded [] = []
    carry_all to_season_id seeded (prev ∷ rows) =
        let rest = carry_all to_season_id seeded rows in
        if is_seeded prev.player_id seeded
        then rest
        else fresh_row prev.player_id to_season_id (engine_soft_reset fl (state_of prev) params)
          ∷ rest

    abbrev pub carried_rows : ℕ → ℕ → Store fl → List (PlayerSeason fl)
    carried_rows from_season_id to_season_id store =
        carry_all to_season_id (where_rows fl (in_season to_season_id) store.player_seasons)
          (where_rows fl (played_in from_season_id) store.player_seasons)

    unfoldable pub soft_reset : ℕ → ℕ → Store fl → SoftResetResult × Store fl
    soft_reset from_season_id to_season_id store =
        let carried = carried_rows from_season_id to_season_id store in
        (
          record {
            from_season_id = from_season_id;
            to_season_id = to_season_id;
            players_carried = length carried;
          },
          record store { player_seasons = store.player_seasons ++ carried },
        )
