-- ===== src/Processing/StateBefore.antt =====
-- `state_before_to_json` and `apply_state_before` of backend/arena/services/rating_service.py: the restore
-- point of a match.
use arena_rank_project.Prelude.{◌≡◌, refl, sym, some, none, Option}
use arena_rank_project.Prelude.Int.{pos, ltb_ℤ}
use arena_rank_project.Prelude.Table.{nat_eq}
use arena_rank_project.Prelude.Result.{Result, ok, err, ◌>>=◌}
use arena_rank_project.Floats.{Floats}
use arena_rank_project.Rating.Params.{RatingParams}
use arena_rank_project.Rating.Modifiers.{three}
use arena_rank_project.Season.Rows.{PlayerSeason}
use arena_rank_project.Processing.Rows.{Snapshot}

-- What `apply_state_before` raises.
pub data RestoreError : Type 0 where
  key_error : RestoreError

module _ (fl : Floats) where
  open fl use {Float, add, sub, mul}

  unfoldable pub state_before_to_json : PlayerSeason fl → Snapshot fl
  state_before_to_json ps = record {
    mu = some ps.mu;
    sigma = some ps.sigma;
    current_streak = some ps.current_streak;
    matches_played = some ps.matches_played;
    placement_matches_remaining = some ps.placement_matches_remaining;
    peak_cr = some ps.peak_cr;
  }

  -- `snapshot[key]`
  abbrev get {ℓ} : {A : Type ℓ} → Option A → Result RestoreError A
  get none = err key_error
  get (some a) = ok a

  -- `base_offset + (mu - 3.0 * sigma) * scale_factor`
  abbrev pub rating_of : RatingParams fl → Float → Float → Float
  rating_of params mu sigma =
      add params.base_offset (mul (sub mu (mul (three fl) sigma)) params.scale_factor)

  -- The row is written only once no key is missing.
  unfoldable pub apply_state_before :
      RatingParams fl → PlayerSeason fl → Snapshot fl → Result RestoreError (PlayerSeason fl)
  apply_state_before params ps snapshot = do
    mu ← get snapshot.mu
    sigma ← get snapshot.sigma
    current_streak ← get snapshot.current_streak
    matches_played ← get snapshot.matches_played
    placement_matches_remaining ← get snapshot.placement_matches_remaining
    peak_cr ← get snapshot.peak_cr
    ok record {
      player_id = ps.player_id;
      season_id = ps.season_id;
      cr = rating_of params mu sigma;
      mu = mu;
      sigma = sigma;
      matches_played = matches_played;
      placement_matches_remaining = placement_matches_remaining;
      is_provisional = ltb_ℤ (pos 0) placement_matches_remaining;
      peak_cr = peak_cr;
      current_streak = current_streak;
    }

  -- Whatever was played since, the restore point of a row gives the row back, provided that its rating was the
  -- one that the formula gives for mu and sigma, and that it was provisional just while placements were left.
  pub apply_state_before-state_before_to_json :
      (params : RatingParams fl) (ps later : PlayerSeason fl)
      → later.player_id ≡ ps.player_id
      → later.season_id ≡ ps.season_id
      → ps.cr ≡ rating_of params ps.mu ps.sigma
      → ps.is_provisional ≡ ltb_ℤ (pos 0) ps.placement_matches_remaining
      → apply_state_before params later (state_before_to_json ps) ≡ ok ps
  unfolding apply_state_before state_before_to_json
  apply_state_before-state_before_to_json params ps later player season rating provisional =
      rw (player, season, sym rating, sym provisional) refl
