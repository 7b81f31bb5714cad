-- ===== src/Season/Close.antt =====
-- `close_season` of backend/arena/services/season_service.py.
pub mod Laws
pub mod Again
pub mod Earned
use arena_rank_project.Prelude.{
  ℕ, zero, suc, ◌+◌, Bool, true, false, not, Option, none, some, List, [], ◌∷◌, ◌++◌, ◌&&◌,
  if◌then◌else◌, ltb, leb, any,
}
use arena_rank_project.Prelude.{◌==◌ as nat_beq}
use arena_rank_project.Prelude.Table.{Table, nat_eq, lookup_or, insert}
use arena_rank_project.Prelude.Result.{Result, ok, err, ◌>>=◌}
use arena_rank_project.Floats.{Floats}
use arena_rank_project.Season.Rows.{
  SeasonStatus, active, soft_lock, ended, off_season, Season, AchievementType, top, same_type,
  PlayerAchievement, SeasonTransitionError, PlayerSeason, Store, get_season, set_status,
}

-- The cutoff and the type of each tier; the third column is a label for display.
abbrev pub achievement_tiers : List (ℕ × AchievementType)
achievement_tiers = (1, top 1) ∷ (10, top 10) ∷ (50, top 50) ∷ (100, top 100) ∷ (500, top 500) ∷ []

abbrev pub max_rank : ℕ
max_rank = 500

unfoldable pub tier_in : ℕ → List (ℕ × AchievementType) → Option (ℕ × AchievementType)
tier_in rank [] = none
tier_in rank ((cutoff, atype) ∷ tiers) =
    if leb rank cutoff then some (cutoff, atype) else tier_in rank tiers

-- `_tier_for_rank`
abbrev pub tier_for_rank : ℕ → Option (ℕ × AchievementType)
tier_for_rank rank = tier_in rank achievement_tiers

abbrev pub Held : Type 0
Held = List (ℕ × AchievementType)

-- The pairs of the season's rows.
unfoldable pub held_in : ℕ → List PlayerAchievement → Held
held_in sid [] = []
held_in sid (a ∷ rows) =
    let rest = held_in sid rows in
    if nat_beq a.season_id sid then (a.player_id, a.achievement_type) ∷ rest else rest

-- `(str(player_id), atype) in held`
unfoldable pub is_held : ℕ → AchievementType → Held → Bool
is_held pid atype held = any (λ h. nat_beq h.0 pid && same_type h.1 atype) held

-- `LIMIT n`
unfoldable pub limit {ℓ} : {A : Type ℓ} → ℕ → List A → List A
limit zero xs = []
limit (suc n) [] = []
limit (suc n) (x ∷ xs) = x ∷ limit n xs

-- What the loop has added so far.
pub record Awards : Type 0 where
  pub added : List PlayerAchievement
  pub awarded_by_tier : Table ℕ ℕ
  pub total : ℕ

abbrev pub no_awards : Awards
no_awards = record { added = []; awarded_by_tier = []; total = 0 }

pub record CloseSeasonResult : Type 0 where
  pub season_id : ℕ
  pub achievements_awarded : ℕ
  pub awarded_by_tier : Table ℕ ℕ

-- The key of `awarded_by_tier` is the n of `TOP_n`.
abbrev pub number : AchievementType → ℕ
number (top n) = n

abbrev pub count_tier : AchievementType → Table ℕ ℕ → Table ℕ ℕ
count_tier atype d = insert (number atype) (lookup_or (number atype) 0 d + 1) d

abbrev pub new_achievement : ℕ → ℕ → AchievementType → ℕ → PlayerAchievement
new_achievement pid sid atype rank = record {
  player_id = pid;
  season_id = sid;
  achievement_type = atype;
  tier = atype;
  rank_value = rank;
}

abbrev pub add_award : ℕ → ℕ → AchievementType → ℕ → Awards → Awards
add_award pid sid atype rank w = record {
  added = w.added ++ (new_achievement pid sid atype rank ∷ []);
  awarded_by_tier = count_tier atype w.awarded_by_tier;
  total = w.total + 1;
}

-- The body of the loop for the player with a given rank, by the tier of the rank.
unfoldable pub award_tier : ℕ → Held → ℕ → ℕ → Awards → Option (ℕ × AchievementType) → Awards
award_tier sid held rank pid w none = w
award_tier sid held rank pid w (some tier) =
    if is_held pid tier.1 held then w else add_award pid sid tier.1 rank w

abbrev pub award : ℕ → Held → ℕ → ℕ → Awards → Awards
award sid held rank pid w = award_tier sid held rank pid w (tier_for_rank rank)

module _ (fl : Floats) where
  open fl use {Float}

  -- `for idx, (player_id, _cr) in enumerate(ranked)`
  unfoldable pub award_all : ℕ → Held → ℕ → List (PlayerSeason fl) → Awards → Awards
  award_all sid held idx [] w = w
  award_all sid held idx (row ∷ rows) w =
      award_all sid held (suc idx) rows (award sid held (idx + 1) row.player_id w)

  -- `if season.status is SeasonStatus.SOFT_LOCK: season.status = SeasonStatus.ENDED`
  unfoldable pub end_season : ℕ → SeasonStatus → Store fl → Store fl
  end_season sid active store = store
  end_season sid soft_lock store = set_status fl sid ended store
  end_season sid ended store = store
  end_season sid off_season store = store

  -- The query's `WHERE`.
  abbrev pub is_final : ℕ → PlayerSeason fl → Bool
  is_final sid row =
      nat_beq row.season_id sid && (not row.is_provisional && ltb 0 row.matches_played)

  unfoldable pub where_rows :
      (PlayerSeason fl → Bool) → List (PlayerSeason fl) → List (PlayerSeason fl)
  where_rows p [] = []
  where_rows p (row ∷ rows) = let rest = where_rows p rows in if p row then row ∷ rest else rest

  -- `session.add` of the loop, as one write
  abbrev pub with_added : List PlayerAchievement → Store fl → Store fl
  with_added added store = record store { achievements = store.achievements ++ added }

  -- The database's `ORDER BY cr DESC`, which may leave equal ratings in any order.
  module _ (order_by_cr : List (PlayerSeason fl) → List (PlayerSeason fl)) where
    unfoldable pub ranked_rows : ℕ → Store fl → List (PlayerSeason fl)
    ranked_rows sid store =
        limit max_rank (order_by_cr (where_rows (is_final sid) store.player_seasons))

    abbrev pub awards_of : ℕ → Store fl → Awards
    awards_of sid store =
        award_all sid (held_in sid store.achievements) 0 (ranked_rows sid store) no_awards

    unfoldable pub close_season :
        ℕ → Store fl → Result SeasonTransitionError (CloseSeasonResult × Store fl)
    close_season sid store = do
      season ← get_season fl sid store
      let w = awards_of sid store
      ok (
        record {
          season_id = sid;
          achievements_awarded = w.total;
          awarded_by_tier = w.awarded_by_tier;
        },
        end_season sid season.status (with_added w.added store),
      )
