-- ===== src/Season/Rows.antt =====
-- The rows that the season service reads and writes, of backend/arena/db/models.py, and what it raises.
use arena_rank_project.Prelude.{
  any, ◌&&◌, false, [], ◌∷◌, ℕ, ◌≡◌, refl, ap, sym, ◌∙◌, arith, inl, inr, Bool-cases, Bool, true,
  Option, none, some, List, map, find,
}
use arena_rank_project.Prelude.{◌==◌ as nat_beq, if◌then◌else◌}
use arena_rank_project.Prelude.Int.{ℤ}
use arena_rank_project.Prelude.Result.{Result, ok, err}
use arena_rank_project.Floats.{Floats}

pub data SeasonStatus : Type 0 where
  active soft_lock ended off_season : SeasonStatus

pub record Season : Type 0 where
  pub id : ℕ
  pub status : SeasonStatus

-- `top n` is the type `TOP_n`.
pub data AchievementType : Type 0 where
  top : ℕ → AchievementType

abbrev pub same_type : AchievementType → AchievementType → Bool
same_type (top m) (top n) = nat_beq m n

pub record PlayerAchievement : Type 0 where
  pub player_id : ℕ
  pub season_id : ℕ
  pub achievement_type : AchievementType
  pub tier : AchievementType
  pub rank_value : ℕ

-- `SeasonTransitionError`, by its message.
pub data SeasonTransitionError : Type 0 where
  not_found terminal not_adjacent : SeasonTransitionError

module _ (fl : Floats) where
  open fl use {Float}

  pub record PlayerSeason : Type 0 where
    pub player_id : ℕ
    pub season_id : ℕ
    pub cr : Float
    pub mu : Float
    pub sigma : Float
    pub matches_played : ℕ
    pub placement_matches_remaining : ℤ
    pub is_provisional : Bool
    pub peak_cr : Float
    pub current_streak : ℤ

  -- The unique constraint on `player_seasons`: one row for a player in a season.
  abbrev pub same_key : PlayerSeason → PlayerSeason → Bool
  same_key a b = nat_beq a.player_id b.player_id && nat_beq a.season_id b.season_id

  abbrev pub IsKeyed : List (PlayerSeason) → Type 0
  IsKeyed [] = Unit
  IsKeyed (row ∷ rows) = (any (same_key row) rows ≡ false) × IsKeyed rows

  pub record Store : Type 0 where
    pub seasons : List Season
    pub player_seasons : List PlayerSeason
    pub achievements : List PlayerAchievement

  found : Option Season → Result SeasonTransitionError Season
  found none = err not_found
  found (some season) = ok season

  abbrev has_id : ℕ → Season → Bool
  has_id sid season = nat_beq season.id sid

  -- `await self._get_season(session, season_id)`
  unfoldable pub get_season : ℕ → Store → Result SeasonTransitionError Season
  unfolding found
  get_season sid store = found (find (has_id sid) store.seasons)

  abbrev with_status : ℕ → SeasonStatus → Season → Season
  with_status sid status season = record season {
    status = if nat_beq season.id sid then status else season.status;
  }

  -- `season.status = status`, which the commit writes to the row.
  unfoldable pub set_status : ℕ → SeasonStatus → Store → Store
  set_status sid status store = record store {
    seasons = map (with_status sid status) store.seasons;
  }

  find-hit :
      (p : Season → Bool) (s : Season) (ss : List Season) → p s ≡ true → find p (s ∷ ss) ≡ some s
  find-hit p s ss e = rw e refl

  find-miss :
      (p : Season → Bool) (s : Season) (ss : List Season)
      → p s ≡ false
      → find p (s ∷ ss) ≡ find p ss
  find-miss p s ss e = rw e refl

  abbrev put : SeasonStatus → Option Season → Option Season
  put status none = none
  put status (some season) = some (record season { status = status })

  find-set_status :
      (sid : ℕ) (status : SeasonStatus) (seasons : List Season)
      → find (has_id sid) (map (with_status sid status) seasons)
        ≡ put status (find (has_id sid) seasons)
  find-set_status sid status [] = refl
  find-set_status sid status (s ∷ ss) = elim (Bool-cases (nat_beq s.id sid)) [
    | inl e ↦
        find-hit (has_id sid) (with_status sid status s) (map (with_status sid status) ss) e
        ∙ rw e refl
        ∙ ap (put status) (sym (find-hit (has_id sid) s ss e))
    | inr e ↦
        find-miss (has_id sid) (with_status sid status s) (map (with_status sid status) ss) e
        ∙ find-set_status sid status ss
        ∙ ap (put status) (sym (find-miss (has_id sid) s ss e))
  ]

  find-set_status_other :
      (sid j : ℕ) (status : SeasonStatus) (seasons : List Season)
      → nat_beq sid j ≡ false
      → find (has_id j) (map (with_status sid status) seasons) ≡ find (has_id j) seasons
  find-set_status_other sid j status [] h = refl
  find-set_status_other sid j status (s ∷ ss) h = elim (Bool-cases (nat_beq s.id j)) [
    | inl e ↦
        let e' : nat_beq s.id sid ≡ false = ground arith in
        find-hit (has_id j) (with_status sid status s) (map (with_status sid status) ss) e
        ∙ rw e' refl
        ∙ sym (find-hit (has_id j) s ss e)
    | inr e ↦
        find-miss (has_id j) (with_status sid status s) (map (with_status sid status) ss) e
        ∙ find-set_status_other sid j status ss h
        ∙ sym (find-miss (has_id j) s ss e)
  ]

  found-ok : (o : Option Season) {season : Season} → found o ≡ ok season → o ≡ some season
  unfolding found
  found-ok none h = cc
  found-ok (some s) h = cc

  -- What a lookup finds after a write of the status.
  pub get_season-set_status :
      (sid : ℕ) (status : SeasonStatus) (store : Store) {season : Season}
      → get_season sid store ≡ ok season
      → get_season sid (set_status sid status store) ≡ ok (record season { status = status })
  unfolding get_season set_status found
  get_season-set_status sid status store h =
      ap found (find-set_status sid status store.seasons ∙ ap (put status) (found-ok _ h))

  pub get_season-set_status_other :
      (sid j : ℕ) (status : SeasonStatus) (store : Store)
      → nat_beq sid j ≡ false
      → get_season j (set_status sid status store) ≡ get_season j store
  unfolding get_season set_status
  get_season-set_status_other sid j status store h =
      ap found (find-set_status_other sid j status store.seasons h)
