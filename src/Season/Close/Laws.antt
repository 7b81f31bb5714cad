-- ===== src/Season/Close/Laws.antt =====
-- Lemmas on the loop of `close_season`.
use arena_rank_project.Prelude.{
  append-nil, append_assoc, ℕ, suc, ◌+◌, ◌≡◌, refl, sym, ap, ◌∙◌, subst, Bool, true, Option, none,
  some, List, [], ◌∷◌, ◌++◌, arith, if◌then◌else◌, ◌||◌, inl, inr, Bool-cases,
}
use arena_rank_project.Prelude.{◌==◌ as nat_beq}
use arena_rank_project.Prelude.Table.{nat_eq}
use arena_rank_project.Prelude.Result.{ok}
use arena_rank_project.Floats.{Floats}
use arena_rank_project.Season.Rows.{
  SeasonStatus, active, soft_lock, ended, off_season, Season, AchievementType, top, same_type,
  PlayerAchievement, PlayerSeason, Store, get_season, set_status, get_season-set_status,
}
use arena_rank_project.Season.Close.{
  tier_for_rank, Held, held_in, is_held, Awards, new_achievement, award_tier, award_all, end_season,
}

held_in-append :
    (sid : ℕ) (xs ys : List PlayerAchievement)
    → held_in sid (xs ++ ys) ≡ held_in sid xs ++ held_in sid ys
unfolding held_in
held_in-append sid [] ys = refl
held_in-append sid (a ∷ xs) ys = elim (Bool-cases (nat_beq a.season_id sid)) [
  | inl e ↦ rw e (ap (λ l. (a.player_id, a.achievement_type) ∷ l) (held_in-append sid xs ys))
  | inr e ↦ rw e (held_in-append sid xs ys)
]

is_held-append :
    (pid : ℕ) (t : AchievementType) (xs ys : Held)
    → is_held pid t (xs ++ ys) ≡ (is_held pid t xs || is_held pid t ys)
unfolding is_held
is_held-append pid t [] ys = refl
is_held-append pid t (x ∷ xs) ys = ground (arith, is_held-append pid t xs ys)

same_type_self : (t : AchievementType) → same_type t t ≡ true
same_type_self (top n) = ground arith

-- The player holds the tier, if there is one.
abbrev pub honor_of : Option (ℕ × AchievementType) → ℕ → Held → Bool
honor_of none pid held = true
honor_of (some tier) pid held = is_held pid tier.1 held

held_after : ℕ → List PlayerAchievement → Awards → Held
held_after sid prior w = held_in sid (prior ++ w.added)

-- What is held stays held.
is_held_more :
    (sid pid : ℕ) (t : AchievementType) (xs ys : List PlayerAchievement)
    → is_held pid t (held_in sid xs) ≡ true
    → is_held pid t (held_in sid (xs ++ ys)) ≡ true
is_held_more sid pid t xs ys h =
    ap (is_held pid t) (held_in-append sid xs ys)
    ∙ is_held-append pid t (held_in sid xs) (held_in sid ys)
    ∙ rw h refl

held_new :
    (sid pid rank : ℕ) (t : AchievementType)
    → is_held pid t (held_in sid (new_achievement pid sid t rank ∷ [])) ≡ true
unfolding held_in is_held
held_new sid pid rank t = ground (arith, same_type_self t)

honor_of_more :
    (o : Option (ℕ × AchievementType)) (sid pid : ℕ) (xs ys : List PlayerAchievement)
    → honor_of o pid (held_in sid xs) ≡ true
    → honor_of o pid (held_in sid (xs ++ ys)) ≡ true
honor_of_more none sid pid xs ys h = refl
honor_of_more (some t) sid pid xs ys h = is_held_more sid pid t.1 xs ys h

is_held_split :
    (sid pid : ℕ) (t : AchievementType) (xs ys : List PlayerAchievement)
    → is_held pid t (held_in sid (xs ++ ys))
      ≡ (is_held pid t (held_in sid xs) || is_held pid t (held_in sid ys))
is_held_split sid pid t xs ys =
    ap (is_held pid t) (held_in-append sid xs ys)
    ∙ is_held-append pid t (held_in sid xs) (held_in sid ys)

honor_of_mid :
    (o : Option (ℕ × AchievementType)) (sid pid : ℕ) (xs ys zs : List PlayerAchievement)
    → honor_of o pid (held_in sid (xs ++ zs)) ≡ true
    → honor_of o pid (held_in sid (xs ++ (ys ++ zs))) ≡ true
honor_of_mid none sid pid xs ys zs h = refl
honor_of_mid (some t) sid pid xs ys zs h = ground (
  arith,
  is_held_split sid pid t.1 xs zs,
  is_held_split sid pid t.1 xs (ys ++ zs),
  is_held_split sid pid t.1 ys zs,
)

-- The rows that one award adds.
abbrev pub added_by : ℕ → Held → ℕ → ℕ → Option (ℕ × AchievementType) → List PlayerAchievement
added_by sid held rank pid none = []
added_by sid held rank pid (some tier) =
    if is_held pid tier.1 held then [] else new_achievement pid sid tier.1 rank ∷ []

pub award_tier-added :
    (o : Option (ℕ × AchievementType)) (sid : ℕ) (held : Held) (rank pid : ℕ) (w : Awards)
    → (award_tier sid held rank pid w o).added ≡ w.added ++ added_by sid held rank pid o
unfolding award_tier
award_tier-added none sid held rank pid w = sym (append-nil w.added)
award_tier-added (some t) sid held rank pid w = elim (Bool-cases (is_held pid t.1 held)) [
  | inl e ↦ rw e (sym (append-nil w.added))
  | inr e ↦ rw e refl
]

added_by-honors :
    (o : Option (ℕ × AchievementType)) (sid rank pid : ℕ) (prior : List PlayerAchievement)
    → honor_of o pid (held_in sid (prior ++ added_by sid (held_in sid prior) rank pid o)) ≡ true
added_by-honors none sid rank pid prior = refl
added_by-honors (some t) sid rank pid prior =
    elim (Bool-cases (is_held pid t.1 (held_in sid prior))) [
      | inl e ↦ is_held_more sid pid t.1 prior _ e
      | inr e ↦ rw e (
          ap (is_held pid t.1) (held_in-append sid prior _)
          ∙ is_held-append pid t.1 (held_in sid prior) _
          ∙ rw e (held_new sid pid rank t.1))
    ]

-- An award that is held already changes nothing.
award_tier_held :
    (o : Option (ℕ × AchievementType)) (sid : ℕ) (held : Held) (rank pid : ℕ) (w : Awards)
    → honor_of o pid held ≡ true
    → award_tier sid held rank pid w o ≡ w
unfolding award_tier
award_tier_held none sid held rank pid w h = refl
award_tier_held (some t) sid held rank pid w h = rw h refl

module _ (fl : Floats) where
  -- All the rows of a loop, as one list.
  abbrev pub added_all : ℕ → Held → ℕ → List (PlayerSeason fl) → List PlayerAchievement
  added_all sid held idx [] = []
  added_all sid held idx (row ∷ rows) =
      added_by sid held (idx + 1) row.player_id (tier_for_rank (idx + 1))
      ++ added_all sid held (suc idx) rows

  pub award_all-added :
      (sid : ℕ) (held : Held) (idx : ℕ) (rows : List (PlayerSeason fl)) (w : Awards)
      → (award_all fl sid held idx rows w).added ≡ w.added ++ added_all sid held idx rows
  unfolding award_all
  award_all-added sid held idx [] w = sym (append-nil w.added)
  award_all-added sid held idx (row ∷ rows) w =
      let o = tier_for_rank (idx + 1) in
      let w' = award_tier sid held (idx + 1) row.player_id w o in
      award_all-added sid held (suc idx) rows w'
      ∙ ap (λ l. l ++ added_all sid held (suc idx) rows)
          (award_tier-added o sid held (idx + 1) row.player_id w)
      ∙ append_assoc w.added (added_by sid held (idx + 1) row.player_id o)
          (added_all sid held (suc idx) rows)

  -- Everyone in the list, from a rank on, holds the tier of the rank.
  abbrev pub IsHonored : ℕ → List (PlayerSeason fl) → Held → Type 0
  IsHonored idx [] held = Unit
  IsHonored idx (row ∷ rows) held =
      (honor_of (tier_for_rank (idx + 1)) row.player_id held ≡ true) × IsHonored (suc idx) rows held

  IsHonored-mid :
      (sid idx : ℕ) (rows : List (PlayerSeason fl)) (xs ys zs : List PlayerAchievement)
      → IsHonored idx rows (held_in sid (xs ++ zs))
      → IsHonored idx rows (held_in sid (xs ++ (ys ++ zs)))
  IsHonored-mid sid idx [] xs ys zs h = tt
  IsHonored-mid sid idx (row ∷ rows) xs ys zs h =
      (honor_of_mid _ sid row.player_id xs ys zs h.0, IsHonored-mid sid (suc idx) rows xs ys zs h.1)

  pub added_all-IsHonored :
      (sid idx : ℕ) (rows : List (PlayerSeason fl)) (prior : List PlayerAchievement)
      → IsHonored idx rows (held_in sid (prior ++ added_all sid (held_in sid prior) idx rows))
  added_all-IsHonored sid idx [] prior = tt
  added_all-IsHonored sid idx (row ∷ rows) prior =
      let held = held_in sid prior in
      let first = added_by sid held (idx + 1) row.player_id (tier_for_rank (idx + 1)) in
      let later = added_all sid held (suc idx) rows in
      (
        subst (λ l. honor_of (tier_for_rank (idx + 1)) row.player_id (held_in sid l) ≡ true)
            (append_assoc prior first later)
            (honor_of_more _ sid row.player_id (prior ++ first) later
              (added_by-honors (tier_for_rank (idx + 1)) sid (idx + 1) row.player_id prior)),
        IsHonored-mid sid (suc idx) rows prior first later
            (added_all-IsHonored sid (suc idx) rows prior),
      )

  pub award_all_held :
      (sid : ℕ) (held : Held) (idx : ℕ) (rows : List (PlayerSeason fl)) (w : Awards)
      → IsHonored idx rows held
      → award_all fl sid held idx rows w ≡ w
  unfolding award_all
  award_all_held sid held idx [] w h = refl
  award_all_held sid held idx (row ∷ rows) w h =
      let o = tier_for_rank (idx + 1) in
      award_all_held sid held (suc idx) rows (award_tier sid held (idx + 1) row.player_id w o) h.1
      ∙ award_tier_held o sid held (idx + 1) row.player_id w h.0

  -- `end_season` writes the status only.
  pub end_season_rows :
      (sid : ℕ) (status : SeasonStatus) (store : Store fl)
      → ((end_season fl sid status store).player_seasons ≡ store.player_seasons)
        × ((end_season fl sid status store).achievements ≡ store.achievements)
  unfolding end_season set_status
  end_season_rows sid active store = (refl, refl)
  end_season_rows sid soft_lock store = (refl, refl)
  end_season_rows sid ended store = (refl, refl)
  end_season_rows sid off_season store = (refl, refl)

  -- The season that `end_season` leaves is not one that it would end.
  pub end_season_again :
      (sid : ℕ) (status : SeasonStatus) (store : Store fl) {season : Season}
      → get_season fl sid store ≡ ok season
      → season.status ≡ status
      → (season' : Season) × (get_season fl sid (end_season fl sid status store) ≡ ok season')
        × ((s : Store fl) → end_season fl sid season'.status s ≡ s)
  unfolding end_season
  end_season_again sid active store {season = season} h e = (season, h, λ s. rw e refl)
  end_season_again sid soft_lock store {season = season} h e =
      (record season { status = ended }, get_season-set_status fl sid ended store h, λ s. refl)
  end_season_again sid ended store {season = season} h e = (season, h, λ s. rw e refl)
  end_season_again sid off_season store {season = season} h e = (season, h, λ s. rw e refl)
