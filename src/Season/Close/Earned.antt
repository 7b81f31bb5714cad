-- ===== src/Season/Close/Earned.antt =====
-- Who gets an achievement of `close_season`, and which.
use arena_rank_project.Prelude.{
  if◌then◌else◌, append_assoc, ℕ, zero, suc, ◌+◌, ◌-◌, ◌≤◌, ◌<◌, ◌≡◌, refl, sym, ap, ◌∙◌, subst,
  Option, none, some, List, [], ◌∷◌, ◌++◌, arith, length, length-append, All, All-append, ◌⊎◌, inl,
  inr, Bool-cases, get_elem?,
}
use arena_rank_project.Prelude.{◌==◌ as nat_beq}
use arena_rank_project.Prelude.Table.{lookup-insert, Table, nat_eq, insert, lookup_or}
use arena_rank_project.Prelude.Sort.{sum_by}
use arena_rank_project.Prelude.Result.{ok, >>=-eq-ok, ok_inj}
use arena_rank_project.Floats.{Floats}
use arena_rank_project.Season.Rows.{
  AchievementType, top, PlayerAchievement, PlayerSeason, Store, get_season,
}
use arena_rank_project.Season.Close.{
  count_tier, achievement_tiers, tier_in, tier_for_rank, Held, held_in, is_held, limit, max_rank,
  number, new_achievement, Awards, no_awards, award_tier, award_all, CloseSeasonResult, ranked_rows,
  awards_of, close_season, with_added,
}
use arena_rank_project.Season.Close.Laws.{
  IsHonored, added_by, added_all, added_all-IsHonored, award_all-added, end_season_rows,
}

-- The tier `TOP_n` admits the rank, and no tier with a smaller cutoff does.
abbrev pub IsBest : ℕ → ℕ → Type 0
IsBest rank n = (rank ≤ n) × All (λ tier. (tier.0 < rank) ⊎ (n ≤ tier.0)) achievement_tiers

tier_for_rank-IsBest :
    (rank : ℕ) (tier : ℕ × AchievementType)
    → tier_for_rank rank ≡ some tier
    → IsBest rank (number tier.1)
unfolding tier_in
tier_for_rank-IsBest rank (n, top m) h = ground arith

sum_insert :
    (k m : ℕ) (d : Table ℕ ℕ)
    → sum_by (λ e. e.1) (insert k m d) + lookup_or k 0 d ≡ sum_by (λ e. e.1) d + m
sum_insert k m [] = omega arith
sum_insert k m ((j, n) ∷ d) = elim (Bool-cases (nat_beq j k)) [
  | inl e ↦ rw (lookup_or, e) (omega arith)
  | inr e ↦ rw (lookup_or, e) (omega (arith, sum_insert k m d))
]

limit-length {ℓ} : {A : Type ℓ} (n : ℕ) (xs : List A) → length (limit n xs) ≤ n
unfolding limit
limit-length zero xs = omega arith
limit-length (suc n) [] = omega arith
limit-length (suc n) (x ∷ xs) = omega (arith, limit-length n xs)

get_elem?-mid {ℓ} :
    {A : Type ℓ} (xs : List A) (y : A) (zs : List A)
    → get_elem? (xs ++ (y ∷ zs)) (length xs) ≡ some y
get_elem?-mid [] y zs = refl
get_elem?-mid (x ∷ xs) y zs = get_elem?-mid xs y zs

-- How many of the achievements are of the tier `TOP_n`.
abbrev pub of_tier : ℕ → List PlayerAchievement → ℕ
of_tier n rows = sum_by (λ a. if nat_beq (number a.achievement_type) n then 1 else 0) rows

of_tier-append :
    (n : ℕ) (xs ys : List PlayerAchievement) → of_tier n (xs ++ ys) ≡ of_tier n xs + of_tier n ys
of_tier-append n [] ys = omega arith
of_tier-append n (x ∷ xs) ys = omega (arith, of_tier-append n xs ys)

lookup_or-insert :
    (k n v : ℕ) (d : Table ℕ ℕ)
    → lookup_or n 0 (insert k v d) ≡ (if nat_beq k n then v else lookup_or n 0 d)
lookup_or-insert k n v d = elim (Bool-cases (nat_beq k n)) [
  | inl e ↦ rw (lookup_or, lookup-insert k n v d, e) refl
  | inr e ↦ rw (lookup_or, lookup-insert k n v d, e) refl
]

-- The table has under each tier how many of the achievements are of it.
abbrev pub IsTally : Table ℕ ℕ → List PlayerAchievement → Type 0
IsTally d added = (n : ℕ) → lookup_or n 0 d ≡ of_tier n added

count_tier-IsTally :
    (d : Table ℕ ℕ) (added : List PlayerAchievement) (a : PlayerAchievement)
    → IsTally d added
    → IsTally (count_tier a.achievement_type d) (added ++ (a ∷ []))
count_tier-IsTally d added a h n =
    let k = number a.achievement_type in
    lookup_or-insert k n (lookup_or k 0 d + 1) d ∙ elim (Bool-cases (nat_beq k n)) [
      | inl e ↦
          let same : k ≡ n = ground arith in
          rw e (
            subst (λ j. lookup_or j 0 d + 1 ≡ of_tier n (added ++ (a ∷ []))) (sym same)
              (rw (of_tier-append n added (a ∷ []), e) (omega (arith, h n))))
      | inr e ↦ rw (e, of_tier-append n added (a ∷ []), e) (omega (arith, h n))
    ]

-- What the loop counts.
abbrev pub IsCounted : ℕ → Awards → Type 0
IsCounted n w =
    (w.total ≡ length w.added)
    × (sum_by (λ e. e.1) w.awarded_by_tier ≡ w.total)
    × IsTally w.awarded_by_tier w.added
    × (w.total ≤ n)

award_tier-IsCounted :
    (o : Option (ℕ × AchievementType)) (sid : ℕ) (held : Held) (rank pid n : ℕ) (w : Awards)
    → IsCounted n w
    → IsCounted (suc n) (award_tier sid held rank pid w o)
unfolding award_tier
award_tier-IsCounted none sid held rank pid n w h = (h.0, h.1, h.2, omega (arith, h.3))
award_tier-IsCounted (some t) sid held rank pid n w h = elim (Bool-cases (is_held pid t.1 held)) [
  | inl e ↦ rw e (h.0, h.1, h.2, omega (arith, h.3))
  | inr e ↦ rw e (
    omega (arith, h.0, length-append w.added (new_achievement pid sid t.1 rank ∷ [])),
    omega (
      arith,
      h.1,
      sum_insert (number t.1) (lookup_or (number t.1) 0 w.awarded_by_tier + 1) w.awarded_by_tier,
    ),
    count_tier-IsTally w.awarded_by_tier w.added (new_achievement pid sid t.1 rank) h.2,
    omega (arith, h.3),
  )
]

module _ (fl : Floats) where
  award_all-IsCounted :
      (sid : ℕ) (held : Held) (idx : ℕ) (rows : List (PlayerSeason fl)) (n : ℕ) (w : Awards)
      → IsCounted n w
      → IsCounted (n + length rows) (award_all fl sid held idx rows w)
  unfolding award_all
  award_all-IsCounted sid held idx [] n w h = (h.0, h.1, h.2, omega (arith, h.3))
  award_all-IsCounted sid held idx (row ∷ rows) n w h =
      let counted =
        award_all-IsCounted sid held (suc idx) rows (suc n)
          (award_tier sid held (idx + 1) row.player_id w (tier_for_rank (idx + 1)))
          (award_tier-IsCounted (tier_for_rank (idx + 1)) sid held (idx + 1) row.player_id n w h) in
      (counted.0, counted.1, counted.2, omega (arith, counted.3))

  -- The achievement is the best tier of the season's player at its rank.
  abbrev pub IsEarned : ℕ → List (PlayerSeason fl) → PlayerAchievement → Type 0
  IsEarned sid ranked a =
      (a.season_id ≡ sid)
      × IsBest a.rank_value (number a.achievement_type)
      × ((row : PlayerSeason fl) × (get_elem? ranked (a.rank_value - 1) ≡ some row)
          × (row.player_id ≡ a.player_id))

  added_by-IsEarned :
      (o : Option (ℕ × AchievementType)) (sid : ℕ) (held : Held) (idx : ℕ) (row : PlayerSeason fl)
      (ranked : List (PlayerSeason fl))
      → tier_for_rank (idx + 1) ≡ o
      → get_elem? ranked idx ≡ some row
      → All (IsEarned sid ranked) (added_by sid held (idx + 1) row.player_id o)
  added_by-IsEarned none sid held idx row ranked e found = tt
  added_by-IsEarned (some t) sid held idx row ranked e found =
      elim (Bool-cases (is_held row.player_id t.1 held)) [
        | inl b ↦ rw b tt
        | inr b ↦ rw b (
          (
            refl,
            tier_for_rank-IsBest (idx + 1) t e,
            (row, subst (λ i. get_elem? ranked i ≡ some row) (omega arith) found, refl),
          ),
          tt,
        )
      ]

  added_all-IsEarned :
      (sid : ℕ) (held : Held) (front rows : List (PlayerSeason fl))
      → All (IsEarned sid (front ++ rows)) (added_all fl sid held (length front) rows)
  added_all-IsEarned sid held front [] = tt
  added_all-IsEarned sid held front (row ∷ rows) =
      let idx = length front in
      All-append (IsEarned sid (front ++ (row ∷ rows)))
        (added_by sid held (idx + 1) row.player_id (tier_for_rank (idx + 1)))
        (added_all fl sid held (suc idx) rows)
        (added_by-IsEarned (tier_for_rank (idx + 1)) sid held idx row _ refl
          (get_elem?-mid front row rows))
        (subst (λ l. All (IsEarned sid l) (added_all fl sid held (suc idx) rows))
          (append_assoc front (row ∷ []) rows)
          (subst
            (λ i. All (IsEarned sid ((front ++ (row ∷ [])) ++ rows)) (added_all fl sid held i rows))
            (omega (arith, length-append front (row ∷ [])))
            (added_all-IsEarned sid held (front ++ (row ∷ [])) rows)))

module _ (fl : Floats) (order_by_cr : List (PlayerSeason fl) → List (PlayerSeason fl)) where
  few_ranked :
      (sid : ℕ) (store : Store fl) → length (ranked_rows fl order_by_cr sid store) ≤ max_rank
  unfolding ranked_rows
  few_ranked sid store = limit-length max_rank _

  abbrev pub IsClosed : ℕ → Store fl → CloseSeasonResult × Store fl → Type 0
  IsClosed sid store out =
      IsHonored fl 0 (ranked_rows fl order_by_cr sid store) (held_in sid out.1.achievements)
      × ((added : List PlayerAchievement) × (out.1.achievements ≡ store.achievements ++ added)
          × All (IsEarned fl sid (ranked_rows fl order_by_cr sid store)) added
          × (length added ≡ out.0.achievements_awarded)
          × (sum_by (λ e. e.1) out.0.awarded_by_tier ≡ out.0.achievements_awarded)
          × IsTally out.0.awarded_by_tier added
          × (out.0.achievements_awarded ≤ max_rank))
      × (out.1.player_seasons ≡ store.player_seasons)

  -- When a season is closed, each of the at most 500 ranked players holds the tier of the rank. What was
  -- awarded before stays, and each achievement that is new is of the season, stands at the rank of its
  -- player, and has the smallest cutoff that admits the rank. The counts that are returned are
  -- the number of new ones in all and, for each tier, the number of new ones of that tier; the counts by tier
  -- add up to that in all. No row of a player changes.
  pub close_season-IsEarned :
      (sid : ℕ) (store : Store fl) {out : CloseSeasonResult × Store fl}
      → close_season fl order_by_cr sid store ≡ ok out
      → IsClosed sid store out
  unfolding close_season
  close_season-IsEarned sid store {out = out} h =
      let (season, e, h') = >>=-eq-ok (get_season fl sid store) _ h in
      let rows = ranked_rows fl order_by_cr sid store in
      let held = held_in sid store.achievements in
      let w = awards_of fl order_by_cr sid store in
      let (same_rows, same_achievements) =
        end_season_rows fl sid season.status (with_added fl w.added store) in
      let is_added : w.added ≡ added_all fl sid held 0 rows =
        award_all-added fl sid held 0 rows no_awards in
      let counted =
        award_all-IsCounted fl sid held 0 rows 0 no_awards (refl, refl, λ n. refl, omega arith) in
      subst (IsClosed sid store) (ok_inj h') (
        subst (λ l. IsHonored fl 0 rows (held_in sid l))
            (ap (λ l. store.achievements ++ l) (sym is_added) ∙ sym same_achievements)
            (added_all-IsHonored fl sid 0 rows store.achievements),
        (
          w.added,
          same_achievements,
          subst (All (IsEarned fl sid rows)) (sym is_added)
              (added_all-IsEarned fl sid held [] rows),
          sym counted.0,
          counted.1,
          counted.2,
          omega (arith, counted.3, few_ranked sid store),
        ),
        same_rows,
      )
