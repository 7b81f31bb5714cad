-- ===== src/Season/Reset/Carried.antt =====
-- Whom `soft_reset` carries, and a second reset.
use arena_rank_project.Prelude.{
  ℕ, suc, ◌≡◌, refl, sym, ap, ◌∙◌, subst, Bool, true, false, some, List, [], ◌∷◌, ◌++◌, arith,
  length, All, All-map, any, inl, inr, Bool-cases, append-nil, get_elem?, any-append,
}
use arena_rank_project.Floats.{Floats}
use arena_rank_project.Rating.Params.{RatingParams}
use arena_rank_project.Season.Rows.{PlayerSeason, Store, same_key, IsKeyed}
use arena_rank_project.Season.Close.{where_rows}
use arena_rank_project.Season.Reset.{
  in_season, played_in, is_seeded, carry_all, carried_rows, soft_reset, SoftResetResult,
}
use arena_rank_project.Season.Reset.Laws.{
  where_rows-append, where_rows_whole, IsFresh, carry_all-IsFresh, played_same, reset_row,
  carry_all-AllSeeded, carry_all_seeded,
}

module _ (fl : Floats) where
  IsKeyed-append :
      (xs ys : List (PlayerSeason fl))
      → IsKeyed fl xs
      → IsKeyed fl ys
      → All (λ y. any (same_key fl y) xs ≡ false) ys
      → IsKeyed fl (xs ++ ys)
  IsKeyed-append [] ys hx hy h = hy
  IsKeyed-append (x ∷ xs) ys hx hy h = (
    any-append (same_key fl x) xs ys
        ∙ rw hx.0 (none_like x ys (All-map _ _ ys (λ y k. ground (arith, k)) h)),
    IsKeyed-append xs ys hx.1 hy (All-map _ _ ys (λ y k. ground (arith, k)) h),
  )
    where
      none_like :
          (x : PlayerSeason fl) (ys : List (PlayerSeason fl))
          → All (λ y. same_key fl y x ≡ false) ys
          → any (same_key fl x) ys ≡ false
      none_like x [] h = refl
      none_like x (y ∷ ys) h = ground (arith, h.0, none_like x ys h.1)

  where_rows-any :
      (q p : PlayerSeason fl → Bool) (xs : List (PlayerSeason fl))
      → any q xs ≡ false
      → any q (where_rows fl p xs) ≡ false
  unfolding where_rows
  where_rows-any q p [] h = refl
  where_rows-any q p (x ∷ xs) h = elim (Bool-cases (p x)) [
    | inl e ↦ rw e (ground (arith, h, where_rows-any q p xs))
    | inr e ↦ rw e (where_rows-any q p xs (ground (arith, h)))
  ]

  where_rows-IsKeyed :
      (p : PlayerSeason fl → Bool) (xs : List (PlayerSeason fl))
      → IsKeyed fl xs
      → IsKeyed fl (where_rows fl p xs)
  unfolding where_rows
  where_rows-IsKeyed p [] h = tt
  where_rows-IsKeyed p (x ∷ xs) h = elim (Bool-cases (p x)) [
    | inl e ↦ rw e (where_rows-any (same_key fl x) p xs h.0, where_rows-IsKeyed p xs h.1)
    | inr e ↦ rw e (where_rows-IsKeyed p xs h.1)
  ]

  where_hit :
      (p : PlayerSeason fl → Bool) (x : PlayerSeason fl) (xs : List (PlayerSeason fl))
      → p x ≡ true
      → where_rows fl p (x ∷ xs) ≡ x ∷ where_rows fl p xs
  unfolding where_rows
  where_hit p x xs e = rw e refl

  where_miss :
      (p : PlayerSeason fl → Bool) (x : PlayerSeason fl) (xs : List (PlayerSeason fl))
      → p x ≡ false
      → where_rows fl p (x ∷ xs) ≡ where_rows fl p xs
  unfolding where_rows
  where_miss p x xs e = rw e refl

  -- Who is not seeded has no row in the season.
  not_seeded :
      (to : ℕ) (row : PlayerSeason fl) (prior : List (PlayerSeason fl))
      → row.season_id ≡ to
      → is_seeded fl row.player_id (where_rows fl (in_season fl to) prior) ≡ false
      → any (same_key fl row) prior ≡ false
  not_seeded to row [] e h = refl
  not_seeded to row (x ∷ xs) e h = elim (Bool-cases (in_season fl to x)) [
    | inl b ↦
        let h' =
          subst (λ l. is_seeded fl row.player_id l ≡ false) (where_hit (in_season fl to) x xs b)
            h in
        ground (arith, h', not_seeded to row xs e)
    | inr b ↦
        let h' =
          subst (λ l. is_seeded fl row.player_id l ≡ false) (where_miss (in_season fl to) x xs b)
            h in
        ground (arith, h', b, e, not_seeded to row xs e h')
  ]

  -- The rows that a query selects meet its condition.
  where_rows_sound :
      (p : PlayerSeason fl → Bool) (xs : List (PlayerSeason fl))
      → All (λ x. p x ≡ true) (where_rows fl p xs)
  unfolding where_rows
  where_rows_sound p [] = tt
  where_rows_sound p (x ∷ xs) = elim (Bool-cases (p x)) [
    | inl e ↦ subst (All (λ x. p x ≡ true)) (sym (where_hit p x xs e)) (e, where_rows_sound p xs)
    | inr e ↦ subst (All (λ x. p x ≡ true)) (sym (where_miss p x xs e)) (where_rows_sound p xs)
  ]

  module _ (params : RatingParams fl) where
    abbrev carry : ℕ → List (PlayerSeason fl) → List (PlayerSeason fl) → List (PlayerSeason fl)
    carry = carry_all fl params

    -- The rows for two players differ if the players do.
    carry-any :
        (to : ℕ) (seeded rows : List (PlayerSeason fl)) (prev : PlayerSeason fl)
        → is_seeded fl prev.player_id rows ≡ false
        → any (same_key fl (reset_row fl params to prev)) (carry to seeded rows) ≡ false
    unfolding carry_all
    carry-any to seeded [] prev h = refl
    carry-any to seeded (r ∷ rows) prev h = elim (Bool-cases (is_seeded fl r.player_id seeded)) [
      | inl e ↦ rw e (carry-any to seeded rows prev (ground (arith, h)))
      | inr e ↦ rw e (ground (arith, h, carry-any to seeded rows prev))
    ]

    same_season :
        (from : ℕ) (row : PlayerSeason fl) (rows : List (PlayerSeason fl))
        → row.season_id ≡ from
        → All (λ r. r.season_id ≡ from) rows
        → any (same_key fl row) rows ≡ false
        → is_seeded fl row.player_id rows ≡ false
    same_season from row [] e hs h = refl
    same_season from row (r ∷ rows) e hs h =
        ground (arith, e, hs.0, h, same_season from row rows e hs.1)

    carry-IsKeyed :
        (from to : ℕ) (seeded rows : List (PlayerSeason fl))
        → All (λ r. r.season_id ≡ from) rows
        → IsKeyed fl rows
        → IsKeyed fl (carry to seeded rows)
    unfolding carry_all
    carry-IsKeyed from to seeded [] hs h = tt
    carry-IsKeyed from to seeded (r ∷ rows) hs h =
        elim (Bool-cases (is_seeded fl r.player_id seeded)) [
          | inl e ↦ rw e (carry-IsKeyed from to seeded rows hs.1 h.1)
          | inr e ↦ rw e (
            carry-any to seeded rows r (same_season from r rows hs.0 hs.1 h.0),
            carry-IsKeyed from to seeded rows hs.1 h.1,
          )
        ]

    -- The player was not seeded, and the row is the engine's reset of one that the query selected.
    abbrev pub IsCarried :
        ℕ → List (PlayerSeason fl) → List (PlayerSeason fl) → PlayerSeason fl → Type 0
    IsCarried to seeded rows row =
        (i : ℕ) × (prev : PlayerSeason fl) × (get_elem? rows i ≡ some prev)
        × (is_seeded fl prev.player_id seeded ≡ false)
        × (row ≡ reset_row fl params to prev)

    carry-IsCarried :
        (to : ℕ) (seeded rows : List (PlayerSeason fl))
        → All (IsCarried to seeded rows) (carry to seeded rows)
    unfolding carry_all
    carry-IsCarried to seeded [] = tt
    carry-IsCarried to seeded (r ∷ rows) =
        let later =
          All-map (IsCarried to seeded rows) (IsCarried to seeded (r ∷ rows)) (carry to seeded rows)
            (λ row (i, prev, at, new, is). (suc i, prev, at, new, is))
            (carry-IsCarried to seeded rows) in
        elim (Bool-cases (is_seeded fl r.player_id seeded)) [
          | inl e ↦ rw e later
          | inr e ↦ rw e ((0, r, refl, e, refl), later)
        ]

    not_in_prior :
        (to : ℕ) (rows prior : List (PlayerSeason fl))
        → All
            (λ y. any (same_key fl y) prior ≡ false)
            (carry to (where_rows fl (in_season fl to) prior) rows)
    not_in_prior to rows prior =
        let seeded = where_rows fl (in_season fl to) prior in
        All-map (IsCarried to seeded rows) (λ y. any (same_key fl y) prior ≡ false)
          (carry to seeded rows)
          (λ row (i, prev, at, new, is).
            subst (λ y. any (same_key fl y) prior ≡ false) (sym is)
              (not_seeded to (reset_row fl params to prev) prior refl new))
          (carry-IsCarried to seeded rows)

    seeded_after :
        (to : ℕ) (played prior : List (PlayerSeason fl))
        → (let seeded = where_rows fl (in_season fl to) prior in
            where_rows fl (in_season fl to) (prior ++ carry to seeded played)
            ≡ seeded ++ carry to seeded played)
    seeded_after to played prior =
        let seeded = where_rows fl (in_season fl to) prior in
        where_rows-append fl (in_season fl to) prior (carry to seeded played)
        ∙ ap (λ l. seeded ++ l)
            (where_rows_whole fl (in_season fl to) (carry to seeded played) (
              All-map (IsFresh fl params to) (λ x. in_season fl to x ≡ true)
                (carry to seeded played) (λ row h. ground (arith, h.0))
                (carry_all-IsFresh fl params to seeded played)))

    carried_again :
        (from to : ℕ) (store : Store fl)
        → carried_rows fl params from to (soft_reset fl params from to store).1 ≡ []
    unfolding soft_reset
    carried_again from to store =
        let prior = store.player_seasons in
        let played = where_rows fl (played_in fl from) prior in
        let seeded = where_rows fl (in_season fl to) prior in
        ap (λ l. carry to l (where_rows fl (played_in fl from) (prior ++ carry to seeded played)))
          (seeded_after to played prior)
        ∙ ap (carry to (seeded ++ carry to seeded played))
            (played_same fl params from to seeded played prior)
        ∙ carry_all_seeded fl params to (seeded ++ carry to seeded played) played
            (carry_all-AllSeeded fl params to seeded played)

    -- A season reset keeps to one row for a player in a season.
    pub soft_reset-IsKeyed :
        (from to : ℕ) (store : Store fl)
        → IsKeyed fl store.player_seasons
        → IsKeyed fl (soft_reset fl params from to store).1.player_seasons
    unfolding soft_reset
    soft_reset-IsKeyed from to store h =
        let prior = store.player_seasons in
        let played = where_rows fl (played_in fl from) prior in
        let of_from =
          All-map _ (λ r. r.season_id ≡ from) played (λ r e. ground (arith, e))
            (where_rows_sound (played_in fl from) prior) in
        IsKeyed-append prior _ h
          (carry-IsKeyed from to (where_rows fl (in_season fl to) prior) played of_from
            (where_rows-IsKeyed (played_in fl from) prior h))
          (not_in_prior to played prior)

    -- Carrying the players over again carries no one and leaves the database as it is.
    pub soft_reset_again :
        (from to : ℕ) (store : Store fl)
        → (let out = soft_reset fl params from to store in
            soft_reset fl params from to out.1
            ≡ (record { from_season_id = from; to_season_id = to; players_carried = 0 }, out.1))
    unfolding soft_reset
    soft_reset_again from to store =
        let first = (soft_reset fl params from to store).1 in
        let all_rows = first.player_seasons in
        let result : ℕ → List (PlayerSeason fl) → SoftResetResult × Store fl = λ n rows. (
          record { from_season_id = from; to_season_id = to; players_carried = n },
          record first { player_seasons = rows },
        ) in
        ap (λ l. result (length l) (all_rows ++ l)) (carried_again from to store)
        ∙ ap (result 0) (append-nil all_rows)
