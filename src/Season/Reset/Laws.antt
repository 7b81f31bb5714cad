-- ===== src/Season/Reset/Laws.antt =====
-- Lemmas on the loop of `soft_reset`.
use arena_rank_project.Prelude.{
  append-nil, any-append, ℕ, ◌≡◌, refl, sym, ap, ◌∙◌, subst, Bool, true, false, List, [], ◌∷◌, ◌++◌,
  arith, All, All-map, ◌||◌, inl, inr, Bool-cases,
}
use arena_rank_project.Prelude.{◌==◌ as nat_beq}
use arena_rank_project.Floats.{Floats}
use arena_rank_project.Rating.Params.{RatingParams}
use arena_rank_project.Rating.Modifiers.{soft_reset as engine_soft_reset}
use arena_rank_project.Season.Rows.{PlayerSeason}
use arena_rank_project.Season.Close.{where_rows}
use arena_rank_project.Season.Reset.{state_of, fresh_row, played_in, is_seeded, carry_all}

module _ (fl : Floats) where
  pub where_rows-append :
      (p : PlayerSeason fl → Bool) (xs ys : List (PlayerSeason fl))
      → where_rows fl p (xs ++ ys) ≡ where_rows fl p xs ++ where_rows fl p ys
  unfolding where_rows
  where_rows-append p [] ys = refl
  where_rows-append p (x ∷ xs) ys = elim (Bool-cases (p x)) [
    | inl e ↦ rw e (ap (λ l. x ∷ l) (where_rows-append p xs ys))
    | inr e ↦ rw e (where_rows-append p xs ys)
  ]

  where_rows-none :
      (p : PlayerSeason fl → Bool) (xs : List (PlayerSeason fl))
      → All (λ x. p x ≡ false) xs
      → where_rows fl p xs ≡ []
  unfolding where_rows
  where_rows-none p [] h = refl
  where_rows-none p (x ∷ xs) h = rw h.0 (where_rows-none p xs h.1)

  pub where_rows_whole :
      (p : PlayerSeason fl → Bool) (xs : List (PlayerSeason fl))
      → All (λ x. p x ≡ true) xs
      → where_rows fl p xs ≡ xs
  unfolding where_rows
  where_rows_whole p [] h = refl
  where_rows_whole p (x ∷ xs) h = rw h.0 (ap (λ l. x ∷ l) (where_rows_whole p xs h.1))

  pub where_rows-All :
      (p : PlayerSeason fl → Bool) (P : PlayerSeason fl → Type 0) (xs : List (PlayerSeason fl))
      → All P xs
      → All P (where_rows fl p xs)
  unfolding where_rows
  where_rows-All p P [] h = tt
  where_rows-All p P (x ∷ xs) h = elim (Bool-cases (p x)) [
    | inl e ↦ rw e (h.0, where_rows-All p P xs h.1)
    | inr e ↦ rw e (where_rows-All p P xs h.1)
  ]

  module _ (params : RatingParams fl) where
    -- A row that the reset added: of the target season, not played yet.
    abbrev pub IsFresh : ℕ → PlayerSeason fl → Type 0
    IsFresh to row = (row.season_id ≡ to) × (row.matches_played ≡ 0)

    pub carry_all-IsFresh :
        (to : ℕ) (seeded rows : List (PlayerSeason fl))
        → All (IsFresh to) (carry_all fl params to seeded rows)
    unfolding carry_all
    carry_all-IsFresh to seeded [] = tt
    carry_all-IsFresh to seeded (prev ∷ rows) =
        elim (Bool-cases (is_seeded fl prev.player_id seeded)) [
          | inl e ↦ rw e (carry_all-IsFresh to seeded rows)
          | inr e ↦ rw e ((refl, refl), carry_all-IsFresh to seeded rows)
        ]

    -- A reset adds no one who has played, in any season.
    pub played_same :
        (sid to : ℕ) (seeded rows prior : List (PlayerSeason fl))
        → where_rows fl (played_in fl sid) (prior ++ carry_all fl params to seeded rows)
          ≡ where_rows fl (played_in fl sid) prior
    played_same sid to seeded rows prior =
        where_rows-append (played_in fl sid) prior (carry_all fl params to seeded rows)
        ∙ ap (λ l. where_rows fl (played_in fl sid) prior ++ l)
            (where_rows-none (played_in fl sid) _ (
              All-map (IsFresh to) _ (carry_all fl params to seeded rows)
                (λ row h. ground (arith, h.1)) (carry_all-IsFresh to seeded rows)))
        ∙ append-nil _

    -- Everyone in the list is seeded after the reset.
    abbrev pub AllSeeded : List (PlayerSeason fl) → List (PlayerSeason fl) → Type 0
    AllSeeded rows seeded = All (λ row. is_seeded fl row.player_id seeded ≡ true) rows

    is_seeded-append :
        (pid : ℕ) (xs ys : List (PlayerSeason fl))
        → is_seeded fl pid (xs ++ ys) ≡ (is_seeded fl pid xs || is_seeded fl pid ys)
    is_seeded-append pid xs ys = any-append (λ r. nat_beq r.player_id pid) xs ys

    seeded_mid :
        (rows xs ys zs : List (PlayerSeason fl))
        → AllSeeded rows (xs ++ zs)
        → AllSeeded rows (xs ++ (ys ++ zs))
    seeded_mid [] xs ys zs h = tt
    seeded_mid (row ∷ rows) xs ys zs h = (
      is_seeded-append row.player_id xs (ys ++ zs)
          ∙ ground (
            arith,
            h.0,
            is_seeded-append row.player_id xs zs,
            is_seeded-append row.player_id ys zs,
          ),
      seeded_mid rows xs ys zs h.1,
    )

    pub carry_hit :
        (to : ℕ) (seeded rows : List (PlayerSeason fl)) (prev : PlayerSeason fl)
        → is_seeded fl prev.player_id seeded ≡ true
        → carry_all fl params to seeded (prev ∷ rows) ≡ carry_all fl params to seeded rows
    unfolding carry_all
    carry_hit to seeded rows prev h = rw h refl

    abbrev pub reset_row : ℕ → PlayerSeason fl → PlayerSeason fl
    reset_row to prev =
        fresh_row fl prev.player_id to (engine_soft_reset fl (state_of fl prev) params)

    pub carry_miss :
        (to : ℕ) (seeded rows : List (PlayerSeason fl)) (prev : PlayerSeason fl)
        → is_seeded fl prev.player_id seeded ≡ false
        → carry_all fl params to seeded (prev ∷ rows)
          ≡ reset_row to prev ∷ carry_all fl params to seeded rows
    unfolding carry_all
    carry_miss to seeded rows prev h = rw h refl

    is_seeded-reset_row :
        (to : ℕ) (prev : PlayerSeason fl) (xs ys : List (PlayerSeason fl))
        → is_seeded fl prev.player_id (xs ++ (reset_row to prev ∷ ys)) ≡ true
    is_seeded-reset_row to prev xs ys =
        is_seeded-append prev.player_id xs (reset_row to prev ∷ ys) ∙ ground arith

    pub carry_all-AllSeeded :
        (to : ℕ) (seeded rows : List (PlayerSeason fl))
        → AllSeeded rows (seeded ++ carry_all fl params to seeded rows)
    carry_all-AllSeeded to seeded [] = tt
    carry_all-AllSeeded to seeded (prev ∷ rows) =
        let rest = carry_all fl params to seeded rows in
        elim (Bool-cases (is_seeded fl prev.player_id seeded)) [
          | inl e ↦
              subst (λ l. AllSeeded (prev ∷ rows) (seeded ++ l))
                (sym (carry_hit to seeded rows prev e))
                (
                  is_seeded-append prev.player_id seeded rest ∙ rw e refl,
                  carry_all-AllSeeded to seeded rows,
                )
          | inr e ↦
              subst (λ l. AllSeeded (prev ∷ rows) (seeded ++ l))
                (sym (carry_miss to seeded rows prev e))
                (
                  is_seeded-reset_row to prev seeded rest,
                  seeded_mid rows seeded (reset_row to prev ∷ []) rest
                      (carry_all-AllSeeded to seeded rows),
                )
        ]

    pub carry_all_seeded :
        (to : ℕ) (seeded rows : List (PlayerSeason fl))
        → AllSeeded rows seeded
        → carry_all fl params to seeded rows ≡ []
    unfolding carry_all
    carry_all_seeded to seeded [] h = refl
    carry_all_seeded to seeded (prev ∷ rows) h = rw h.0 (carry_all_seeded to seeded rows h.1)
