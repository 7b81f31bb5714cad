-- ===== src/Processing/Match/Keyed.antt =====
-- The unique constraint of the rating rows, across a match.
use arena_rank_project.Prelude.{
  ℕ, ◌≡◌, refl, sym, ap, ◌∙◌, subst, true, false, List, [], ◌∷◌, arith, any, ◌||◌, inl, inr,
  Bool-cases,
}
use arena_rank_project.Prelude.Table.{Table, nat_eq}
use arena_rank_project.Prelude.Result.{ok, ok_inj}
use arena_rank_project.Floats.{Floats}
use arena_rank_project.Season.Rows.{PlayerSeason, same_key, IsKeyed}
use arena_rank_project.Processing.Rows.{RawMatch, Database}
use arena_rank_project.Processing.Commit.{put_row, put_rows}
use arena_rank_project.Processing.Match.{
  Service, ProcessOutcome, is_already_processed, process_match,
}
use arena_rank_project.Processing.Match.Again.{
  process_new-Committed, process_match_new, process_match_old,
}

module _ (fl : Floats) where
  -- The unique constraint: a row that is written takes the place of the one with its key.
  put_row-any :
      (row ps : PlayerSeason fl) (rows : List (PlayerSeason fl))
      → same_key fl row ps ≡ false
      → any (same_key fl row) (put_row fl ps rows) ≡ any (same_key fl row) rows
  unfolding put_row
  put_row-any row ps [] h = rw h refl
  put_row-any row ps (r ∷ rows) h = elim (Bool-cases (same_key fl r ps)) [
    | inl e ↦ let other : same_key fl row r ≡ false = ground (arith, e, h) in rw (e, h, other) refl
    | inr e ↦ rw e (ap (λ b. same_key fl row r || b) (put_row-any row ps rows h))
  ]

  put_row-IsKeyed :
      (ps : PlayerSeason fl) (rows : List (PlayerSeason fl))
      → IsKeyed fl rows
      → IsKeyed fl (put_row fl ps rows)
  unfolding put_row
  put_row-IsKeyed ps [] h = (refl, tt)
  put_row-IsKeyed ps (r ∷ rows) h = elim (Bool-cases (same_key fl r ps)) [
    | inl e ↦ rw e (same_any r ps rows e ∙ h.0, h.1)
    | inr e ↦ rw e (put_row-any r ps rows e ∙ h.0, put_row-IsKeyed ps rows h.1)
  ]
    where
      same_any :
          (r ps : PlayerSeason fl) (rows : List (PlayerSeason fl))
          → same_key fl r ps ≡ true
          → any (same_key fl ps) rows ≡ any (same_key fl r) rows
      same_any r ps [] e = refl
      same_any r ps (x ∷ xs) e = ground (arith, e, same_any r ps xs e)

  put_rows-IsKeyed :
      (d : Table ℕ (PlayerSeason fl)) (rows : List (PlayerSeason fl))
      → IsKeyed fl rows
      → IsKeyed fl (put_rows fl d rows)
  unfolding put_rows
  put_rows-IsKeyed [] rows h = h
  put_rows-IsKeyed ((pid, ps) ∷ d) rows h =
      put_rows-IsKeyed d (put_row fl ps rows) (put_row-IsKeyed ps rows h)

  module _ (service : Service fl) where
    -- Processing a match keeps to one rating row for a player in a season.
    pub process_match-IsKeyed :
        (now : ℕ) (m : RawMatch) (db : Database fl) {out : ProcessOutcome × Database fl}
        → IsKeyed fl db.player_seasons
        → process_match fl service now m db ≡ ok out
        → IsKeyed fl out.1.player_seasons
    process_match-IsKeyed now m db keyed h =
        elim (Bool-cases (is_already_processed m.match_id m.riot_match_id db.matches)) [
          | inl e ↦
              subst (λ o. IsKeyed fl o.1.player_seasons)
                (ok_inj (sym (process_match_old fl service now m db e) ∙ h)) keyed
          | inr e ↦
              let (verdict, result, (played_at, snap_at, champ_stats, w, loop, is)) =
                process_new-Committed fl service now m db
                  (sym (process_match_new fl service now m db e) ∙ h) in
              subst (λ o. IsKeyed fl o.1.player_seasons) is
                (put_rows-IsKeyed w.states db.player_seasons keyed)
        ]
