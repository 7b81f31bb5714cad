-- ===== src/Processing/Match/Sound.antt =====
-- What holds of all the rating rows, before and after a match, and before and after a season reset.
use arena_rank_project.Prelude.{
  ℕ, ◌<◌, ◌≡◌, refl, sym, ◌∙◌, subst, false, not, List, [], ◌∷◌, arith, map, All, All-append, ◌&&◌,
  inl, inr, Bool-cases, if_intro,
}
use arena_rank_project.Prelude.Int.{pos, ltb_ℤ}
use arena_rank_project.Prelude.Table.{Table, nat_eq, insert-All}
use arena_rank_project.Prelude.Result.{ok, >>=-eq-ok, ok_inj}
use arena_rank_project.Floats.{Floats, IsOrdered}
use arena_rank_project.Rating.Params.{RatingParams}
use arena_rank_project.Rating.Modifiers.{soft_reset as engine_soft_reset}
use arena_rank_project.Rating.Engine.{PlayerRatingResult}
use arena_rank_project.Locks.{lock_order}
use arena_rank_project.Season.Rows.{PlayerSeason, Store, same_key}
use arena_rank_project.Season.Reset.{soft_reset, carry_all, is_seeded}
use arena_rank_project.Processing.Rows.{RawParticipant, RawMatch, Database}
use arena_rank_project.Processing.Persist.{
  get_item, Work, Context, persist_player, persist_players, counted, documented, update_row,
}
use arena_rank_project.Processing.Commit.{put_row, put_rows}
use arena_rank_project.Processing.Inputs.{fresh_player, load_state, load_states}
use arena_rank_project.Processing.Match.{
  Service, ProcessOutcome, is_already_processed, process_match, context_of, work_of,
}
use arena_rank_project.Processing.Match.Again.{
  process_new-Committed, process_match_new, process_match_old, loaded,
}

module _ (fl : Floats) (ord : IsOrdered fl) where
  open fl use {Float, lt}
  open ord use {lt_irrefl}

  -- A row is provisional just while placement matches are left, and its rating is at most its peak.
  abbrev pub IsSound : PlayerSeason fl → Type 0
  IsSound ps =
      (ps.is_provisional ≡ ltb_ℤ (pos 0) ps.placement_matches_remaining)
      × (lt ps.peak_cr ps.cr ≡ false)

  update_row-IsSound :
      (pr : PlayerRatingResult fl) (ps : PlayerSeason fl) → IsSound (update_row fl pr ps)
  unfolding update_row
  update_row-IsSound pr ps = (refl, ground (arith, lt_irrefl pr.cr_after))

  module _ (params : RatingParams fl) (placements : 0 < params.placement_match_count) where
    load_state-IsSound :
        (sid pid : ℕ) (rows : List (PlayerSeason fl))
        → All IsSound rows
        → IsSound (load_state fl params sid pid rows)
    unfolding load_state fresh_player
    load_state-IsSound sid pid [] h = (ground (arith, placements), lt_irrefl _)
    load_state-IsSound sid pid (row ∷ rows) h =
        if_intro IsSound _ row (load_state fl params sid pid rows) (λ e. h.0)
          (λ e. load_state-IsSound sid pid rows h.1)

    load_states-IsSound :
        (sid : ℕ) (rows : List (PlayerSeason fl)) (pids : List ℕ)
        → All IsSound rows
        → All (λ e. IsSound e.1) (load_states fl params sid rows pids)
    unfolding load_states
    load_states-IsSound sid rows [] h = tt
    load_states-IsSound sid rows (pid ∷ pids) h =
        (load_state-IsSound sid pid rows h, load_states-IsSound sid rows pids h)

    carry_all-IsSound :
        (to : ℕ) (seeded rows : List (PlayerSeason fl))
        → All IsSound (carry_all fl params to seeded rows)
    unfolding carry_all engine_soft_reset
    carry_all-IsSound to seeded [] = tt
    carry_all-IsSound to seeded (prev ∷ rows) =
        elim (Bool-cases (is_seeded fl prev.player_id seeded)) [
          | inl e ↦ rw e (carry_all-IsSound to seeded rows)
          | inr e ↦
              rw e ((ground (arith, placements), lt_irrefl _), carry_all-IsSound to seeded rows)
        ]

    -- A season reset keeps every row sound.
    pub soft_reset-IsSound :
        (from to : ℕ) (store : Store fl)
        → All IsSound store.player_seasons
        → All IsSound (soft_reset fl params from to store).1.player_seasons
    unfolding soft_reset
    soft_reset-IsSound from to store h =
        All-append IsSound store.player_seasons _ h (carry_all-IsSound to _ _)

  persist_player-IsSound :
      (c : Context fl) (pr : PlayerRatingResult fl) (ps : PlayerSeason fl) (p : RawParticipant)
      (w : Work fl)
      → All (λ e. IsSound e.1) w.states
      → All (λ e. IsSound e.1) (persist_player fl c pr ps p w).states
  unfolding persist_player
  persist_player-IsSound c pr ps p w h =
      if_intro (λ v. All (λ e. IsSound e.1) v.states) (pr.eligible && not c.voided)
        (counted fl c pr ps p w) (documented fl c pr p w)
        (λ e. insert-All (λ e. IsSound e.1) pr.player_id _ w.states (update_row-IsSound pr ps) h)
        (λ e. h)

  persist_players-IsSound :
      (c : Context fl) (prs : List (PlayerRatingResult fl)) (w : Work fl) {w' : Work fl}
      → persist_players fl c prs w ≡ ok w'
      → All (λ e. IsSound e.1) w.states
      → All (λ e. IsSound e.1) w'.states
  unfolding persist_players
  persist_players-IsSound c [] w e h = subst (λ v. All (λ e. IsSound e.1) v.states) (ok_inj e) h
  persist_players-IsSound c (pr ∷ prs) w e h =
      let (ps, _, e₁) = >>=-eq-ok (get_item pr.player_id w.states) _ e in
      let (p, _, e₂) = >>=-eq-ok (get_item pr.player_id c.people) _ e₁ in
      persist_players-IsSound c prs (persist_player fl c pr ps p w) e₂
        (persist_player-IsSound c pr ps p w h)

  put_row-IsSound :
      (ps : PlayerSeason fl) (rows : List (PlayerSeason fl))
      → IsSound ps
      → All IsSound rows
      → All IsSound (put_row fl ps rows)
  unfolding put_row
  put_row-IsSound ps [] h hs = (h, tt)
  put_row-IsSound ps (row ∷ rows) h hs =
      if_intro (All IsSound) (same_key fl row ps) (ps ∷ rows) (row ∷ put_row fl ps rows)
        (λ e. (h, hs.1)) (λ e. (hs.0, put_row-IsSound ps rows h hs.1))

  put_rows-IsSound :
      (d : Table ℕ (PlayerSeason fl)) (rows : List (PlayerSeason fl))
      → All (λ e. IsSound e.1) d
      → All IsSound rows
      → All IsSound (put_rows fl d rows)
  unfolding put_rows
  put_rows-IsSound [] rows h hs = hs
  put_rows-IsSound ((pid, ps) ∷ d) rows h hs =
      put_rows-IsSound d (put_row fl ps rows) h.1 (put_row-IsSound ps rows h.0 hs)

  module _ (service : Service fl) (placements : 0 < service.params.placement_match_count) where
    -- A match that is processed leaves every rating row sound, of its players and of all others: provisional
    -- just while placement matches are left, and with a rating of at most the peak. This asks for at least
    -- one placement match.
    pub process_match-IsSound :
        (now : ℕ) (m : RawMatch) (db : Database fl) {out : ProcessOutcome × Database fl}
        → All IsSound db.player_seasons
        → process_match fl service now m db ≡ ok out
        → All IsSound out.1.player_seasons
    process_match-IsSound now m db sound h =
        elim (Bool-cases (is_already_processed m.match_id m.riot_match_id db.matches)) [
          | inl e ↦
              subst (λ o. All IsSound o.1.player_seasons)
                (ok_inj (sym (process_match_old fl service now m db e) ∙ h)) sound
          | inr e ↦
              let (verdict, result, (played_at, snap_at, champ_stats, w, loop, is)) =
                process_new-Committed fl service now m db
                  (sym (process_match_new fl service now m db e) ∙ h) in
              let states = loaded fl service m db in
              let at_first =
                load_states-IsSound service.params placements m.season_id db.player_seasons
                  (lock_order (map (λ p. p.player_id) m.participants)) sound in
              let at_last =
                persist_players-IsSound (context_of fl m played_at snap_at states result)
                  result.players (work_of fl states champ_stats) loop at_first in
              subst (λ o. All IsSound o.1.player_seasons) is
                (put_rows-IsSound w.states db.player_seasons at_last sound)
        ]
