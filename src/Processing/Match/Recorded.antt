-- ===== src/Processing/Match/Recorded.antt =====
-- What the rows that a match adds have to do with its result.
use arena_rank_project.Prelude.{
  ℕ, ◌≡◌, refl, sym, ap, ◌∙◌, subst, not, List, [], ◌∷◌, ◌++◌, arith, map, length, length-append,
  append-nil, append_assoc, ◌&&◌, inl, inr, Bool-cases,
}
use arena_rank_project.Prelude.Table.{nat_eq, lookup}
use arena_rank_project.Prelude.Result.{ok, >>=-eq-ok, ok_inj}
use arena_rank_project.Floats.{Floats}
use arena_rank_project.Rating.Engine.{PlayerRatingResult}
use arena_rank_project.Season.Rows.{PlayerSeason}
use arena_rank_project.Processing.Rows.{
  RawParticipant, RawMatch, MatchParticipant, CrSnapshot, Database,
}
use arena_rank_project.Processing.Persist.{
  snapshot_of, update_row, get_item, Work, Context, persist_player, persist_players,
}
use arena_rank_project.Processing.Match.{
  context_of, work_of, Service, ProcessOutcome, is_already_processed, process_match,
}
use arena_rank_project.Processing.Match.Again.{
  process_match_old, loaded, process_new-Committed, process_match_new,
}

module _ (fl : Floats) where
  abbrev pub ids : List (MatchParticipant fl) → List ℕ
  ids rows = map (λ row. row.player_id) rows

  -- What the loop keeps: the two lists of snapshots are the same, with one for each player that was updated.
  abbrev pub IsMirrored : Work fl → Type 0
  IsMirrored w = (w.cr_snapshots ≡ w.cr_snapshots_recent) × (length w.cr_snapshots ≡ w.updated)

  -- The row has the figures of the result of the player, and the restore point taken before the loop.
  abbrev pub Documents : Context fl → MatchParticipant fl → PlayerRatingResult fl → Type 0
  Documents c row pr =
      (row.player_id ≡ pr.player_id)
      × (row.cr_before ≡ pr.cr_before)
      × (row.cr_after ≡ pr.cr_after)
      × (row.cr_delta ≡ pr.cr_delta)
      × (row.eligible ≡ pr.eligible)
      × (row.state_before ≡ lookup pr.player_id c.state_before)

  abbrev pub DocumentsAll :
      Context fl → List (MatchParticipant fl) → List (PlayerRatingResult fl) → Type 0
  DocumentsAll c [] [] = Unit
  DocumentsAll c [] (pr ∷ prs) = ⊥
  DocumentsAll c (row ∷ rows) [] = ⊥
  DocumentsAll c (row ∷ rows) (pr ∷ prs) = Documents c row pr × DocumentsAll c rows prs

  -- What one round of the loop does to the lists.
  IsRound : Context fl → PlayerRatingResult fl → Work fl → Work fl → Type 0
  IsRound c pr w w' =
      (IsMirrored w → IsMirrored w')
      × ((row : MatchParticipant fl) × (w'.match_participants ≡ w.match_participants ++ (row ∷ []))
          × Documents c row pr)

  persist_player-IsRound :
      (c : Context fl) (pr : PlayerRatingResult fl) (ps : PlayerSeason fl) (p : RawParticipant)
      (w : Work fl)
      → IsRound c pr w (persist_player fl c pr ps p w)
  unfolding persist_player IsRound
  persist_player-IsRound c pr ps p w =
      let snapshot = snapshot_of fl c.snap_at pr.player_id c.season_id (update_row fl pr ps) in
      elim (Bool-cases (pr.eligible && not c.voided)) [
        | inl e ↦ rw e (
          λ h. (
            ap (λ l. l ++ (snapshot ∷ [])) h.0,
            length-append w.cr_snapshots (snapshot ∷ []) ∙ omega (arith, h.1),
          ),
          (_, refl, (refl, refl, refl, refl, refl, refl)),
        )
        | inr e ↦ rw e (λ h. h, (_, refl, (refl, refl, refl, refl, refl, refl)))
      ]

  persist_players-IsMirrored :
      (c : Context fl) (prs : List (PlayerRatingResult fl)) (w : Work fl) {w' : Work fl}
      → persist_players fl c prs w ≡ ok w'
      → IsMirrored w
      → IsMirrored w'
  unfolding persist_players IsRound
  persist_players-IsMirrored c [] w e h = subst IsMirrored (ok_inj e) h
  persist_players-IsMirrored c (pr ∷ prs) w e h =
      let (ps, _, e₁) = >>=-eq-ok (get_item pr.player_id w.states) _ e in
      let (p, _, e₂) = >>=-eq-ok (get_item pr.player_id c.people) _ e₁ in
      persist_players-IsMirrored c prs (persist_player fl c pr ps p w) e₂
        ((persist_player-IsRound c pr ps p w).0 h)

  persist_players-Documents :
      (c : Context fl) (prs : List (PlayerRatingResult fl)) (w : Work fl) {w' : Work fl}
      → persist_players fl c prs w ≡ ok w'
      → (rows : List (MatchParticipant fl)) × (w'.match_participants ≡ w.match_participants ++ rows)
        × DocumentsAll c rows prs
  unfolding persist_players IsRound
  persist_players-Documents c [] w e =
      ([], ap (λ v. v.match_participants) (sym (ok_inj e)) ∙ sym (append-nil _), tt)
  persist_players-Documents c (pr ∷ prs) w e =
      let (ps, _, e₁) = >>=-eq-ok (get_item pr.player_id w.states) _ e in
      let (p, _, e₂) = >>=-eq-ok (get_item pr.player_id c.people) _ e₁ in
      let (row, is, documents) = (persist_player-IsRound c pr ps p w).1 in
      let (rows, all, rest) = persist_players-Documents c prs (persist_player fl c pr ps p w) e₂ in
      (
        row ∷ rows,
        all ∙ ap (λ l. l ++ rows) is ∙ append_assoc w.match_participants (row ∷ []) rows,
        (documents, rest),
      )

  module _ (service : Service fl) where
    -- The call adds a row for each player that it reports, in order, and as many snapshots as it reports
    -- updated players, the same ones to both tables.
    abbrev pub IsRecorded : Database fl → ProcessOutcome × Database fl → Type 0
    IsRecorded db out =
        ((rows : List (MatchParticipant fl)) × (out.1.match_participants
            ≡ db.match_participants ++ rows)
          × (ids rows ≡ out.0.affected_player_ids))
        × ((snapshots : List (CrSnapshot fl)) × (out.1.cr_snapshots ≡ db.cr_snapshots ++ snapshots)
            × (out.1.cr_snapshots_recent ≡ db.cr_snapshots_recent ++ snapshots)
            × (length snapshots ≡ out.0.players_updated))

    DocumentsAll-ids :
        (c : Context fl) (rows : List (MatchParticipant fl)) (prs : List (PlayerRatingResult fl))
        → DocumentsAll c rows prs
        → ids rows ≡ map (λ pr. pr.player_id) prs
    DocumentsAll-ids c [] [] h = refl
    DocumentsAll-ids c [] (pr ∷ prs) h = absurd h
    DocumentsAll-ids c (row ∷ rows) [] h = absurd h
    DocumentsAll-ids c (row ∷ rows) (pr ∷ prs) h = cc (h.0.0, DocumentsAll-ids c rows prs h.1)

    -- A call that returns adds a row for each player that it reports, in order, and as many snapshots as it
    -- reports updated players, the same ones to both tables.
    pub process_match-IsRecorded :
        (now : ℕ) (m : RawMatch) (db : Database fl) {out : ProcessOutcome × Database fl}
        → process_match fl service now m db ≡ ok out
        → IsRecorded db out
    process_match-IsRecorded now m db h =
        elim (Bool-cases (is_already_processed m.match_id m.riot_match_id db.matches)) [
          | inl e ↦
              subst (IsRecorded db) (ok_inj (sym (process_match_old fl service now m db e) ∙ h))
                (([], sym (append-nil _), refl), ([], sym (append-nil _), sym (append-nil _), refl))
          | inr e ↦
              let (verdict, result, (played_at, snap_at, champ_stats, w, loop, is)) =
                process_new-Committed fl service now m db
                  (sym (process_match_new fl service now m db e) ∙ h) in
              let c = context_of fl m played_at snap_at (loaded fl service m db) result in
              let w₀ = work_of fl (loaded fl service m db) champ_stats in
              let (rows, added, documents) = persist_players-Documents c result.players w₀ loop in
              let (same, counts) =
                persist_players-IsMirrored c result.players w₀ loop (refl, refl) in
              subst (IsRecorded db) is (
                (
                  w.match_participants,
                  refl,
                  ap ids added ∙ DocumentsAll-ids c rows result.players documents,
                ),
                (w.cr_snapshots, refl, ap (λ l. db.cr_snapshots_recent ++ l) (sym same), counts),
              )
        ]
