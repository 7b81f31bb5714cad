-- ===== src/Processing/Match/Local.antt =====
-- The rating rows of the players who are not in a match.
use arena_rank_project.Prelude.{
  ℕ, ◌≡◌, refl, sym, ap, ◌∙◌, subst, Bool, true, false, not, Option, none, some, List, [], ◌∷◌,
  arith, ltb, map, any, find, All, ◌&&◌, inl, inr, Bool-cases, if_intro, any-map,
}
use arena_rank_project.Prelude.{◌==◌ as nat_beq}
use arena_rank_project.Prelude.Table.{◌==◌, Table, nat_eq, lookup, insert-All, Key}
use arena_rank_project.Prelude.Sort.{sort_by-any}
use arena_rank_project.Prelude.Result.{ok, >>=-eq-ok, ok_inj}
use arena_rank_project.Floats.{Floats}
use arena_rank_project.Rating.Params.{RatingParams}
use arena_rank_project.Rating.Engine.{PlayerRatingResult}
use arena_rank_project.Locks.{lock_order, distinct}
use arena_rank_project.Season.Rows.{PlayerSeason, same_key}
use arena_rank_project.Processing.Rows.{RawParticipant, RawMatch, Database}
use arena_rank_project.Processing.Persist.{
  item, get_item, Work, Context, persist_player, persist_players, counted, documented, update_row,
}
use arena_rank_project.Processing.Commit.{put_row, put_rows}
use arena_rank_project.Processing.Inputs.{fresh_player, load_state, load_states}
use arena_rank_project.Processing.Match.{
  Service, ProcessOutcome, is_already_processed, process_match, context_of, work_of,
}
use arena_rank_project.Processing.Match.Again.{
  process_new-Committed, process_match_new, process_match_old, loaded,
}

distinct-any :
    (k : ℕ) (ps : List ℕ) → any (λ q. nat_beq q k) (distinct ps) ≡ any (λ q. nat_beq q k) ps
unfolding distinct
distinct-any k [] = refl
distinct-any k (p ∷ ps) = elim (Bool-cases (any (λ q. nat_beq q p) ps)) [
  | inl e ↦ rw e (elim (Bool-cases (nat_beq p k)) [
    | inl e' ↦
        let same : p ≡ k = ground arith in
        let holds = subst (λ i. any (λ q. nat_beq q i) ps ≡ true) same e in
        ground (arith, distinct-any k ps, holds, e')
    | inr e' ↦ ground (arith, distinct-any k ps, e')
  ])
  | inr e ↦ rw e (ground (arith, distinct-any k ps))
]

lock_order-any :
    (k : ℕ) (ps : List ℕ) → any (λ q. nat_beq q k) (lock_order ps) ≡ any (λ q. nat_beq q k) ps
unfolding lock_order
lock_order-any k ps = sort_by-any ltb (λ q. nat_beq q k) (distinct ps) ∙ distinct-any k ps

item-ok {ℓ} : {V : Type ℓ} (o : Option V) {v : V} → item o ≡ ok v → o ≡ some v
item-ok none h = cc
item-ok (some w) h = ap some (ok_inj h)

lookup-All {ℓ κ μ} :
    {K : Type ℓ} {V : Type κ} ⦃e : Key K⦄ (P : V → Type μ) (k : K) (d : Table K V) {v : V}
    → lookup k d ≡ some v
    → All (λ e. P e.1) d
    → P v
lookup-All P k [] h hs = cc
lookup-All P k ((j, w) ∷ d) {v = v} h hs = elim (Bool-cases (j == k)) [
  | inl e ↦ subst P (ground arith) hs.0
  | inr e ↦ lookup-All P k d (ground arith) hs.1
]

get_item-All {ℓ κ μ} :
    {K : Type ℓ} {V : Type κ} ⦃e : Key K⦄ (P : V → Type μ) (k : K) (d : Table K V) {v : V}
    → get_item k d ≡ ok v
    → All (λ e. P e.1) d
    → P v
get_item-All P k d h hs = lookup-All P k d (item-ok (lookup k d) h) hs

module _ (fl : Floats) where
  -- The row of the player in the season.
  abbrev pub is_row : ℕ → ℕ → PlayerSeason fl → Bool
  is_row sid pid row = nat_beq row.season_id sid && nat_beq row.player_id pid

  load_state-is_row :
      (params : RatingParams fl) (sid pid j k : ℕ) (rows : List (PlayerSeason fl))
      → is_row j k (load_state fl params sid pid rows) ≡ (nat_beq sid j && nat_beq pid k)
  unfolding load_state fresh_player
  load_state-is_row params sid pid j k [] = refl
  load_state-is_row params sid pid j k (row ∷ rows) =
      if_intro (λ r. is_row j k r ≡ (nat_beq sid j && nat_beq pid k))
        (nat_beq row.season_id sid && nat_beq row.player_id pid) row
        (load_state fl params sid pid rows) (λ e. ground (arith, e))
        (λ e. load_state-is_row params sid pid j k rows)

  module _ (j k : ℕ) where
    abbrev IsOther : PlayerSeason fl → Type 0
    IsOther row = is_row j k row ≡ false

    load_states-IsOther :
        (params : RatingParams fl) (sid : ℕ) (rows : List (PlayerSeason fl)) (pids : List ℕ)
        → (nat_beq sid j && any (λ q. nat_beq q k) pids) ≡ false
        → All (λ e. IsOther e.1) (load_states fl params sid rows pids)
    unfolding load_states
    load_states-IsOther params sid rows [] h = tt
    load_states-IsOther params sid rows (pid ∷ pids) h = (
      load_state-is_row params sid pid j k rows ∙ ground (arith, h),
      load_states-IsOther params sid rows pids (ground (arith, h)),
    )

    persist_player-IsOther :
        (c : Context fl) (pr : PlayerRatingResult fl) (ps : PlayerSeason fl) (p : RawParticipant)
        (w : Work fl)
        → IsOther ps
        → All (λ e. IsOther e.1) w.states
        → All (λ e. IsOther e.1) (persist_player fl c pr ps p w).states
    unfolding persist_player update_row
    persist_player-IsOther c pr ps p w other h =
        if_intro (λ v. All (λ e. IsOther e.1) v.states) (pr.eligible && not c.voided)
          (counted fl c pr ps p w) (documented fl c pr p w)
          (λ e. insert-All (λ e. IsOther e.1) pr.player_id (update_row fl pr ps) w.states other h)
          (λ e. h)

    persist_players-IsOther :
        (c : Context fl) (prs : List (PlayerRatingResult fl)) (w : Work fl) {w' : Work fl}
        → persist_players fl c prs w ≡ ok w'
        → All (λ e. IsOther e.1) w.states
        → All (λ e. IsOther e.1) w'.states
    unfolding persist_players
    persist_players-IsOther c [] w e h = subst (λ v. All (λ e. IsOther e.1) v.states) (ok_inj e) h
    persist_players-IsOther c (pr ∷ prs) w e h =
        let (ps, found, e₁) = >>=-eq-ok (get_item pr.player_id w.states) _ e in
        let (p, _, e₂) = >>=-eq-ok (get_item pr.player_id c.people) _ e₁ in
        persist_players-IsOther c prs (persist_player fl c pr ps p w) e₂ (
          persist_player-IsOther c pr ps p w (get_item-All IsOther pr.player_id w.states found h) h)

    put_row-find :
        (ps : PlayerSeason fl) (rows : List (PlayerSeason fl))
        → IsOther ps
        → find (is_row j k) (put_row fl ps rows) ≡ find (is_row j k) rows
    unfolding put_row
    put_row-find ps [] h = rw h refl
    put_row-find ps (row ∷ rows) h = elim (Bool-cases (same_key fl row ps)) [
      | inl e ↦ let other : is_row j k row ≡ false = ground (arith, e, h) in rw (e, h, other) refl
      | inr e ↦ rw e (elim (Bool-cases (is_row j k row)) [
        | inl b ↦ rw b refl
        | inr b ↦ rw b (put_row-find ps rows h)
      ])
    ]

    put_rows-find :
        (d : Table ℕ (PlayerSeason fl)) (rows : List (PlayerSeason fl))
        → All (λ e. IsOther e.1) d
        → find (is_row j k) (put_rows fl d rows) ≡ find (is_row j k) rows
    unfolding put_rows
    put_rows-find [] rows h = refl
    put_rows-find ((pid, ps) ∷ d) rows h =
        put_rows-find d (put_row fl ps rows) h.1 ∙ put_row-find ps rows h.0

  module _ (service : Service fl) where
    -- The rating row of a player who is not in the match, and any row of another season, stays as it was, and
    -- none is made.
    pub process_match-find :
        (now : ℕ) (m : RawMatch) (db : Database fl) (sid pid : ℕ)
        {out : ProcessOutcome × Database fl}
        → (nat_beq m.season_id sid && any (λ p. nat_beq p.player_id pid) m.participants) ≡ false
        → process_match fl service now m db ≡ ok out
        → find (is_row sid pid) out.1.player_seasons ≡ find (is_row sid pid) db.player_seasons
    process_match-find now m db sid pid absent h =
        elim (Bool-cases (is_already_processed m.match_id m.riot_match_id db.matches)) [
          | inl e ↦
              ap (λ o. find (is_row sid pid) o.1.player_seasons)
                (sym (ok_inj (sym (process_match_old fl service now m db e) ∙ h)))
          | inr e ↦
              let (verdict, result, (played_at, snap_at, champ_stats, w, loop, is)) =
                process_new-Committed fl service now m db
                  (sym (process_match_new fl service now m db e) ∙ h) in
              let states = loaded fl service m db in
              let ids = map (λ p. p.player_id) m.participants in
              let none_there =
                ap (λ b. nat_beq m.season_id sid && b)
                  (lock_order-any pid ids
                    ∙ any-map (λ q. nat_beq q pid) (λ p. p.player_id) m.participants)
                ∙ absent in
              let at_first =
                load_states-IsOther sid pid service.params m.season_id db.player_seasons
                  (lock_order ids) none_there in
              let at_last =
                persist_players-IsOther sid pid (context_of fl m played_at snap_at states result)
                  result.players (work_of fl states champ_stats) loop at_first in
              ap (λ o. find (is_row sid pid) o.1.player_seasons) (sym is)
              ∙ put_rows-find sid pid w.states db.player_seasons at_last
        ]
