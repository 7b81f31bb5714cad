-- ===== src/Pipeline/Gate/Laws.antt =====
-- What each outcome of the pipeline does to the rows.
use arena_rank_project.Prelude.Table.{Table}
use arena_rank_project.Prelude.{
  ◌++◌, [], ◌∷◌, ◌⊎◌, ◌<◌, ℕ, ◌≡◌, refl, ap, true, false, some, List, any, ltb, length, Text,
  text_eq,
}
use arena_rank_project.Prelude.Result.{Result, ok, err, ok_inj}
use arena_rank_project.Floats.{Floats}
use arena_rank_project.Processing.Persist.{ProcessError}
use arena_rank_project.Processing.Match.{process_match as rate_match}
use arena_rank_project.Pipeline.Gate.{
  is_before_cutoff, incomplete_teams, ParsedArenaMatch, before_cutoff, stage_match, Backlog, Reply,
  filtered, staged, summary, World, Setting, is_catching_up, rate_parsed, as_rating_error,
  process_in, process_payload, played_at,
}

-- A row of the match stands in the backlog.
abbrev pub Holds : Text → List Backlog → Type 0
Holds riot_match_id rows = any (λ row. text_eq row.riot_match_id riot_match_id) rows ≡ true

abbrev pub Lacks : Text → List Backlog → Type 0
Lacks riot_match_id rows = any (λ row. text_eq row.riot_match_id riot_match_id) rows ≡ false

-- The row of the match in a season: played when it started, or when it came where that is not known.
abbrev pub IsRowOf : ParsedArenaMatch → ℕ → ℕ → Backlog → Type 0
IsRowOf parsed sid now row =
    (row.riot_match_id ≡ parsed.match_id)
    × (row.season_id ≡ sid)
    × (row.parsed ≡ parsed)
    × (((0 < parsed.started_at_ms) × (row.played_at ≡ parsed.started_at_ms))
        ⊎ ((parsed.started_at_ms ≡ 0) × (row.played_at ≡ now)))

-- The backlog held the match and is as before, or lacked it and has one row more, that of the match.
abbrev pub IsAside : ParsedArenaMatch → ℕ → ℕ → List Backlog → List Backlog → Type 0
IsAside parsed sid now rows rows' =
    (Holds parsed.match_id rows × (rows' ≡ rows))
    ⊎ (Lacks parsed.match_id rows
        × ((row : Backlog) × (rows' ≡ rows ++ (row ∷ [])) × IsRowOf parsed sid now row))

module _ (fl : Floats) (setting : Setting fl) (now : ℕ) where
  -- What each reply says of the rows before and after.
  abbrev pub HasEffect : ParsedArenaMatch → World fl → Reply → World fl → Type 0
  HasEffect parsed w (filtered reason) w' = w' ≡ w
  HasEffect parsed w staged w' =
      (w'.db ≡ w.db)
      × (w'.players ≡ w.players)
      × (w'.marks ≡ w.marks)
      × (is_catching_up w.mode ≡ true)
      × ((sid : ℕ) × (setting.season ≡ some sid) × IsAside parsed sid now w.backlog w'.backlog)
  HasEffect parsed w (summary outcome) w' =
      (w'.backlog ≡ w.backlog)
      × (is_catching_up w.mode ≡ false)
      × (before_cutoff parsed.started_at_ms setting.cutoff_ms ≡ false)
      × (ltb (length parsed.subteams) 2 ≡ false)

  pub as_rating_error-ok :
      (m : Result ProcessError (Reply × World fl)) {out : Reply × World fl}
      → as_rating_error fl setting now m ≡ ok out
      → m ≡ ok out
  as_rating_error-ok (err e) h = cc
  as_rating_error-ok (ok o) h = ap ok (ok_inj h)

  pub process_in_staged :
      (sid : ℕ) (parsed : ParsedArenaMatch) (w : World fl)
      → is_catching_up w.mode ≡ true
      → process_in fl setting now (some sid) true parsed w
        ≡ ok
            (staged, record w { backlog = stage_match sid (played_at now parsed) parsed w.backlog })
  unfolding process_in
  process_in_staged sid parsed w e = rw e refl

  pub process_in_rated :
      (sid : ℕ) (parsed : ParsedArenaMatch) (w : World fl)
      → is_catching_up w.mode ≡ false
      → process_in fl setting now (some sid) true parsed w
        ≡ as_rating_error fl setting now (rate_parsed fl setting now sid parsed w)
  unfolding process_in
  process_in_rated sid parsed w e = rw e refl

  pub dropped :
      (parsed : ParsedArenaMatch) (w : World fl)
      → before_cutoff parsed.started_at_ms setting.cutoff_ms ≡ true
      → process_payload fl setting now (some parsed) w ≡ ok (filtered is_before_cutoff, w)
  unfolding process_payload
  dropped parsed w e = rw e refl

  pub too_small :
      (parsed : ParsedArenaMatch) (w : World fl)
      → before_cutoff parsed.started_at_ms setting.cutoff_ms ≡ false
      → ltb (length parsed.subteams) 2 ≡ true
      → process_payload fl setting now (some parsed) w ≡ ok (filtered incomplete_teams, w)
  unfolding process_payload
  too_small parsed w e e' = rw (e, e') refl

  pub passed :
      (parsed : ParsedArenaMatch) (w : World fl)
      → before_cutoff parsed.started_at_ms setting.cutoff_ms ≡ false
      → ltb (length parsed.subteams) 2 ≡ false
      → process_payload fl setting now (some parsed) w
        ≡ process_in fl setting now setting.season true parsed w
  unfolding process_payload
  passed parsed w e e' = rw (e, e') refl
