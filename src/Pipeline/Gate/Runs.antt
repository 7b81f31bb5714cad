-- ===== src/Pipeline/Gate/Runs.antt =====
-- Any number of payloads, one after the other.
use arena_rank_project.Prelude.{
  ℕ, ◌<◌, ◌≡◌, refl, sym, ◌∙◌, subst, true, Option, none, some, List, [], ◌∷◌, All, inl, inr,
  Bool-cases, ltb, length, text_ltb,
}
use arena_rank_project.Prelude.Sort.{sort_by}
use arena_rank_project.Prelude.Result.{Result, ok, err, >>=-eq-ok, ok_inj}
use arena_rank_project.Prelude.Table.{Table}
use arena_rank_project.Floats.{Floats, IsOrdered}
use arena_rank_project.Season.Rows.{IsKeyed}
use arena_rank_project.Processing.Rows.{RawMatch, Database}
use arena_rank_project.Processing.Match.{
  Status, processed, already_processed, voided, ProcessOutcome, process_match as rate_match,
}
use arena_rank_project.Processing.Match.Sound.{IsSound, process_match-IsSound}
use arena_rank_project.Processing.Match.Keyed.{process_match-IsKeyed}
use arena_rank_project.Pipeline.Gate.{
  ParsedArenaMatch, before_cutoff, Reply, World, Setting, is_catching_up, settled, rate_parsed,
  process_in, process_payload, PipelineError, build_raw_participants, register_players, roster,
  puuids_of, raw_match,
}
use arena_rank_project.Pipeline.Gate.Laws.{
  as_rating_error-ok, dropped, too_small, passed, process_in_staged, process_in_rated,
}

module _ (fl : Floats) (setting : Setting fl) where
  -- What a call leaves: a call that raises writes nothing.
  abbrev pub left : World fl → Result PipelineError (Reply × World fl) → World fl
  left w (err e) = w
  left w (ok out) = out.1

  -- The payloads, each with the time at which it is processed.
  unfoldable pub run_payloads : List (ℕ × Option ParsedArenaMatch) → World fl → World fl
  run_payloads [] w = w
  run_payloads ((now, payload) ∷ later) w =
      run_payloads later (left w (process_payload fl setting now payload w))

  module _ (P : Database fl → Type 0)
      (keeps : (ids : List ℕ) (now : ℕ) (m : RawMatch) (db : Database fl)
          (out : ProcessOutcome × Database fl)
        → P db
        → rate_match fl (setting.service_of ids) now m db ≡ ok out
        → P out.1) where
    settled_keeps :
        (now : ℕ) (parsed : ParsedArenaMatch) (players : Table (List ℕ) ℕ) (o : ProcessOutcome)
        (db : Database fl) (w : World fl) (s : Status)
        → P db
        → P (settled fl setting now parsed players o db w s).db
    unfolding settled
    settled_keeps now parsed players o db w processed h = h
    settled_keeps now parsed players o db w voided h = h
    settled_keeps now parsed players o db w already_processed h = h

    rate_parsed_keeps :
        (now sid : ℕ) (parsed : ParsedArenaMatch) (w : World fl) {out : Reply × World fl}
        → P w.db
        → rate_parsed fl setting now sid parsed w ≡ ok out
        → P out.1.db
    unfolding rate_parsed
    rate_parsed_keeps now sid parsed w h e =
        let players =
          register_players setting.fresh_id (sort_by text_ltb (roster (puuids_of parsed)))
            w.players in
        let (built, _, e₁) = >>=-eq-ok (build_raw_participants players parsed.subteams) _ e in
        let (done, rated, e₂) =
          >>=-eq-ok
            (rate_match fl (setting.service_of built.1) now
              (raw_match fl setting now sid parsed built.0) w.db)
            _ e₁ in
        subst (λ o. P o.1.db) (ok_inj e₂)
          (settled_keeps now parsed players done.0 done.1 w done.0.status
            (keeps built.1 now _ w.db done h rated))

    left_keeps :
        (w : World fl) (r : Result PipelineError (Reply × World fl))
        → P w.db
        → ((out : Reply × World fl) → r ≡ ok out → P out.1.db)
        → P (left w r).db
    left_keeps w (err e) h k = h
    left_keeps w (ok out) h k = k out refl

    process_in_keeps :
        (now : ℕ) (season : Option ℕ) (parsed : ParsedArenaMatch) (w : World fl)
        (out : Reply × World fl)
        → P w.db
        → process_in fl setting now season true parsed w ≡ ok out
        → P out.1.db
    unfolding process_in
    process_in_keeps now none parsed w out h e = cc
    process_in_keeps now (some sid) parsed w out h e = elim (Bool-cases (is_catching_up w.mode)) [
      | inl b ↦
          subst (λ o. P o.1.db) (ok_inj (sym (process_in_staged fl setting now sid parsed w b) ∙ e))
            h
      | inr b ↦ rate_parsed_keeps now sid parsed w h (
          as_rating_error-ok fl setting now (rate_parsed fl setting now sid parsed w)
            (sym (process_in_rated fl setting now sid parsed w b) ∙ e))
    ]

    process_payload_keeps :
        (now : ℕ) (payload : Option ParsedArenaMatch) (w : World fl) (out : Reply × World fl)
        → P w.db
        → process_payload fl setting now payload w ≡ ok out
        → P out.1.db
    unfolding process_payload
    process_payload_keeps now none w out h e = subst (λ o. P o.1.db) (ok_inj e) h
    process_payload_keeps now (some parsed) w out h e =
        elim (Bool-cases (before_cutoff parsed.started_at_ms setting.cutoff_ms)) [
          | inl b ↦ subst (λ o. P o.1.db) (ok_inj (sym (dropped fl setting now parsed w b) ∙ e)) h
          | inr b ↦ elim (Bool-cases (ltb (length parsed.subteams) 2)) [
            | inl b' ↦
                subst (λ o. P o.1.db) (ok_inj (sym (too_small fl setting now parsed w b b') ∙ e)) h
            | inr b' ↦
                process_in_keeps now setting.season parsed w out h
                  (sym (passed fl setting now parsed w b b') ∙ e)
          ]
        ]

    run_payloads_keeps :
        (payloads : List (ℕ × Option ParsedArenaMatch)) (w : World fl)
        → P w.db
        → P (run_payloads payloads w).db
    unfolding run_payloads
    run_payloads_keeps [] w h = h
    run_payloads_keeps ((now, payload) ∷ later) w h =
        run_payloads_keeps later (left w (process_payload fl setting now payload w)) (
          left_keeps w (process_payload fl setting now payload w) h
            (λ out e. process_payload_keeps now payload w out h e))

  -- Whatever payloads arrive, in whatever order and however often, and whichever of them are dropped, put aside
  -- or raise, the rating rows stay sound and one for each player in a season, if every service asks for at
  -- least one placement match.
  pub run_payloads-IsSound :
      (ord : IsOrdered fl) (payloads : List (ℕ × Option ParsedArenaMatch)) (w : World fl)
      → ((ids : List ℕ) → 0 < (setting.service_of ids).params.placement_match_count)
      → All (IsSound fl ord) w.db.player_seasons
      → IsKeyed fl w.db.player_seasons
      → All (IsSound fl ord) (run_payloads payloads w).db.player_seasons
        × IsKeyed fl (run_payloads payloads w).db.player_seasons
  run_payloads-IsSound ord payloads w placements sound keyed = (
    run_payloads_keeps (λ db. All (IsSound fl ord) db.player_seasons)
        (λ ids now m db out h e.
          process_match-IsSound fl ord (setting.service_of ids) (placements ids) now m db h e)
        payloads w sound,
    run_payloads_keeps (λ db. IsKeyed fl db.player_seasons)
        (λ ids now m db out h e. process_match-IsKeyed fl (setting.service_of ids) now m db h e)
        payloads w keyed,
  )
