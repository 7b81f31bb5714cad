-- ===== src/Processing/Match/Again.antt =====
-- The writes of a match, and processing it a second time.
use arena_rank_project.Season.Reset.{state_of}
use arena_rank_project.Rating.Engine.{RatingResult}
use arena_rank_project.Season.Rows.{PlayerSeason}
use arena_rank_project.Locks.{lock_order}
use arena_rank_project.Processing.Inputs.{
  stat_keys, load_champion_stats, build_match_input, load_states,
}
use arena_rank_project.Prelude.Table.{nat_eq, Table}
use arena_rank_project.Prelude.{
  map, ℕ, ◌≡◌, refl, sym, ◌∙◌, subst, true, false, List, [], ◌∷◌, arith, if◌then◌else◌, inl, inr,
  Bool-cases,
}
use arena_rank_project.Prelude.{◌==◌ as nat_beq}
use arena_rank_project.Prelude.Result.{ok, >>=-eq-ok, ok_inj}
use arena_rank_project.Floats.{Floats}
use arena_rank_project.Processing.Rows.{
  ChampionStat, RawMatch, MatchRow, FlagSummary, IntegrityVerdict, Database,
}
use arena_rank_project.Processing.Persist.{by_player, persist_players, pair_instance, Work}
use arena_rank_project.Processing.Commit.{mark_processed, flags_summary}
use arena_rank_project.Processing.Match.{
  rated, context_of, work_of, Service, ProcessOutcome, already, is_already_processed, persist,
  process_new, process_match, commit, outcome_of,
}

module _ (fl : Floats) where
  mark_processed-marks :
      (m : RawMatch) (flags : List FlagSummary) (played_at now : ℕ) (rows : List MatchRow)
      → is_already_processed m.match_id m.riot_match_id
          (mark_processed fl m flags played_at now rows)
        ≡ true
  unfolding is_already_processed mark_processed
  mark_processed-marks m flags played_at now [] = ground arith
  mark_processed-marks m flags played_at now (row ∷ rows) =
      elim (Bool-cases (nat_beq row.id m.match_id)) [
        | inl e ↦ rw e (ground (arith, e))
        | inr e ↦ rw e (ground (arith, mark_processed-marks m flags played_at now rows))
      ]

  module _ (service : Service fl) where
    -- What the transaction wrote, and what the call returned.
    abbrev pub Committed :
        ℕ
        → RawMatch
        → IntegrityVerdict fl
        → Table ℕ (PlayerSeason fl)
        → RatingResult fl
        → Database fl
        → ProcessOutcome × Database fl
        → Type 0
    Committed now m verdict states result db out =
        (played_at : ℕ) × (snap_at : ℕ) × (champ_stats : Table (ℕ × ℕ) (ChampionStat fl))
        × (w : Work fl) × (persist_players fl (context_of fl m played_at snap_at states result)
              result.players (work_of fl states champ_stats)
            ≡ ok w)
        × ((outcome_of fl m verdict result w.updated, commit fl m verdict played_at now w db) ≡ out)

    persist-Committed :
        (now : ℕ) (m : RawMatch) (verdict : IntegrityVerdict fl)
        (states : Table ℕ (PlayerSeason fl)) (result : RatingResult fl) (db : Database fl)
        {out : ProcessOutcome × Database fl}
        → persist fl service now m verdict states result db ≡ ok out
        → Committed now m verdict states result db out
    unfolding persist
    persist-Committed now m verdict states result db h =
        let (played_at, _, h₁) = >>=-eq-ok (service.parse_iso m.played_at) _ h in
        let (keys, _, h₂) =
          >>=-eq-ok (stat_keys fl (by_player m.participants []) result.players) _ h₁ in
        let snap_at = if service.snapshot_at_played then played_at else now in
        let champ_stats = load_champion_stats fl m.season_id result.voided keys db.champion_stats in
        let (w, loop, last) =
          >>=-eq-ok
            (persist_players fl (context_of fl m played_at snap_at states result) result.players
              (work_of fl states champ_stats))
            _ h₂ in
        (played_at, snap_at, champ_stats, w, loop, ok_inj last)

    abbrev pub loaded : RawMatch → Database fl → Table ℕ (PlayerSeason fl)
    loaded m db =
        load_states fl service.params m.season_id db.player_seasons
          (lock_order (map (λ p. p.player_id) m.participants))

    pub process_new-Committed :
        (now : ℕ) (m : RawMatch) (db : Database fl) {out : ProcessOutcome × Database fl}
        → process_new fl service now m db ≡ ok out
        → (verdict : IntegrityVerdict fl) × (result : RatingResult fl) × Committed now m verdict
            (loaded m db)
            result
            db
            out
    unfolding process_new
    process_new-Committed now m db h =
        let states = loaded m db in
        let (verdict, _, h₁) =
          >>=-eq-ok (service.evaluate m (map (λ e. (e.0, state_of fl e.1)) states)) _ h in
        let (input, _, h₂) =
          >>=-eq-ok (build_match_input fl service.params m verdict states) _ h₁ in
        let (result, _, h₃) = >>=-eq-ok (rated fl service input) _ h₂ in
        (verdict, result, persist-Committed now m verdict states result db h₃)

    pub process_match_old :
        (now : ℕ) (m : RawMatch) (db : Database fl)
        → is_already_processed m.match_id m.riot_match_id db.matches ≡ true
        → process_match fl service now m db ≡ ok (already m.match_id, db)
    unfolding process_match
    process_match_old now m db e = rw e refl

    pub process_match_new :
        (now : ℕ) (m : RawMatch) (db : Database fl)
        → is_already_processed m.match_id m.riot_match_id db.matches ≡ false
        → process_match fl service now m db ≡ process_new fl service now m db
    unfolding process_match
    process_match_new now m db e = rw e refl

    -- Processing a match that a run has processed, or found processed, changes nothing, and says so.
    pub process_match_again :
        (now now' : ℕ) (m : RawMatch) (db : Database fl) {out : ProcessOutcome × Database fl}
        → process_match fl service now m db ≡ ok out
        → process_match fl service now' m out.1 ≡ ok (already m.match_id, out.1)
    process_match_again now now' m db h =
        elim (Bool-cases (is_already_processed m.match_id m.riot_match_id db.matches)) [
          | inl e ↦
              subst (λ o. process_match fl service now' m o.1 ≡ ok (already m.match_id, o.1))
                (ok_inj (sym (process_match_old now m db e) ∙ h)) (process_match_old now' m db e)
          | inr e ↦
              let (verdict, result, (played_at, snap_at, champ_stats, w, loop, is)) =
                process_new-Committed now m db (sym (process_match_new now m db e) ∙ h) in
              let marked =
                mark_processed-marks m (flags_summary fl verdict.flags) played_at now db.matches in
              subst (λ o. process_match fl service now' m o.1 ≡ ok (already m.match_id, o.1)) is
                (process_match_old now' m (commit fl m verdict played_at now w db) marked)
        ]
