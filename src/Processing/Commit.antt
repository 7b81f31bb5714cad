-- ===== src/Processing/Commit.antt =====
-- The end of `_persist` of backend/arena/services/rating_service.py, and what its commit writes.
use arena_rank_project.Prelude.{
  ℕ, Bool, true, false, Option, none, some, List, [], ◌∷◌, ◌&&◌, if◌then◌else◌, map, Text,
}
use arena_rank_project.Prelude.{◌==◌ as nat_beq}
use arena_rank_project.Prelude.Table.{Table, nat_eq}
use arena_rank_project.Floats.{Floats}
use arena_rank_project.Season.Rows.{PlayerSeason, same_key}
use arena_rank_project.Processing.Rows.{
  RawMatch, FlagSummary, MatchRow, IntegrityFlag, ChampionStat, IntegrityEvent,
}

module _ (fl : Floats) where
  -- 5) a row for each flag
  unfoldable pub event_of : ℕ → ℕ → IntegrityFlag fl → IntegrityEvent fl
  event_of match_id now flag = record {
    match_id = match_id;
    player_id = flag.player_id;
    flag_type = flag.flag_type;
    severity = flag.severity;
    metadata = non_empty flag.metadata;
    created_at = now;
    reviewed = false;
  }
    where
      non_empty : Table Text Text → Option (Table Text Text)
      non_empty [] = none
      non_empty (e ∷ d) = some (e ∷ d)

  abbrev pub flags_summary : List (IntegrityFlag fl) → List FlagSummary
  flags_summary flags = map (λ f. record { flag_type = f.flag_type; severity = f.severity }) flags

  -- 6) `_mark_processed`: the row of the match, or a new one if it has none.
  unfoldable pub mark_processed :
      RawMatch → List FlagSummary → ℕ → ℕ → List MatchRow → List MatchRow
  mark_processed m flags played_at now [] =
      record {
        id = m.match_id;
        riot_match_id = m.riot_match_id;
        queue_id = m.queue_id;
        mode = m.mode;
        season_id = m.season_id;
        played_at = played_at;
        processed_at = now;
        processed = true;
        integrity_flags = flags;
        duration_seconds = m.duration_seconds;
      }
      ∷ []
  mark_processed m flags played_at now (row ∷ rows) =
      let rest = mark_processed m flags played_at now rows in
      if nat_beq row.id m.match_id
      then record row { processed = true; processed_at = now; integrity_flags = flags } ∷ rows
      else row ∷ rest

  -- A row that the session holds, written at the commit.
  unfoldable pub put_row : PlayerSeason fl → List (PlayerSeason fl) → List (PlayerSeason fl)
  put_row ps [] = ps ∷ []
  put_row ps (row ∷ rows) =
      let rest = put_row ps rows in if same_key fl row ps then ps ∷ rows else row ∷ rest

  unfoldable pub put_rows :
      Table ℕ (PlayerSeason fl) → List (PlayerSeason fl) → List (PlayerSeason fl)
  put_rows [] rows = rows
  put_rows ((pid, ps) ∷ d) rows = put_rows d (put_row ps rows)

  abbrev pub same_stat : ChampionStat fl → ChampionStat fl → Bool
  same_stat a b =
      nat_beq a.player_id b.player_id
      && (nat_beq a.season_id b.season_id && nat_beq a.champion_id b.champion_id)

  unfoldable pub put_stat : ChampionStat fl → List (ChampionStat fl) → List (ChampionStat fl)
  put_stat cs [] = cs ∷ []
  put_stat cs (row ∷ rows) =
      let rest = put_stat cs rows in if same_stat row cs then cs ∷ rows else row ∷ rest

  unfoldable pub put_stats :
      Table (ℕ × ℕ) (ChampionStat fl) → List (ChampionStat fl) → List (ChampionStat fl)
  put_stats [] rows = rows
  put_stats ((key, cs) ∷ d) rows = put_stats d (put_stat cs rows)
