-- ===== src/Tournament/Rows.antt =====
-- The rows of the tournaments schema, backend/arena/db/models.py, and the errors of the service.
-- Columns that only label a page (title, prizes, banner, start times) are left out.
use arena_rank_project.Prelude.{ℕ, Option, none, some, List, Text}
use arena_rank_project.Prelude.Int.{ℤ}
use arena_rank_project.Prelude.Table.{Table, lookup, insert, nat_eq}
use arena_rank_project.Prelude.Result.{Result, ok, err, ◌>>=◌}
use arena_rank_project.Tournament.Provision.{Slot, ScoringEntry}

pub data Status : Type 0 where
  upcoming live ended : Status

-- `HTTPException`: 403, 404, 409, and 422.
pub data Error : Type 0 where
  invalid_key unknown_tournament unknown_team : Error
  duplicate_riot_id no_free_team team_full : Error
  match_out_of_range unknown_match : Error

-- The `scoring` column: a bare list (legacy), a dict with its `scoring` list (`[]` where it has none),
-- or something else.
pub data ScoringColumn : Type 0 where
  bare : List ScoringEntry → ScoringColumn
  blob : List ScoringEntry → ScoringColumn
  other : ScoringColumn

pub record Tournament : Type 0 where
  pub format : Text
  pub status : Status
  pub num_teams : ℕ
  pub num_matches : ℕ
  pub current_match : ℕ
  pub scoring : ScoringColumn
  pub access_key : Text

pub record Team : Type 0 where
  pub id : ℕ
  pub seed : ℕ
  pub team_name : Text
  pub captain : Option Text
  pub players : List Slot
  pub per_match : List ℤ
  pub penalties : ℤ
  pub bonus : ℤ
  pub total : ℤ

pub record ResultEntry : Type 0 where
  pub team_id : Text
  pub placement : ℤ
  pub bravura : ℤ

-- A result that was never submitted is `none`.
pub record Match : Type 0 where
  pub n : ℕ
  pub status : Status
  pub winner_team_id : Option ℕ
  pub lobby_max : ℕ
  pub lobby_count : ℕ
  pub magnetic_link : Text
  pub result : Option (List ResultEntry)

-- A tournament with its rows, the teams by seed and the matches by number.
pub record Event : Type 0 where
  pub tournament : Tournament
  pub teams : List Team
  pub matches : List Match

-- The database, by the primary key of the tournament.
abbrev pub Db : Type 0
Db = Table ℕ Event

-- `async with session.begin()` under the row locks: what `body` raises rolls the transaction back, so
-- that nothing is written. `pk` is the parsed id, none where it is no UUID.
unfoldable pub transaction :
    {A : Type 0} → Db → Option ℕ → (Event → Result Error (A × Event)) → Result Error (A × Db)
transaction db none body = err Error.unknown_tournament
transaction db (some pk) body = elim (lookup pk db) [
  | none ↦ err Error.unknown_tournament
  | some ev ↦ body ev >>= λ r. ok (r.0, insert pk r.1 db)
]
