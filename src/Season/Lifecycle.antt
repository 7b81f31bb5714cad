-- ===== src/Season/Lifecycle.antt =====
-- `advance_status` of backend/arena/services/season_service.py, and runs of the service's operations.
pub mod Runs
use arena_rank_project.Prelude.{ℕ, Bool, true, false, not, Option, none, some}
use arena_rank_project.Prelude.Result.{Result, ok, err, ◌>>=◌, ◌>>◌, raise_if}
use arena_rank_project.Floats.{Floats}
use arena_rank_project.Season.Rows.{
  SeasonStatus, active, soft_lock, ended, off_season, SeasonTransitionError, terminal, not_adjacent,
  Store, get_season, set_status,
}

-- `_ALLOWED_TRANSITIONS.get(status)`
unfoldable pub allowed_transition : SeasonStatus → Option SeasonStatus
allowed_transition active = some soft_lock
allowed_transition soft_lock = some ended
allowed_transition ended = some off_season
allowed_transition off_season = none

abbrev pub same_status : SeasonStatus → SeasonStatus → Bool
same_status active active = true
same_status soft_lock soft_lock = true
same_status ended ended = true
same_status off_season off_season = true
same_status s t = false

-- The two checks of a transition.
unfoldable pub check_transition :
    SeasonStatus → SeasonStatus → Result SeasonTransitionError (Unit {0})
check_transition status to = elim (allowed_transition status) [
  | none ↦ err terminal
  | some expected ↦ raise_if (not (same_status to expected)) not_adjacent
]

module _ (fl : Floats) where
  unfoldable pub advance_status :
      ℕ → SeasonStatus → Store fl → Result SeasonTransitionError (SeasonStatus × Store fl)
  advance_status sid to store = do
    season ← get_season fl sid store
    check_transition season.status to
    ok (to, set_status fl sid to store)
