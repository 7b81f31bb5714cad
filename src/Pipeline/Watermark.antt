-- ===== src/Pipeline/Watermark.antt =====
-- `_note_if_out_of_order` of backend/arena/services/match_pipeline.py, with `note_out_of_order` and
-- `clear_replay_floor` of backend/arena/services/ingest_state.py. Times are in milliseconds.
pub mod Floor
use arena_rank_project.Prelude.{
  ℕ, ◌+◌, ◌-◌, Bool, true, false, Option, none, some, if◌then◌else◌, ltb,
}

-- The high-water mark of a season in Redis, and its replay floor in the database.
pub record Marks : Type 0 where
  pub hwm : Option ℕ
  pub replay_floor : Option ℕ

-- What fails when a match is noted: nothing, the calls of Redis, or the write to the database.
pub data Fault : Type 0 where
  nothing redis_fails database_fails : Fault

-- `int(raw_hwm) if raw_hwm is not None else 0`
abbrev pub or_zero : Option ℕ → ℕ
or_zero none = 0
or_zero (some n) = n

-- `LEAST(COALESCE(replay_floor, played_at), played_at)`
unfoldable pub lowered : Option ℕ → ℕ → ℕ
lowered none played = played
lowered (some floor) played = if ltb played floor then played else floor

-- The upsert of the floor.
unfoldable pub note_out_of_order : ℕ → Marks → Marks
note_out_of_order played marks = record marks {
  replay_floor = some (lowered marks.replay_floor played);
}

unfoldable pub clear_replay_floor : Marks → Marks
clear_replay_floor marks = record marks { replay_floor = none }

-- `hwm` is the mark that the call has read, which another worker may have changed since.
unfoldable pub note_late : Fault → ℕ → ℕ → ℕ → Marks → Marks
note_late nothing tolerance played hwm marks =
    if ltb (hwm - played) tolerance then marks else note_out_of_order played marks
note_late redis_fails tolerance played hwm marks = marks
note_late database_fails tolerance played hwm marks = marks

-- What the call does once it has read `raw_hwm`: one SET, one upsert, or nothing.
unfoldable pub note_marks : Fault → ℕ → ℕ → Option ℕ → Marks → Marks
note_marks redis_fails tolerance played raw_hwm marks = marks
note_marks nothing tolerance played raw_hwm marks =
    if ltb (or_zero raw_hwm) played
    then record marks { hwm = some played }
    else note_late nothing tolerance played (or_zero raw_hwm) marks
note_marks database_fails tolerance played raw_hwm marks =
    if ltb (or_zero raw_hwm) played
    then record marks { hwm = some played }
    else note_late database_fails tolerance played (or_zero raw_hwm) marks

-- The call, with a Redis or without. There is no compare-and-set between the read and the write.
abbrev pub note_if_out_of_order : Bool → Fault → ℕ → ℕ → Option ℕ → Marks → Marks
note_if_out_of_order false fault tolerance played raw_hwm marks = marks
note_if_out_of_order true fault tolerance played raw_hwm marks =
    note_marks fault tolerance played raw_hwm marks
