-- ===== src/Processing.antt =====
-- backend/arena/services/rating_service.py: the processing of one match, from the stored ratings to the rows
-- that it writes.
pub mod Rows
pub mod StateBefore
pub mod Champions
pub mod Persist
pub mod Commit
pub mod Inputs
pub mod Match
pub mod Tests
