-- ===== src/Season.antt =====
-- backend/arena/services/season_service.py: the life of a season, its end and the start of the next one.
pub mod Rows
pub mod Close
pub mod Reset
pub mod Lifecycle
mod Tests
