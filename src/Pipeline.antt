-- ===== src/Pipeline.antt =====
-- backend/arena/services/match_pipeline.py: what happens to a match before and after it is rated.
pub mod Watermark
pub mod Replay
pub mod Gate
mod Tests
