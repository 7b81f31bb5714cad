-- ===== src/Tournament.antt =====
-- The tournaments subsystem, backend/arena/tournaments/.
pub mod Scoring
pub mod Provision
pub mod Rows
pub mod Onboarding
pub mod Matches
pub mod Create
mod Tests
