-- ===== src/Integrity.antt =====
-- The integrity layer, backend/arena/integrity/: what a match says about its players' conduct.
pub mod Types
pub mod Params
pub mod Fingerprint
pub mod Evaluators
pub mod Premade
pub mod Signals
pub mod Service
mod Tests
