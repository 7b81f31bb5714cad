-- ===== src/Rating.antt =====
-- The rating engine, backend/arena/rating/, over the floats that it computes with.
pub mod Params
pub mod Caps
pub mod Modifiers
pub mod Engine
pub mod Rate
pub mod Explain
pub mod Tests
