-- ===== src/Riot.antt =====
-- The client of the Riot API, backend/arena/riot/: what stands between the workers and the API.
pub mod Breaker
pub mod Retry
pub mod RateLimit
pub mod LimitHeaders
pub mod Coalesce
pub mod Cache
mod Tests
