-- ===== src/RateLimit.antt =====
-- packages/backend/src/middleware/rateLimiter.ts: `createRateLimiter` over the keys of Redis, the
-- windows that it is to keep, and that it does.
pub mod Limiter
pub mod Windows
pub mod Bounds
mod Tests
