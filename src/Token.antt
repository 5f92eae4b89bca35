-- ===== src/Token.antt =====
-- packages/backend/src/services/tokenService.ts: refresh tokens, and what they need of
-- packages/backend/src/services/userRestrictions.ts.
pub mod State
pub mod Restrictions
pub mod Service
pub mod Revocation
pub mod Rotation
pub mod Reuse
mod Tests
