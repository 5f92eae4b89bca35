-- ===== src/Settlement.antt =====
-- packages/shared/src/engine/settlementEngine.ts: the life of a settlement proposal.
pub mod Types
pub mod Engine
pub mod Lifecycle
pub mod Consistent
pub mod Partial
mod Tests
