-- ===== src/LogChain.antt =====
-- packages/shared/src/engine/logManager.ts: the log of a group as a chain of hashes.
pub mod Canonical
pub mod Entries
pub mod Chain
pub mod Intact
pub mod Total
pub mod Forged
mod Tests
