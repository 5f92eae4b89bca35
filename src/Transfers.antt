-- ===== src/Transfers.antt =====
-- packages/shared/src/engine/minimalTransferAlgorithm.ts: who pays whom to settle a group.
pub mod Engine
pub mod Loop
pub mod Settled
mod Tests
