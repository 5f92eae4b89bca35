-- ===== src/Balances.antt =====
-- packages/shared/src/engine/balanceCalculator.ts: who owes whom in a group.
pub mod Types
pub mod Debts
pub mod Engine
pub mod WholeDebts
pub mod Whole
pub mod Position
pub mod Meaning
pub mod Conservation
mod Tests
