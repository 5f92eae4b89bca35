-- ===== src/Splits.antt =====
-- packages/shared/src/engine/splitCalculator.ts: how an expense is split among the members of a
-- group, by ratios, by fixed amounts or by items. Amounts are in thousandths of a cent; ratios
-- and what is computed with them are exact fractions.
pub mod Fraction
pub mod Types
pub mod Ratios
pub mod Fixed
pub mod Items
pub mod Engine
pub mod Rows
pub mod Covered
pub mod Somebody
pub mod Shared
pub mod Modes
pub mod Exact
pub mod Equal
mod Tests
