-- ===== src/Alerts.antt =====
-- packages/backend/src/services/alertService.ts.
pub mod Rules
pub mod Spacing
pub mod Cooldown
mod Tests
