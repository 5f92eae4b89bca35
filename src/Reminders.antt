-- ===== src/Reminders.antt =====
-- packages/backend/src/services/reminderService.ts and packages/backend/src/jobs/reminderWorker.ts.
pub mod State
pub mod Service
pub mod Worker
pub mod Blocked
mod Tests
