-- ===== src/Account.antt =====
-- packages/backend/src/services/twoFactorService.ts, and `loginUser` of
-- packages/backend/src/services/authService.ts, on the tables of Token/State.
pub mod Emails
pub mod Codes
pub mod TwoFactor
pub mod Login
pub mod Registration
pub mod Google
pub mod Passwords
pub mod Stored
pub mod Recovery
pub mod Sessions
pub mod SecondFactor
pub mod Addresses
pub mod Secrets
pub mod Challenge
pub mod Lockout
mod Tests
mod SignInTests
