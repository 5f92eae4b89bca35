-- ===== src/Group.antt =====
-- packages/backend/src/services/groupService.ts: groups, their members, invites and blobs.
pub mod State
pub mod Rows
pub mod Keys
pub mod Membership
pub mod Effects
pub mod Admins
pub mod Leading
pub mod Governed
pub mod Readable
pub mod Rotation
pub mod Invites
pub mod Joining
pub mod Indices
pub mod Newcomers
pub mod Sync
pub mod Uploads
pub mod Sample
mod Tests
