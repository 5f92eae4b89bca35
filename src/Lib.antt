-- ===== src/Lib.antt =====
-- Verification of coldfi, an expense sharing application with end-to-end encrypted groups.
--
-- The backend (packages/backend) keeps groups, members, invites and encrypted blobs in tables and
-- hands out tokens; the shared package (packages/shared) has the engines that both the server and
-- the browser run on plain data. Parts and files:
--
-- Prelude: library names, Boolean tests, lists and integers on the native numbers.
-- Database: packages/backend/src/db/pool.ts. A service is a function from the tables to a result
-- or an error and the tables after it; `transaction` is the function of that name. Statements
-- that ran before a throw stay in effect unless a transaction rolls them back.
-- Money: amounts as integers in thousandths of a cent, and `roundToCents` of
-- packages/shared/src/engine/balanceCalculator.ts.
-- Blob, Clock, Group: packages/backend/src/services/groupService.ts. Blob has the layout of the
-- encrypted text, Clock the vector clocks (`detectConflict`, `mergeClocks`), Group the tables
-- and the calls on them, one definition per function, with its name in snake case:
-- Group/Keys (`rotateGroupEncryptionKey`, `deactivateAndCreateInvite`), Group/Membership
-- (`removeMember`, `leaveGroup`, `updateMemberRole`, `deleteGroup`), Group/Invites
-- (`createGroup`, `createInvite`, `revokeInvite`, `lookupInvite`, `joinGroup`), Group/Sync
-- (`getGroupSync`, `getGroupEncryptionKey`, `syncGroupBlob`).
-- Token: packages/backend/src/services/tokenService.ts (Token/Service) and userRestrictions.ts
-- (Token/Restrictions), which share the tables of Token/State.
-- Account, on the same tables: packages/backend/src/services/twoFactorService.ts
-- (Account/TwoFactor) with the keys of redis.ts that it uses; of authService.ts `loginUser`
-- (Account/Login), `registerUser` and `updateProfile` (Account/Registration) and `googleLogin`
-- (Account/Google); passwordService.ts (Account/Passwords); the recovery codes of cryptoUtils.ts
-- (Account/Codes); `isValidEmail` of packages/shared/src/utils/validators.ts (Account/Emails).
-- ServerKeys: `encryptServerKey` and `decryptServerKey` of
-- packages/backend/src/services/cryptoUtils.ts, which keep the server's copy of a user's key.
-- RateLimit: `createRateLimiter` of packages/backend/src/middleware/rateLimiter.ts
-- (RateLimit/Limiter), and the windows that it is to keep (RateLimit/Windows).
-- Reminders: packages/backend/src/services/reminderService.ts (Reminders/Service) over its table
-- and the constraint of packages/backend/src/db/migrations/004_notification_reminders.sql
-- (Reminders/State), and the job of packages/backend/src/jobs/reminderWorker.ts
-- (Reminders/Worker). How a push ends and which rows are locked are arguments.
-- Alerts: packages/backend/src/services/alertService.ts (Alerts/Rules), and when the alerts that it
-- creates come (Alerts/Spacing, Alerts/Cooldown). A number is a fraction, and what is measured is
-- an argument.
-- LogChain: packages/shared/src/engine/logManager.ts: the canonical text (LogChain/Canonical), the
-- entries and their hash (LogChain/Entries), `verifyLogChain` (LogChain/Chain).
-- Splits: packages/shared/src/engine/splitCalculator.ts, one file for each mode of
-- `calculateSplits` (Splits/Ratios, Splits/Fixed, Splits/Items, Splits/Engine).
-- Balances: packages/shared/src/engine/balanceCalculator.ts: the debts per currency
-- (Balances/Debts), `computeNetBalances` and the other functions (Balances/Engine).
-- Transfers: packages/shared/src/engine/minimalTransferAlgorithm.ts.
-- Settlement: packages/shared/src/engine/settlementEngine.ts, with the types of
-- packages/shared/src/types/settlement.ts.
--
-- Groups refer to Blob and Clock, accounts to tokens, balances to settlements and transfers.
-- Services run in the transactions of Database. What the code does not define is a parameter:
-- the cipher and base64 are an `Aead` with the laws of `IsAead`, which Blob/Sample fills;
-- `hashToken` and `jwt.sign` are fields of `Config`; the cipher, hex and UTF-8 behind the server's
-- copy of a key are a `KeyCrypto` with the laws of `IsKeyCrypto`, which ServerKeys/Sample fills;
-- bcrypt and otplib are fields of `LoginConfig`, `Bcrypt` and `Totp`; the verification of a
-- Google token and SHA-512 are parameters; random ids, keys and the time of a
-- call are arguments. Recursion is on lists, but for the loop of `generateMinimalTransfers`:
-- it has one unit of fuel per creditor and debtor, which is enough, since each round settles
-- one of the two parties; and for the walk of `verifyLogChain`: it has one unit per entry and one
-- more, which is enough, since each round visits a hash that it has not visited. Both are proved.
--
-- Ids, codes and hashes are only compared and are numbers. One call runs at a time: the locks
-- of `FOR UPDATE` give the services that order, and interleavings inside a transaction are not
-- modelled. Floating point is not modelled: amounts are exact and finite, in thousandths of a cent,
-- and the ratio of a split is a fraction; `Map`s and `Record`s are lists in the order of their keys.
-- What other calls commit inside a sign-in with Google is an argument of it. The routes, the web
-- client, logging, monitoring and push are outside: they call the services or report on them.
pub mod Prelude
pub mod Database
pub mod Money
pub mod Blob
pub mod Clock
pub mod Group
pub mod Token
pub mod Settlement
pub mod Account
pub mod Alerts
pub mod Balances
pub mod LogChain
pub mod RateLimit
pub mod Reminders
pub mod ServerKeys
pub mod Splits
pub mod Transfers
