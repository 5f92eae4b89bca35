-- ===== src/Reminders/State.antt =====
-- The tables behind packages/backend/src/services/reminderService.ts, after
-- packages/backend/src/db/migrations/003_notifications.sql and 004_notification_reminders.sql.
-- Times are in milliseconds. A text that the code puts together is the list of its parts.
use Prim.Native.String.{String}
use coldfi.Prelude.{
  ℕ, ◌==◌, Bool, true, false, not, ◌&&◌, Option, List, map, select, any, if◌then◌else◌,
}
use coldfi.Database.{Tx, Result, ok, err, update_where}
use coldfi.LogChain.Canonical.{Value}

pub data Status : Type 0 where
  pending processing sent failed : Status

pub record Reminder : Type 0 where
  pub id : ℕ
  pub user_id : ℕ
  pub group_id : ℕ
  pub kind : String
  pub title : List String
  pub body : List String
  pub scheduled_at : ℕ
  pub sent_at : Option ℕ
  pub status : Status
  pub metadata : Value
  pub created_at : ℕ
  pub updated_at : ℕ

-- what the code reads of `notification_preferences`
pub record Preferences : Type 0 where
  pub push_enabled : Bool
  pub reminders : Bool

pub record Store : Type 0 where
  pub rows : List Reminder
  -- by user, who has one row at most
  pub preferences : ℕ → Option Preferences

pub data Error : Type 0 where
  -- what `sendWebPush` throws, and what a statement does
  push_error check_violation : Error

abbrev pub Action : Type 0 → Type 0
Action = Tx Store Error

-- `CHECK (status IN ('pending', 'sent', 'failed'))`
unfoldable pub status_check : Status → Bool
status_check pending = true
status_check processing = false
status_check sent = true
status_check failed = true

abbrev pub is_pending : Status → Bool
is_pending pending = true
is_pending _ = false

abbrev pub is_processing : Status → Bool
is_processing processing = true
is_processing _ = false

abbrev pub is_done : Status → Bool
is_done sent = true
is_done failed = true
is_done _ = false

abbrev pub same_status : Status → Status → Bool
same_status pending c = is_pending c
same_status processing c = is_processing c
same_status sent sent = true
same_status sent _ = false
same_status failed failed = true
same_status failed _ = false

abbrev pub with_rows : Store → List Reminder → Store
with_rows s rows = record s { rows = rows }

-- `id IN (…)`
abbrev pub is_among : List ℕ → ℕ → Bool
is_among ids id = any (λ i. i == id) ids

module _ (check : Status → Bool) where
  abbrev pub is_violated : (Reminder → Bool) → (Reminder → Reminder) → Reminder → Bool
  is_violated which change r = which r && not (check (change r).status)

  -- `UPDATE notification_reminders SET … WHERE … RETURNING *`: a row that violates the constraint
  -- on the status fails the whole statement
  unfoldable pub update_reminders :
      (Reminder → Bool) → (Reminder → Reminder) → Action (List Reminder)
  update_reminders which change s =
      if any (is_violated which change) s.rows
      then (err check_violation, s)
      else (ok (map change (select which s.rows)), with_rows s (update_where which change s.rows))

-- `try { … } catch { … }`
abbrev pub recover : {A : Type 0} → Action A → Result Error A × Store → Result Error A × Store
recover handler (ok a, s) = (ok a, s)
recover handler (err e, s) = handler s

abbrev pub caught : {A : Type 0} → Action A → Action A → Action A
caught handler m s = recover handler (m s)
