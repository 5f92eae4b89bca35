-- ===== src/Reminders/Service.antt =====
-- `ReminderService` of packages/backend/src/services/reminderService.ts. `check` is the constraint
-- on the status; the time, the new ids and the rows that others have locked are arguments.
use Prim.Native.String.{String}
use coldfi.Prelude.{
  ℕ, ◌+◌, ◌*◌, ltb, leb, ◌==◌, Bool, true, false, not, ◌&&◌, ◌||◌, Option, none, some, List, [],
  ◌∷◌, ◌++◌, map, select, length, take, if◌then◌else◌,
}
use coldfi.Database.{◌>>=◌, ◌>>◌, pure, gets, modify, or_throw}
use coldfi.LogChain.Canonical.{Value, str, num, object, no_member, member}
use coldfi.Reminders.State.{
  push_error, caught, same_status, Status, pending, processing, sent, failed, Reminder, Preferences,
  Store, Action, is_pending, is_processing, is_done, with_rows, is_among, update_reminders,
}

pub record CreateReminderInput : Type 0 where
  pub user_id : ℕ
  pub group_id : ℕ
  pub kind : String
  pub title : List String
  pub body : List String
  pub scheduled_at : ℕ
  pub metadata : Option Value

abbrev pub metadata_or_empty : Option Value → Value
metadata_or_empty none = object no_member
metadata_or_empty (some v) = v

abbrev pub new_reminder : ℕ → ℕ → CreateReminderInput → Reminder
new_reminder id now input = record {
  id = id;
  user_id = input.user_id;
  group_id = input.group_id;
  kind = input.kind;
  title = input.title;
  body = input.body;
  scheduled_at = input.scheduled_at;
  sent_at = none;
  status = pending;
  metadata = metadata_or_empty input.metadata;
  created_at = now;
  updated_at = now;
}

unfoldable pub create_reminder : ℕ → ℕ → CreateReminderInput → Action Reminder
create_reminder id now input = do
  modify (λ s. with_rows s (s.rows ++ new_reminder id now input ∷ []))
  pure (new_reminder id now input)

-- `push_enabled` and `reminders` of the user's row, where there is one
abbrev pub wants_reminders : Option Preferences → Bool
wants_reminders none = true
wants_reminders (some p) = p.push_enabled && p.reminders

-- pending, or processing for more than ten minutes
abbrev pub is_open : ℕ → Reminder → Bool
is_open now r = is_pending r.status || (is_processing r.status && ltb (r.updated_at + 600_000) now)

abbrev pub is_claimable : (ℕ → Bool) → ℕ → Store → Reminder → Bool
is_claimable locked now s r =
    is_open now r
    && (leb r.scheduled_at now && (wants_reminders (s.preferences r.user_id) && not (locked r.id)))

-- `ORDER BY scheduled_at ASC`
abbrev pub insert_due : Reminder → List Reminder → List Reminder
insert_due r [] = r ∷ []
insert_due r (q ∷ qs) =
    let rest = insert_due r qs in if ltb q.scheduled_at r.scheduled_at then q ∷ rest else r ∷ q ∷ qs

abbrev pub sort_due : List Reminder → List Reminder
sort_due [] = []
sort_due (r ∷ rs) = insert_due r (sort_due rs)

-- the ids of the inner `SELECT`
abbrev pub claimed_ids : (ℕ → Bool) → ℕ → ℕ → Store → List ℕ
claimed_ids locked limit now s =
    map (λ (r : Reminder). r.id) (take limit (sort_due (select (is_claimable locked now s) s.rows)))

abbrev pub claim : ℕ → Reminder → Reminder
claim now r = record r { status = processing; updated_at = now }

-- how `sendWebPush` ends: how many pushes went out, or it throws; and what
-- `getSubscriptions` counts and `isVapidConfigured` says afterwards
pub record Push : Type 0 where
  pub outcome : Option ℕ
  pub subscriptions : ℕ
  pub vapid_configured : Bool

module _ (check : Status → Bool) where
  unfoldable pub get_pending_reminders : (ℕ → Bool) → ℕ → ℕ → Action (List Reminder)
  get_pending_reminders locked limit now s =
      update_reminders check (λ r. is_among (claimed_ids locked limit now s) r.id) (claim now) s

  unfoldable pub set_status : (Reminder → Reminder) → ℕ → Action (Unit {0})
  set_status change id = do rows ← update_reminders check (λ r. r.id == id) change; pure tt

  unfoldable pub mark_sent : ℕ → ℕ → Action (Unit {0})
  unfolding set_status
  mark_sent now = set_status (λ r. record r { status = sent; sent_at = some now; updated_at = now })

  unfoldable pub mark_failed : ℕ → ℕ → Action (Unit {0})
  unfolding set_status
  mark_failed now = set_status (λ r. record r { status = failed; updated_at = now })

  unfoldable pub revert_to_pending : ℕ → ℕ → Action (Unit {0})
  unfolding set_status
  revert_to_pending now = set_status (λ r. record r { status = pending; updated_at = now })

  -- what follows where `sendWebPush` gives the number of pushes that went out
  unfoldable pub record_outcome : ℕ → Push → ℕ → Reminder → Action Bool
  unfolding mark_sent mark_failed revert_to_pending
  record_outcome count push now r =
      if ltb 0 count
      then (mark_sent now r.id >> pure true)
      else if push.subscriptions == 0 || not push.vapid_configured
      then (mark_failed now r.id >> pure false)
      else (revert_to_pending now r.id >> pure false)

  -- the `try` block, with the `catch` that follows it
  unfoldable pub process_reminder : Push → ℕ → Reminder → Action Bool
  unfolding record_outcome mark_failed
  process_reminder push now r =
      caught (mark_failed now r.id >> pure false)
        (or_throw push.outcome push_error >>= λ count. record_outcome count push now r)

  unfoldable pub cancel_group_reminders : ℕ → ℕ → Action ℕ
  cancel_group_reminders now group = do
    rows ←
        update_reminders check (λ r. r.group_id == group && is_pending r.status)
          (λ r. record r { status = failed; updated_at = now })
    pure (length rows)

abbrev pub is_old : ℕ → ℕ → Reminder → Bool
is_old now days r = is_done r.status && ltb (r.updated_at + days * 86_400_000) now

unfoldable pub cleanup_old_reminders : ℕ → ℕ → Action ℕ
cleanup_old_reminders now days = do
  old ← gets (λ s. select (is_old now days) s.rows)
  modify (λ s. with_rows s (select (λ r. not (is_old now days r)) s.rows))
  pure (length old)

-- `ORDER BY scheduled_at DESC`
abbrev pub insert_late : Reminder → List Reminder → List Reminder
insert_late r [] = r ∷ []
insert_late r (q ∷ qs) =
    let rest = insert_late r qs in
    if ltb r.scheduled_at q.scheduled_at then q ∷ rest else r ∷ q ∷ qs

abbrev pub sort_late : List Reminder → List Reminder
sort_late [] = []
sort_late (r ∷ rs) = insert_late r (sort_late rs)

abbrev pub has_status : Option Status → Reminder → Bool
has_status none r = true
has_status (some c) r = same_status c r.status

abbrev pub or_fifty : Option ℕ → ℕ
or_fifty none = 50
or_fifty (some limit) = limit

abbrev pub user_reminders : ℕ → Option Status → Option ℕ → Store → List Reminder
user_reminders user wanted limit s =
    take (or_fifty limit)
      (sort_late (select (λ r. r.user_id == user && has_status wanted r) s.rows))

unfoldable pub get_user_reminders : ℕ → Option Status → Option ℕ → Action (List Reminder)
get_user_reminders user wanted limit = gets (user_reminders user wanted limit)

-- the debtors with the new ids; `fixed_text` is the text that `toFixed(2)` makes, `number_text`
-- that of the number, `iso_text` that of `toISOString`
module _ (fixed_text number_text iso_text : ℕ → String) where
  abbrev pub settlement_due : ℕ → String → ℕ → String → ℕ → ℕ → CreateReminderInput
  settlement_due group group_name amount currency due user = record {
    user_id = user;
    group_id = group;
    kind = "settlement_due";
    title = "Payment reminder: " ∷ group_name ∷ [];
    body =
        "You have a pending payment of "
        ∷ currency
        ∷ " "
        ∷ fixed_text amount
        ∷ " due in "
        ∷ group_name
        ∷ ". Please settle up!"
        ∷ [];
    scheduled_at = due;
    metadata = some (
        object (
          member "groupName" (str group_name) (
            member "amount" (num (number_text amount)) (
              member "currency" (str currency)
                (member "dueDate" (str (iso_text due)) no_member)))));
  }

  unfoldable pub create_settlement_reminders :
      ℕ → ℕ → String → ℕ → String → ℕ → List (ℕ × ℕ) → Action (List Reminder)
  unfolding create_reminder
  create_settlement_reminders now group group_name amount currency due [] = pure []
  create_settlement_reminders now group group_name amount currency due ((id, user) ∷ debtors) = do
    r ← create_reminder id now (settlement_due group group_name amount currency due user)
    rs ← create_settlement_reminders now group group_name amount currency due debtors
    pure (r ∷ rs)
