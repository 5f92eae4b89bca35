-- ===== src/Reminders/Worker.antt =====
-- The job of packages/backend/src/jobs/reminderWorker.ts: claim what is due, then send one by one.
use coldfi.Prelude.{ℕ, suc, Bool, true, false, List, [], ◌∷◌, length}
use coldfi.Database.{◌>>=◌, ok, err}
use coldfi.Reminders.State.{Status, Reminder, Store, Action}
use coldfi.Reminders.Service.{Push, get_pending_reminders, process_reminder}

pub data JobResult : Type 0 where
  nothing_due : JobResult
  -- how many were claimed, sent and failed
  counted : ℕ → ℕ → ℕ → JobResult

abbrev pub count_one : Bool → ℕ × ℕ → ℕ × ℕ
count_one true (sent, failed) = (suc sent, failed)
count_one false (sent, failed) = (sent, suc failed)

module _ (check : Status → Bool) (pushes : ℕ → Push) where
  -- an error of one reminder counts as a failure, and the loop goes on
  unfoldable pub process_all : ℕ → List Reminder → Store → (ℕ × ℕ) × Store
  unfolding process_reminder
  process_all now [] s = ((0, 0), s)
  process_all now (r ∷ rs) s =
      let (result, after) = process_reminder check (pushes r.id) now r s in
      let (counts, end) = process_all now rs after in
      elim result [
        | ok sent_now ↦ (count_one sent_now counts, end)
        | err e ↦ (count_one false counts, end)
      ]

  abbrev pub process_claimed : ℕ → List Reminder → Action JobResult
  process_claimed now [] s = (ok nothing_due, s)
  process_claimed now (r ∷ rs) s =
      let ((sent, failed), end) = process_all now (r ∷ rs) s in
      (ok (counted (length (r ∷ rs)) sent failed), end)

  -- `batch` is BATCH_SIZE
  unfoldable pub check_pending_reminders : (ℕ → Bool) → ℕ → ℕ → Action JobResult
  unfolding get_pending_reminders process_all
  check_pending_reminders locked batch now = do
    claimed ← get_pending_reminders check locked batch now
    process_claimed now claimed
