-- ===== src/Reminders/Tests.antt =====
-- Two reminders of user 1, one due and one not yet.
use coldfi.Prelude.{◌≡◌, refl, true, false, none, some, [], ◌∷◌, map}
use coldfi.Database.{ok}
use coldfi.LogChain.Canonical.{object, no_member}
use coldfi.Reminders.State.{update_reminders, Reminder, Store, pending}
use coldfi.Reminders.Service.{Push, user_reminders}
use coldfi.Reminders.Worker.{counted, check_pending_reminders}

abbrev rent : Reminder
rent = record {
  id = 1;
  user_id = 1;
  group_id = 9;
  kind = "settlement_due";
  title = "Rent" ∷ [];
  body = [];
  scheduled_at = 1000;
  sent_at = none;
  status = pending;
  metadata = object no_member;
  created_at = 500;
  updated_at = 500;
}

abbrev power : Reminder
power = record rent { id = 2; scheduled_at = 9_000_000 }

abbrev two_reminders : Store
two_reminders = record { rows = rent ∷ power ∷ []; preferences = λ u. none }

abbrev one_push : Push
one_push = record { outcome = some 1; subscriptions = 1; vapid_configured = true }

-- without the constraint, the reminder that is due is sent
sends :
    (check_pending_reminders (λ c. true) (λ i. one_push) (λ i. false) 50 2000 two_reminders).0
    ≡ ok (counted 1 1 0)
unfolding check_pending_reminders update_reminders
sends = refl

-- the latest first
listed :
    map (λ (r : Reminder). r.id) (user_reminders 1 (some pending) none two_reminders) ≡ 2 ∷ 1 ∷ []
listed = refl
