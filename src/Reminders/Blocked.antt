-- ===== src/Reminders/Blocked.antt =====
-- The constraint of migrations/004_notification_reminders.sql has no 'processing', which
-- `getPendingReminders` of services/reminderService.ts writes.
use coldfi.Prelude.{
  ltb, Bool, true, false, ◌≡◌, refl, sym, ◌∙◌, List, [], ◌∷◌, map, select, any, Bool-cases, inl,
  inr, arith,
}
use coldfi.Database.{ok, err, update_where}
use coldfi.Reminders.State.{
  Reminder, Store, Status, check_violation, with_rows, is_violated, update_reminders,
}
use coldfi.Reminders.Service.{insert_due, sort_due}

module _ {ℓ} {A : Type ℓ} where
  pub select_none : (p : A → Bool) (xs : List A) → any p xs ≡ false → select p xs ≡ []
  select_none p [] h = refl
  select_none p (x ∷ xs) h = grind (arith, select_none p xs)

  pub update_where_none :
      (p : A → Bool) (f : A → A) (xs : List A) → any p xs ≡ false → update_where p f xs ≡ xs
  update_where_none p f [] h = refl
  update_where_none p f (x ∷ xs) h = grind (arith, update_where_none p f xs)

  pub any-select : (p q : A → Bool) (xs : List A) → any q (select p xs) ≡ true → any q xs ≡ true
  any-select p q [] h = h
  any-select p q (x ∷ xs) h = grind (arith, any-select p q xs)

  pub select-cons :
      (p : A → Bool) (xs : List A)
      → any p xs ≡ true
      → (y : A) × (ys : List A) × (select p xs ≡ y ∷ ys)
  select-cons p [] h = cc
  select-cons p (x ∷ xs) h = elim (Bool-cases (p x)) [
    | inl t ↦ (x, select p xs, rw (t) refl)
    | inr f ↦ let (y, ys, e) = select-cons p xs (sym (rw (f) refl) ∙ h) in (y, ys, rw (f, e) refl)
  ]

pub any-insert_due :
    (q : Reminder → Bool) (r : Reminder) (rs : List Reminder)
    → any q (insert_due r rs) ≡ any q (r ∷ rs)
any-insert_due q r [] = refl
any-insert_due q r (x ∷ xs) = elim (Bool-cases (ltb x.scheduled_at r.scheduled_at)) [
  | inl t ↦ grind (arith, any-insert_due q r xs)
  | inr f ↦ rw (f) refl
]

pub any-sort_due : (q : Reminder → Bool) (rs : List Reminder) → any q (sort_due rs) ≡ any q rs
any-sort_due q [] = refl
any-sort_due q (r ∷ rs) = grind (arith, any-insert_due q r (sort_due rs), any-sort_due q rs)

module _ {ℓ} {A : Type ℓ} where
  pub any_never : (xs : List A) → any (λ (x : A). false) xs ≡ false
  any_never [] = refl
  any_never (x ∷ xs) = any_never xs

  pub any_mono :
      (p q : A → Bool) (xs : List A)
      → ((x : A) → p x ≡ true → q x ≡ true)
      → any p xs ≡ true
      → any q xs ≡ true
  any_mono p q [] i h = h
  any_mono p q (x ∷ xs) i h = elim (Bool-cases (p x)) [
    | inl t ↦ rw (i x t) refl
    | inr f ↦ grind (arith, any_mono p q xs i)
  ]

  pub any_cong : (p q : A → Bool) (xs : List A) → ((x : A) → p x ≡ q x) → any p xs ≡ any q xs
  any_cong p q [] i = refl
  any_cong p q (x ∷ xs) i = rw (i x, any_cong p q xs i) refl

module _ (check : Status → Bool) (which : Reminder → Bool) (change : Reminder → Reminder)
    (s : Store) where
  pub update_reminders_violated :
      any (is_violated check which change) s.rows ≡ true
      → update_reminders check which change s ≡ (err check_violation, s)
  unfolding update_reminders
  update_reminders_violated h = rw (h) refl

  pub update_reminders_valid :
      any (is_violated check which change) s.rows ≡ false
      → update_reminders check which change s
        ≡ (ok (map change (select which s.rows)), with_rows s (update_where which change s.rows))
  unfolding update_reminders
  update_reminders_valid h = rw (h) refl

  pub update_reminders_none :
      any which s.rows ≡ false → update_reminders check which change s ≡ (ok [], s)
  unfolding update_reminders
  update_reminders_none h =
      let valid : any (is_violated check which change) s.rows ≡ false = none_violated s.rows h in
      let nothing = select_none which s.rows h in
      let same = update_where_none which change s.rows h in rw (valid, nothing, same) refl
    where
      none_violated :
          (rows : List Reminder)
          → any which rows ≡ false
          → any (is_violated check which change) rows ≡ false
      none_violated [] h = h
      none_violated (r ∷ rows) h = elim (Bool-cases (which r)) [
        | inl t ↦ cc
        | inr f ↦ grind (arith, none_violated rows)
      ]
