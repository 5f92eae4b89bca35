-- ===== src/Group/Admins.antt =====
-- Who leads a group: no operation leaves a group that has members without an admin.
use coldfi.Prelude.{
  sym, ◌∙◌, ℕ, ◌==◌, ==_iff, ◌≡◌, ◌≢◌, refl, Bool, true, false, ◌&&◌, Option, none, some, List, [],
  ◌∷◌, any, select, All, if◌then◌else◌, arith, Bool-cases, Option-cases, inl, inr,
}
use coldfi.Database.{update_where}
use coldfi.Group.State.{Role, is_admin, Member, is_present, is_row, first_joined}
use coldfi.Group.Rows.{
  any-update_where, any-of_update_where, All-trivial, first_joined-none, first_joined-some, Agrees,
}
use coldfi.Group.Membership.{set_role, set_left, is_other_admin, successor, hand_over}

abbrev pub is_in : ℕ → Member → Bool
is_in group m = m.group_id == group && is_present m

abbrev pub is_admin_in : ℕ → Member → Bool
is_admin_in group m = is_in group m && is_admin m.role

-- A group with members that have not left has an admin among them.
abbrev pub IsLed : ℕ → List Member → Type 0
IsLed group ms = any (is_in group) ms ≡ true → any (is_admin_in group) ms ≡ true

-- An update of a row of another group, which stays in that group.
pub update-others :
    (g : ℕ) (row : Member) (f : Member → Member) (ms : List Member)
    → All (Agrees row) ms
    → row.group_id ≢ g
    → ((m : Member) → (f m).group_id ≡ m.group_id)
    → IsLed g ms
    → IsLed g (update_where (λ (m : Member). m.id == row.id) f ms)
update-others g row f ms a ne same led h =
    any-update_where (is_admin_in g) (is_admin_in g) (λ m. m.id == row.id) f (Agrees row) ms a
      (λ m ag e. elim (Bool-cases (m.id == row.id)) [
        | inl it ↦
            let home = (ag ((==_iff _ _).0 it)).0 in
            let here : m.group_id ≡ g = ground arith in absurd (ne (sym home ∙ here))
        | inr no_it ↦ rw no_it e
      ])
      (led (
        any-of_update_where (is_in g) (is_in g) (λ m. m.id == row.id) f (Agrees row) ms a
          (λ m ag e. elim (Bool-cases (m.id == row.id)) [
            | inl it ↦
                let home = (ag ((==_iff _ _).0 it)).0 in
                let moved = same m in
                let here : (f m).group_id ≡ g = in_group it e in
                absurd (ne (sym home ∙ sym moved ∙ here))
            | inr no_it ↦ rw no_it at e
          ])
          h))
  where
    in_group :
        {m : Member}
        → (m.id == row.id) ≡ true
        → is_in g (if m.id == row.id then f m else m) ≡ true
        → (f m).group_id ≡ g
    in_group {m} it e = member_of (f m) (rw it at e)
      where
        member_of : (n : Member) → is_in g n ≡ true → n.group_id ≡ g
        member_of n h = ground arith

pub set_left-member :
    (g now : ℕ) (row : Member) (ms : List Member)
    → All (Agrees row) ms
    → is_admin row.role ≡ false
    → IsLed g ms
    → IsLed g (set_left row.id now ms)
set_left-member g now row ms a plain led h =
    any-update_where (is_admin_in g) (is_admin_in g) (λ m. m.id == row.id)
      (λ m. record m { left_at = some now }) (Agrees row) ms a
      (λ m ag e. elim (Bool-cases (m.id == row.id)) [
        | inl same ↦
            let role = (ag ((==_iff _ _).0 same)).2 in
            let never : is_admin m.role ≡ false = rw role plain in ground arith
        | inr other ↦ rw other e
      ])
      (led (
        any-of_update_where (is_in g) (is_in g) (λ m. m.id == row.id)
          (λ m. record m { left_at = some now }) (Agrees row) ms a (λ m ag e. ground arith) h))

-- Whoever is made an admin, the groups stay led.
set_role-IsLed :
    (g group user : ℕ) (ms : List Member) → IsLed g ms → IsLed g (set_role group user Role.admin ms)
set_role-IsLed g group user ms led h =
    any-update_where (is_admin_in g) (is_admin_in g) (is_row group user)
      (λ m. record m { role = Role.admin }) (λ _. Unit {0}) ms (All-trivial ms)
      (λ m _ e. ground arith)
      (led (
        any-of_update_where (is_in g) (is_in g) (is_row group user)
          (λ m. record m { role = Role.admin }) (λ _. Unit {0}) ms (All-trivial ms)
          (λ m _ e. ground arith) h))

pub hand_over-IsLed :
    (g group : ℕ) (next : Option ℕ) (ms : List Member)
    → IsLed g ms
    → IsLed g (hand_over group next ms)
unfolding hand_over
hand_over-IsLed g group none ms led = led
hand_over-IsLed g group (some user) ms led = set_role-IsLed g group user ms led

pub any-imp {ℓ} :
    {A : Type ℓ} (p q : A → Bool) (rows : List A)
    → ((r : A) → p r ≡ true → q r ≡ true)
    → any p rows ≡ true
    → any q rows ≡ true
any-imp p q [] h e = e
any-imp p q (r ∷ rows) h e = elim (Bool-cases (p r)) [
  | inl t ↦ rw (h r t) refl
  | inr f ↦
      let ih = any-imp p q rows h (rw f at e) in
      elim (Bool-cases (q r)) [ inl s ↦ rw s refl | inr s ↦ rw s ih ]
]

-- When an admin has left, the group is led once the role is handed over, however it was before.
pub successor-IsLed :
    (group user : ℕ) (role : Role) (ms : List Member)
    → is_admin role ≡ true
    → IsLed group (hand_over group (successor group user role ms) ms)
unfolding successor hand_over
successor-IsLed group user role ms was_admin =
    elim (Option-cases (first_joined (select (is_other_admin group user) ms))) [
      | inr (other, e) ↦
          rw (was_admin, e)
            λ _.
              any-imp (λ m. is_other_admin group user m && true) (is_admin_in group) ms
                (λ m h. ground arith)
                (first_joined-some (is_other_admin group user) (λ _. true) ms other e refl)
      | inl none_left ↦ elim (Option-cases (first_joined (select (is_in group) ms))) [
        | inl empty ↦
            rw (was_admin, none_left, empty)
              λ h. absurd (never (first_joined-none (is_in group) ms empty) h)
        | inr (next, e) ↦
            rw (was_admin, none_left, e)
              λ _.
                any-update_where (λ m. is_in group m && m.user_id == next.user_id)
                  (is_admin_in group) (is_row group next.user_id)
                  (λ m. record m { role = Role.admin }) (λ _. Unit {0}) ms (All-trivial ms)
                  (λ m _ h. ground arith)
                  (first_joined-some (is_in group) (λ m. m.user_id == next.user_id) ms next e
                    ((==_iff _ _).1 refl))
      ]
    ]
  where
    never : {b : Bool} → b ≡ false → b ≡ true → ⊥
    never p q = cc
