-- ===== src/Group/Governed.antt =====
-- The invariant of the table of members, and the operations that keep it.
use mathlib.Core.Path.{subst}
use coldfi.Prelude.{
  sym, ◌∙◌, ℕ, ◌==◌, ==_iff, ◌≡◌, ◌≢◌, refl, true, false, Option, none, some, List, find, arith,
  Bool-cases, inl, inr,
}
use coldfi.Database.{update_where}
use coldfi.Blob.{Aead}
use coldfi.Group.State.{Role, is_admin, Member, Db, is_row, find_member, find_present}
use coldfi.Group.Keys.{Fresh}
use coldfi.Group.Rows.{IsKeyed, find-test, find-Agrees, update_where-IsKeyed}
use coldfi.Group.Membership.{
  set_left, successor, hand_over, remove_member, leave_group, update_member_role,
}
use coldfi.Group.Admins.{IsLed, hand_over-IsLed, successor-IsLed, update-others, set_left-member}
use coldfi.Group.Effects.{
  renew-members, leave_group-effect, remove_member-effect, update_member_role-effect,
}
use coldfi.Group.Leading.{promote_idle, leader_stays, agrees, row_user}

-- Ids are unique, and every group with members that have not left has an admin among them.
abbrev pub IsGoverned : List Member → Type 0
IsGoverned ms = IsKeyed ms × ((group : ℕ) → IsLed group ms)

hand_over-IsKeyed :
    (group : ℕ) (next : Option ℕ) (ms : List Member)
    → IsKeyed ms
    → IsKeyed (hand_over group next ms)
unfolding hand_over
hand_over-IsKeyed group none ms k = k
hand_over-IsKeyed group (some user) ms k = update_where-IsKeyed _ _ ms (λ m. refl) k

left-IsLed :
    (group user now g : ℕ) (ms : List Member) (row : Member)
    → IsGoverned ms
    → find (is_row group user) ms ≡ some row
    → IsLed g (
        hand_over group
          (successor group user row.role (set_left row.id now ms))
          (set_left row.id now ms))
left-IsLed group user now g ms row (keyed, led) e =
    let same = find-Agrees (is_row group user) ms row keyed e in
    let left = set_left row.id now ms in
    elim (Bool-cases (is_admin row.role)) [
      | inr plain ↦ hand_over-IsLed g group _ left (set_left-member g now row ms same plain (led g))
      | inl was ↦ elim (Bool-cases (g == group)) [
        | inl here ↦
            subst (λ x. IsLed x (hand_over group (successor group user row.role left) left))
              (sym ((==_iff _ _).0 here)) (successor-IsLed group user row.role left was)
        | inr there ↦
            let t = find-test (is_row group user) ms row e in
            hand_over-IsLed g group _ left
              (update-others g row _ ms same (ground arith) (λ m. refl) (led g))
      ]
    ]

-- An update of one row, which stays in its group, and whose group another admin leads.
row-IsGoverned :
    (group target user : ℕ) (db : Db) (row a : Member) (f : Member → Member)
    → IsGoverned db.members
    → find_member group target db ≡ some row
    → find_present group user db ≡ some a
    → is_admin a.role ≡ true
    → target ≢ user
    → ((m : Member) → ((f m).user_id ≡ m.user_id) × ((f m).group_id ≡ m.group_id))
    → ((m : Member) → (f m).id ≡ m.id)
    → IsGoverned (update_where (λ (m : Member). m.id == row.id) f db.members)
row-IsGoverned group target user db row a f v e p leads other same ids = (
  update_where-IsKeyed _ f db.members ids v.0,
  λ g. elim (Bool-cases (g == group)) [
    | inl here ↦
        subst (λ x. IsLed x (update_where (λ (m : Member). m.id == row.id) f db.members))
          (sym ((==_iff _ _).0 here))
          (leader_stays group target user db row a v.0 e p leads other f same)
    | inr there ↦
        let t = row_user group target user db row a v.0 e p leads other in
        update-others g row f db.members (agrees group target user db row a v.0 e p leads other)
          (λ q. ne there (sym q ∙ t.0)) (λ m. (same m).1) (v.1 g)
  ],
)
  where
    ne : {i j : ℕ} → (i == j) ≡ false → i ≢ j
    ne h = ground arith

module _ (c : Aead) (fresh : Fresh) where
  -- If ids are unique and every group that has members has an admin among them, then so it is
  -- after `leaveGroup`, whoever leaves, whether the call returns or throws.
  pub leave_group-IsGoverned :
      (group user : ℕ) (db : Db)
      → IsGoverned db.members
      → IsGoverned (leave_group c fresh group user db).1.members
  leave_group-IsGoverned group user db v = elim (leave_group-effect c fresh group user db) [
    | inl same ↦ rw same v
    | inr (row, e, l, after) ↦
        rw (after, renew-members)
          (
            hand_over-IsKeyed group _ _ (update_where-IsKeyed _ _ db.members (λ m. refl) v.0),
            λ g. left-IsLed group user fresh.now g db.members row v e,
          )
  ]

  -- If ids are unique and every group that has members has an admin among them, then so it is
  -- after `removeMember`, whether the call returns or throws.
  pub remove_member-IsGoverned :
      (group target user : ℕ) (db : Db)
      → IsGoverned db.members
      → IsGoverned (remove_member c fresh group target user db).1.members
  remove_member-IsGoverned group target user db v =
      elim (remove_member-effect c fresh group target user db) [
        | inl same ↦ rw same v
        | inr (row, a, e, l, p, leads, other, after) ↦
            rw (after, renew-members)
              (rw (promote_idle group target user db row a v.0 e p leads other) (
                row-IsGoverned group target user db row a _ v e p leads other (λ m. (refl, refl))
                  (λ m. refl)))
      ]

-- If ids are unique and every group that has members has an admin among them, then so it is after
-- `updateMemberRole`, whatever the role, whether the call returns or throws.
pub update_member_role-IsGoverned :
    (group target : ℕ) (role : Role) (user : ℕ) (db : Db)
    → IsGoverned db.members
    → IsGoverned (update_member_role group target role user db).1.members
update_member_role-IsGoverned group target role user db v =
    elim (update_member_role-effect group target role user db) [
      | inl same ↦ rw same v
      | inr (row, a, e, p, leads, other, after) ↦ rw after (
          row-IsGoverned group target user db row a _ v e p leads other (λ m. (refl, refl))
            (λ m. refl))
    ]
