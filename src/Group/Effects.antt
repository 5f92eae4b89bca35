-- ===== src/Group/Effects.antt =====
-- What each operation does to the table of members: nothing when it throws, and one known update
-- when it returns.
use coldfi.Prelude.{
  ℕ, ◌==◌, ◌≡◌, ◌≢◌, ◌⊎◌, refl, true, false, ◌&&◌, none, some, arith, select, is_none, Bool-cases,
  Option-cases, inl, inr,
}
use coldfi.Database.{Outcome-cases, update_where}
use coldfi.Blob.{Aead}
use coldfi.Group.State.{Role, is_admin, Member, Db, find_member, find_present, first_joined}
use coldfi.Group.Keys.{Fresh, renew, rotate_group_encryption_key, deactivate_and_create_invite}
use coldfi.Group.Membership.{
  set_left, is_other_admin, is_member_role, promote_before_removal, remove_member, successor,
  hand_over, leave_group, update_member_role, delete_group,
}

module _ (c : Aead) (fresh : Fresh) where
  pub renew-members :
      (group user : ℕ) (db : Db) → (renew c fresh group user db).1.members ≡ db.members
  unfolding renew rotate_group_encryption_key deactivate_and_create_invite
  renew-members group user db = ground arith

  -- the leaver's row is marked, the role handed over, and the key renewed
  abbrev pub Left : ℕ → ℕ → Db → Type 0
  Left group user db =
      (row : Member) × (find_member group user db ≡ some row)
      × (row.left_at ≡ none)
      × ((leave_group c fresh group user db).1
          ≡ let left = set_left row.id fresh.now db.members in
            let next = successor group user row.role left in
            (renew c fresh group user (record db { members = hand_over group next left })).1)

  pub leave_group-effect :
      (group user : ℕ) (db : Db) → (leave_group c fresh group user db).1 ≡ db ⊎ Left group user db
  unfolding leave_group
  leave_group-effect group user db = elim (Option-cases (find_member group user db)) [
    | inl e ↦ inl (rw e refl)
    | inr (row, e) ↦ elim (Option-cases row.left_at) [
      | inr (t, l) ↦ inl (rw e (rw l refl))
      | inl l ↦
          let left = set_left row.id fresh.now db.members in
          let next = successor group user row.role left in
          let db' : Db = record db { members = hand_over group next left } in
          elim (Outcome-cases (renew c fresh group user db')) [
            | inl (key, s, r) ↦ inr (row, e, l, ground arith)
            | inr (fault, s, r) ↦ inl (ground arith)
          ]
    ]
  ]

  -- another member that is an admin acted, the target's row is marked, and the key renewed
  abbrev pub Removed : ℕ → ℕ → ℕ → Db → Type 0
  Removed group target user db =
      (row : Member) × (a : Member) × (find_member group target db ≡ some row)
      × (row.left_at ≡ none)
      × (find_present group user db ≡ some a)
      × (is_admin a.role ≡ true)
      × (target ≢ user)
      × ((remove_member c fresh group target user db).1
          ≡ let promoted = promote_before_removal group target row.role db.members in
            (renew c fresh group user
              (record db { members = set_left row.id fresh.now promoted })).1)

  removed :
      (group target user : ℕ) (db : Db) (row a : Member)
      → find_member group target db ≡ some row
      → row.left_at ≡ none
      → find_present group user db ≡ some a
      → is_admin a.role ≡ true
      → (target == user) ≡ false
      → (remove_member c fresh group target user db).1 ≡ db ⊎ Removed group target user db
  unfolding remove_member
  removed group target user db row a e l f leads other =
      let promoted = promote_before_removal group target row.role db.members in
      let db' : Db = record db { members = set_left row.id fresh.now promoted } in
      elim (Outcome-cases (renew c fresh group user db')) [
        | inl (key, s, r) ↦ inr (row, a, e, l, f, leads, ground arith, ground arith)
        | inr (fault, s, r) ↦ inl (ground arith)
      ]

  pub remove_member-effect :
      (group target user : ℕ) (db : Db)
      → (remove_member c fresh group target user db).1 ≡ db ⊎ Removed group target user db
  unfolding remove_member
  remove_member-effect group target user db = elim (Option-cases (find_member group target db)) [
    | inl e ↦ inl (rw e refl)
    | inr (row, e) ↦ elim (Option-cases row.left_at) [
      | inr (t, l) ↦ inl (rw e (rw l refl))
      | inl l ↦ elim (Option-cases (find_present group user db)) [
        | inl f ↦ inl (ground arith)
        | inr (a, f) ↦ elim (Bool-cases (is_admin a.role)) [
          | inr plain ↦ inl (ground arith)
          | inl leads ↦ elim (Bool-cases (target == user)) [
            | inl same ↦ inl (ground arith)
            | inr other ↦ removed group target user db row a e l f leads other
          ]
        ]
      ]
    ]
  ]

-- another member that is an admin acted, and the target's row has the role
abbrev pub Changed : ℕ → ℕ → Role → ℕ → Db → Type 0
Changed group target role user db =
    (row : Member) × (a : Member) × (find_member group target db ≡ some row)
    × (find_present group user db ≡ some a)
    × (is_admin a.role ≡ true)
    × (target ≢ user)
    × ((update_member_role group target role user db).1.members
        ≡ update_where (λ (m : Member). m.id == row.id) (λ m. record m { role = role }) db.members)

changed :
    (group target : ℕ) (role : Role) (user : ℕ) (db : Db) (row a : Member)
    → find_present group user db ≡ some a
    → is_admin a.role ≡ true
    → find_member group target db ≡ some row
    → (target == user) ≡ false
    → (update_member_role group target role user db).1 ≡ db ⊎ Changed group target role user db
unfolding update_member_role
changed group target role user db row a f leads e other =
    let last = is_none (first_joined (select (is_other_admin group target) db.members)) in
    elim (Option-cases row.left_at) [
      | inr (t, l) ↦ inl (ground arith)
      | inl l ↦ elim (Bool-cases (is_member_role role && is_admin row.role && last)) [
        | inl refused ↦ inl (ground arith)
        | inr fine ↦ inr (row, a, e, f, leads, ground arith, ground arith)
      ]
    ]

pub update_member_role-effect :
    (group target : ℕ) (role : Role) (user : ℕ) (db : Db)
    → (update_member_role group target role user db).1 ≡ db ⊎ Changed group target role user db
unfolding update_member_role
update_member_role-effect group target role user db =
    elim (Option-cases (find_present group user db)) [
      | inl f ↦ inl (ground arith)
      | inr (a, f) ↦ elim (Bool-cases (is_admin a.role)) [
        | inr plain ↦ inl (ground arith)
        | inl leads ↦ elim (Option-cases (find_member group target db)) [
          | inl e ↦ inl (ground arith)
          | inr (row, e) ↦ elim (Bool-cases (target == user)) [
            | inl same ↦ inl (ground arith)
            | inr other ↦ changed group target role user db row a f leads e other
          ]
        ]
      ]
    ]

pub delete_group-members :
    (now group user : ℕ) (db : Db) → (delete_group now group user db).1.members ≡ db.members
unfolding delete_group
delete_group-members now group user db = ground arith
