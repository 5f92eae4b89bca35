-- ===== src/Group/Joining.antt =====
-- Who joins a group, and with which index.
use coldfi.Prelude.{
  ℕ, ◌==◌, ◌≡◌, ◌⊎◌, refl, Bool, true, Option, none, some, List, [], ◌∷◌, ◌++◌, is_some, arith,
  Option-cases, inl, inr,
}
use coldfi.Database.{ok, err, update_where}
use coldfi.Group.State.{Role, Member, Invite, Db, Error, find_member}
use coldfi.Group.Invites.{new_member, find_invite, count_use, next_index, rejoin, join_group}

-- the table once a user has joined, by the row that the user has in the group
abbrev pub joined : ℕ → ℕ → ℕ → ℕ → Option Member → List Member → List Member
joined now id group user none ms =
    ms ++ (new_member id group user (next_index group ms) Role.member now ∷ [])
joined now id group user (some row) ms =
    update_where (λ (m : Member). m.id == row.id) (rejoin now) ms

abbrev pub index_of : ℕ → Option Member → List Member → ℕ
index_of group none ms = next_index group ms
index_of group (some row) ms = row.member_index

-- absent: no row, or a row that was left
abbrev pub is_absent : Option Member → Bool
is_absent none = true
is_absent (some row) = is_some row.left_at

module _ (now id code user : ℕ) (db : Db) where
  -- A call either returns, for an invite that the query finds and a user that is not a member: the
  -- use is counted and the user has joined; or it throws and changes nothing, the count included.
  pub join_group-effect :
      ((i : Invite) × (find_invite now code db ≡ some i)
        × (is_absent (find_member i.group_id user db) ≡ true)
        × (join_group now id code user db ≡ (
          ok (i.group_id, index_of i.group_id (find_member i.group_id user db) db.members),
          record db {
            invites = count_use code db.invites;
            members = joined now id i.group_id user (find_member i.group_id user db) db.members;
          },
        )))
      ⊎ ((e : Error) × (join_group now id code user db ≡ (err e, db)))
  unfolding join_group
  join_group-effect = elim (Option-cases (find_invite now code db)) [
    | inl e ↦ inr (Error.invite_invalid, ground arith)
    | inr (i, e) ↦ elim (Option-cases (find_member i.group_id user db)) [
      | inl new ↦ inl (i, e, rw new refl, ground arith)
      | inr (row, old) ↦ elim (Option-cases row.left_at) [
        | inl here ↦ inr (Error.conflict, ground arith)
        | inr (t, left) ↦ inl (i, e, rw old (rw left refl), ground arith)
      ]
    ]
  ]

  -- An invite that the query finds lets in whoever is not a member.
  pub join_group-returns :
      (i : Invite)
      → find_invite now code db ≡ some i
      → is_absent (find_member i.group_id user db) ≡ true
      → (join_group now id code user db).1.members
        ≡ joined now id i.group_id user (find_member i.group_id user db) db.members
  unfolding join_group
  join_group-returns i e absent = elim (Option-cases (find_member i.group_id user db)) [
    | inl new ↦ rw new (ground arith)
    | inr (row, old) ↦ elim (Option-cases row.left_at) [
      | inl here ↦ ground arith
      | inr (t, left) ↦ rw old (ground arith)
    ]
  ]
