-- ===== src/Group/Membership.antt =====
-- `removeMember`, `leaveGroup`, `updateMemberRole` and `deleteGroup` of
-- packages/backend/src/services/groupService.ts. `Admins` and `Readable` prove what they keep.
use coldfi.Prelude.{
  ℕ, ◌==◌, Bool, true, false, not, ◌&&◌, Option, none, some, List, select, is_some, is_none,
  if◌then◌else◌,
}
use coldfi.Database.{◌>>=◌, ◌>>◌, pure, throw_if, gets, modify, or_throw, transaction, update_where}
use coldfi.Blob.{Bytes, Aead}
use coldfi.Group.State.{
  Role, is_admin, Member, Action, not_found, conflict, forbidden, validation, last_admin,
  is_present, is_row, find_member, find_present, first_joined,
}
use coldfi.Group.Keys.{Fresh, renew, deactivate_invites}

-- `UPDATE group_members SET role = … WHERE group_id = $1 AND user_id = $2`
abbrev pub set_role : ℕ → ℕ → Role → List Member → List Member
set_role group user role = update_where (is_row group user) (λ m. record m { role = role })

-- `UPDATE group_members SET left_at = NOW() WHERE id = $1`
abbrev pub set_left : ℕ → ℕ → List Member → List Member
set_left id now = update_where (λ (m : Member). m.id == id) (λ m. record m { left_at = some now })

-- present members of the group other than the user
abbrev pub is_other : ℕ → ℕ → Member → Bool
is_other group user m = m.group_id == group && is_present m && not (m.user_id == user)

abbrev pub is_other_admin : ℕ → ℕ → Member → Bool
is_other_admin group user m = is_other group user m && is_admin m.role

-- `adminRes.rows.length === 0 || adminRes.rows[0].role !== 'admin'`
abbrev pub lacks_admin : Option Member → Bool
lacks_admin none = true
lacks_admin (some m) = not (is_admin m.role)

-- the block under `result.rows[0].role === 'admin'` of `removeMember`
abbrev promote_to : ℕ → Option Member → List Member → List Member
promote_to group none ms = ms
promote_to group (some next) ms = set_role group next.user_id Role.admin ms

unfoldable pub promote_before_removal : ℕ → ℕ → Role → List Member → List Member
promote_before_removal group target role ms =
    if is_admin role && is_none (first_joined (select (is_other_admin group target) ms))
    then promote_to group (first_joined (select (is_other group target) ms)) ms
    else ms

module _ (c : Aead) (fresh : Fresh) where
  remove_member_body : ℕ → ℕ → ℕ → Action (ℕ × Bytes)
  remove_member_body group target admin = do
    row ← or_throw (← gets (find_member group target)) not_found
    throw_if (is_some row.left_at) conflict
    throw_if (lacks_admin (← gets (find_present group admin))) forbidden
    throw_if (target == admin) validation
    modify λ db. record db { members = promote_before_removal group target row.role db.members }
    modify λ db. record db { members = set_left row.id fresh.now db.members }
    key ← renew c fresh group admin
    pure (fresh.now, key)

  unfoldable pub remove_member : ℕ → ℕ → ℕ → Action (ℕ × Bytes)
  unfolding transaction remove_member_body
  remove_member group target admin = transaction (remove_member_body group target admin)

-- whom `leaveGroup` makes an admin, once the leaver's row is marked
unfoldable pub successor : ℕ → ℕ → Role → List Member → Option ℕ
successor group user role ms =
    if is_admin role && is_none (first_joined (select (is_other_admin group user) ms))
    then elim (first_joined (select (λ m. m.group_id == group && is_present m) ms)) [
      | none ↦ none
      | some next ↦ some next.user_id
    ]
    else none

unfoldable pub hand_over : ℕ → Option ℕ → List Member → List Member
hand_over group none ms = ms
hand_over group (some user) ms = set_role group user Role.admin ms

module _ (c : Aead) (fresh : Fresh) where
  leave_group_body : ℕ → ℕ → Action (ℕ × Option ℕ)
  leave_group_body group user = do
    row ← or_throw (← gets (find_member group user)) not_found
    throw_if (is_some row.left_at) conflict
    modify λ db. record db { members = set_left row.id fresh.now db.members }
    next ← gets (λ db. successor group user row.role db.members)
    modify λ db. record db { members = hand_over group next db.members }
    renew c fresh group user
    pure (fresh.now, next)

  unfoldable pub leave_group : ℕ → ℕ → Action (ℕ × Option ℕ)
  unfolding transaction leave_group_body
  leave_group group user = transaction (leave_group_body group user)

-- `newRole` is 'admin' or 'member'; `demotes` is `newRole === 'member'`
abbrev pub is_member_role : Role → Bool
is_member_role Role.member = true
is_member_role _ = false

update_member_role_body : ℕ → ℕ → Role → ℕ → Action Role
update_member_role_body group target new_role admin = do
  throw_if (lacks_admin (← gets (find_present group admin))) forbidden
  row ← or_throw (← gets (find_member group target)) not_found
  throw_if (is_some row.left_at) conflict
  throw_if (target == admin) validation
  others ← gets (λ db. select (is_other_admin group target) db.members)
  throw_if (is_member_role new_role && is_admin row.role && is_none (first_joined others))
      last_admin
  modify λ db. record db {
    members =
        update_where (λ (m : Member). m.id == row.id) (λ m. record m { role = new_role })
          db.members;
  }
  pure new_role

unfoldable pub update_member_role : ℕ → ℕ → Role → ℕ → Action Role
unfolding transaction update_member_role_body
update_member_role group target new_role admin =
    transaction (update_member_role_body group target new_role admin)

delete_group_body : ℕ → ℕ → ℕ → Action Bool
delete_group_body now group user = do
  throw_if (lacks_admin (← gets (find_present group user))) forbidden
  modify λ db. record db {
    groups =
        update_where (λ g. g.id == group) (λ g. record g { is_active = false; updated_at = now })
          db.groups;
  }
  modify λ db. record db { invites = deactivate_invites group db.invites }
  pure true

unfoldable pub delete_group : ℕ → ℕ → ℕ → Action Bool
unfolding transaction delete_group_body
delete_group now group user = transaction (delete_group_body now group user)
