-- ===== src/Group/Invites.antt =====
-- `createGroup`, `createInvite`, `revokeInvite`, `lookupInvite` and `joinGroup` of
-- packages/backend/src/services/groupService.ts.
use Prim.Native.String.{String}
use coldfi.Prelude.{
  ℕ, ◌+◌, ◌==◌, ltb, max, Bool, true, false, ◌&&◌, ◌||◌, Option, none, some, List, [], ◌∷◌, ◌++◌,
  find, any, is_none, if◌then◌else◌,
}
use coldfi.Database.{◌>>=◌, ◌>>◌, pure, throw_if, gets, modify, or_throw, transaction, update_where}
use coldfi.Blob.{Bytes}
use coldfi.Group.State.{
  Role, Group, Member, Invite, Db, Action, conflict, invite_invalid, find_member,
}
use coldfi.Group.Keys.{Fresh, new_invite}

-- what `createGroup` draws at random: `crypto.randomUUID()` twice and the key
pub record NewIds : Type 0 where
  pub now : ℕ
  pub group_id : ℕ
  pub member_id : ℕ
  pub key : Bytes

abbrev pub new_member : ℕ → ℕ → ℕ → ℕ → Role → ℕ → Member
new_member id group user index role now = record {
  id = id;
  group_id = group;
  user_id = user;
  role = role;
  member_index = index;
  joined_at = now;
  left_at = none;
}

abbrev pub new_group : (String → String) → NewIds → String → String → ℕ → Group
new_group trim ids name currency user = record {
  id = ids.group_id;
  name = trim name;
  encryption_key = ids.key;
  default_currency = currency;
  created_by = user;
  is_active = true;
  created_at = ids.now;
  updated_at = ids.now;
}

-- `trim` is `String.prototype.trim`.
create_group_body : (String → String) → NewIds → String → String → ℕ → Action (ℕ × ℕ)
create_group_body trim ids name currency user = do
  modify λ db. record db { groups = db.groups ++ (new_group trim ids name currency user ∷ []) }
  modify λ db. record db {
    members = db.members ++ (new_member ids.member_id ids.group_id user 0 Role.admin ids.now ∷ []);
  }
  pure (ids.group_id, 0)

unfoldable pub create_group : (String → String) → NewIds → String → String → ℕ → Action (ℕ × ℕ)
unfolding transaction create_group_body
create_group trim ids name currency user =
    transaction (create_group_body trim ids name currency user)

unfoldable pub create_invite : Fresh → ℕ → ℕ → Action (ℕ × ℕ)
create_invite fresh group user = do
  modify λ db. record db { invites = db.invites ++ (new_invite fresh group user ∷ []) }
  pure (fresh.invite_id, fresh.code)

unfoldable pub revoke_invite : ℕ → ℕ → Action (Unit {0})
revoke_invite invite group = modify λ db. record db {
  invites =
      update_where (λ (i : Invite). i.id == invite && i.group_id == group)
        (λ i. record i { is_active = false }) db.invites;
}

-- `expires_at IS NULL OR expires_at > NOW()`
abbrev pub is_unexpired : ℕ → Option ℕ → Bool
is_unexpired now none = true
is_unexpired now (some t) = ltb now t

abbrev pub is_active_group : List Group → ℕ → Bool
is_active_group groups group = any (λ (g : Group). g.id == group && g.is_active) groups

-- the `JOIN` and the `WHERE` of the query that `lookupInvite` and `joinGroup` make
abbrev pub is_usable : ℕ → List Group → ℕ → Invite → Bool
is_usable now groups code i =
    i.code == code
    && i.is_active
    && is_unexpired now i.expires_at
    && (i.max_uses == 0 || ltb i.use_count i.max_uses)
    && is_active_group groups i.group_id

abbrev pub find_invite : ℕ → ℕ → Db → Option Invite
find_invite now code db = find (is_usable now db.groups code) db.invites

unfoldable pub lookup_invite : ℕ → ℕ → Action ℕ
lookup_invite now code = do
  i ← or_throw (← gets (find_invite now code)) invite_invalid
  pure i.group_id

abbrev pub count_use : ℕ → List Invite → List Invite
count_use code =
    update_where (λ (i : Invite). i.code == code) (λ i. record i { use_count = i.use_count + 1 })

-- `COALESCE(MAX(member_index), -1) + 1` over the rows of a group
abbrev pub next_index : ℕ → List Member → ℕ
next_index group [] = 0
next_index group (m ∷ ms) =
    if m.group_id == group
    then max (m.member_index + 1) (next_index group ms)
    else next_index group ms

abbrev pub rejoin : ℕ → Member → Member
rejoin now m = record m { left_at = none; role = Role.member; joined_at = now }

-- what follows the count of the use, by the row that the user has in the group
admit : ℕ → ℕ → ℕ → ℕ → Option Member → Action (ℕ × ℕ)
admit now member_id group user (some row) = do
  throw_if (is_none row.left_at) conflict
  modify λ db. record db {
    members = update_where (λ (m : Member). m.id == row.id) (rejoin now) db.members;
  }
  pure (group, row.member_index)
admit now member_id group user none = do
  index ← gets (λ db. next_index group db.members)
  modify λ db. record db {
    members = db.members ++ (new_member member_id group user index Role.member now ∷ []);
  }
  pure (group, index)

join_group_body : ℕ → ℕ → ℕ → ℕ → Action (ℕ × ℕ)
unfolding admit
join_group_body now member_id code user = do
  i ← or_throw (← gets (find_invite now code)) invite_invalid
  existing ← gets (find_member i.group_id user)
  modify λ db. record db { invites = count_use code db.invites }
  admit now member_id i.group_id user existing

unfoldable pub join_group : ℕ → ℕ → ℕ → ℕ → Action (ℕ × ℕ)
unfolding transaction join_group_body
join_group now member_id code user = transaction (join_group_body now member_id code user)
