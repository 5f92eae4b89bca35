-- ===== src/Group/Keys.antt =====
-- `rotateGroupEncryptionKey` and `deactivateAndCreateInvite` of
-- packages/backend/src/services/groupService.ts.
use Prim.Native.String.{String}
use text.Mathlib.Text.{◌==◌ as str_eq}
use coldfi.Prelude.{
  ℕ, ◌+◌, ◌==◌, Bool, true, false, Option, none, some, List, [], ◌∷◌, ◌++◌, if◌then◌else◌,
}
use coldfi.Database.{◌>>=◌, ◌>>◌, pure, gets, modify, or_throw, throw_if, update_where}
use coldfi.Blob.{Bytes, Aead, decrypt_group_blob, encrypt_group_blob}
use coldfi.Group.State.{Invite, Sync, Db, not_found, cipher, Action, find_group, find_sync}

-- What a call draws at random, and its time: `generateEncryptionKey`, the iv, the invite's code
-- and its id.
pub record Fresh : Type 0 where
  pub now : ℕ
  pub new_key : Bytes
  pub iv : Bytes
  pub code : ℕ
  pub invite_id : ℕ

-- `!key`
abbrev pub is_blank : Bytes → Bool
is_blank [] = true
is_blank (_ ∷ _) = false

-- seven days, in milliseconds
abbrev pub invite_lifetime : ℕ
invite_lifetime = 604_800_000

abbrev pub store_key : ℕ → ℕ → Bytes → Db → Db
store_key group now key db = record db {
  groups =
      update_where (λ g. g.id == group) (λ g. record g { encryption_key = key; updated_at = now })
        db.groups;
}

abbrev pub store_blob : ℕ → String → Db → Db
store_blob group blob db = record db {
  syncs =
      update_where (λ r. r.group_id == group) (λ r. record r { encrypted_blob = blob }) db.syncs;
}

module _ (c : Aead) (fresh : Fresh) where
  -- the part after the key is stored; an empty blob counts as none
  reencrypt : ℕ → Bytes → Option Sync → Action (Unit {0})
  reencrypt group old_key none = pure tt
  reencrypt group old_key (some r) = if str_eq r.encrypted_blob "" then pure tt else do
    plain ← or_throw (decrypt_group_blob c old_key r.encrypted_blob) cipher
    modify (store_blob group (encrypt_group_blob c fresh.iv fresh.new_key plain))

  unfoldable pub rotate_group_encryption_key : ℕ → Action Bytes
  unfolding reencrypt
  rotate_group_encryption_key group = do
    g ← or_throw (← gets (find_group group)) not_found
    throw_if (is_blank g.encryption_key) not_found
    modify (store_key group fresh.now fresh.new_key)
    reencrypt group g.encryption_key (← gets (find_sync group))
    pure fresh.new_key

-- `INSERT INTO invite_codes`, as `createInvite` and `deactivateAndCreateInvite` do
abbrev pub new_invite : Fresh → ℕ → ℕ → Invite
new_invite fresh group user = record {
  id = fresh.invite_id;
  group_id = group;
  code = fresh.code;
  created_by = user;
  expires_at = some (fresh.now + invite_lifetime);
  max_uses = 0;
  use_count = 0;
  is_active = true;
  created_at = fresh.now;
}

abbrev pub deactivate_invites : ℕ → List Invite → List Invite
deactivate_invites group =
    update_where (λ (i : Invite). i.group_id == group) (λ i. record i { is_active = false })

unfoldable pub deactivate_and_create_invite : Fresh → ℕ → ℕ → Action (Unit {0})
deactivate_and_create_invite fresh group user = modify λ db. record db {
  invites = deactivate_invites group db.invites ++ (new_invite fresh group user ∷ []);
}

-- The last steps of `removeMember` and `leaveGroup`: a new key and a new invite.
unfoldable pub renew : Aead → Fresh → ℕ → ℕ → Action Bytes
renew c fresh group user = do
  key ← rotate_group_encryption_key c fresh group
  deactivate_and_create_invite fresh group user
  pure key
