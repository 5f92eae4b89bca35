-- ===== src/Group/Sample.antt =====
-- A group of three with a stored blob, for runs on concrete input.
use coldfi.Prelude.{ℕ, ◌==◌, ◌≡◌, refl, ap, true, none, some, [], ◌∷◌, arith, Bool-cases, inl, inr}
use mathlib.Core.Option.{some-injective}
use coldfi.Blob.{Bytes, encrypt_group_blob, decrypt_group_blob}
use coldfi.Blob.Sample.{sample_aead}
use coldfi.Group.State.{Role, Group, Member, Invite, Sync, Db}
use coldfi.Group.Keys.{Fresh}
use coldfi.Group.Governed.{IsGoverned}
use coldfi.Group.Indices.{IsIndexed}
use coldfi.Group.Readable.{AllReadable}

abbrev pub twelve_bytes : Bytes
twelve_bytes = 9 ∷ 8 ∷ 7 ∷ 6 ∷ 5 ∷ 4 ∷ 3 ∷ 2 ∷ 1 ∷ 0 ∷ 0 ∷ 0 ∷ []

abbrev pub old_key : Bytes
old_key = 3 ∷ []

abbrev pub expenses : Bytes
expenses = 1 ∷ 2 ∷ []

abbrev pub sample_fresh : Fresh
sample_fresh = record { now = 100; new_key = 5 ∷ []; iv = twelve_bytes; code = 77; invite_id = 9 }

abbrev pub member_of : ℕ → ℕ → Role → ℕ → Member
member_of id user role index = record {
  id = id;
  group_id = 1;
  user_id = user;
  role = role;
  member_index = index;
  joined_at = id;
  left_at = none;
}

abbrev pub sample_group : Group
sample_group = record {
  id = 1;
  name = "flat";
  encryption_key = old_key;
  default_currency = "EUR";
  created_by = 1;
  is_active = true;
  created_at = 10;
  updated_at = 10;
}

abbrev pub sample_invite : Invite
sample_invite = record {
  id = 8;
  group_id = 1;
  code = 55;
  created_by = 1;
  expires_at = some 900;
  max_uses = 0;
  use_count = 0;
  is_active = true;
  created_at = 10;
}

abbrev pub sample_sync : Sync
sample_sync = record {
  group_id = 1;
  encrypted_blob = encrypt_group_blob sample_aead twelve_bytes old_key expenses;
  vector_clock = (1, 2) ∷ [];
  updated_by = 1;
  updated_at = 20;
}

abbrev pub sample_db : Db
sample_db = record {
  groups = sample_group ∷ [];
  members =
      member_of 10 1 Role.admin 0
      ∷ member_of 11 2 Role.member 1
      ∷ member_of 12 3 Role.member 2
      ∷ [];
  invites = sample_invite ∷ [];
  syncs = sample_sync ∷ [];
}

-- the group once everybody has left
abbrev pub empty_db : Db
empty_db = record sample_db { members = [] }

pub sample_db-IsGoverned : IsGoverned sample_db.members
sample_db-IsGoverned = (((λ h. cc, (λ h. cc, tt)), ((λ h. cc, tt), (tt, tt))), λ g h. ground arith)

pub sample_db-IsIndexed : IsIndexed sample_db.members
sample_db-IsIndexed = (
  (λ h. (λ k. cc, λ k. cc), (λ h. (λ k. cc, λ k. cc), tt)),
  ((λ h. (λ k. cc, λ k. cc), tt), (tt, tt)),
)

pub sample_db-AllReadable : AllReadable sample_aead sample_db
unfolding encrypt_group_blob decrypt_group_blob
sample_db-AllReadable h g r e f = elim (Bool-cases (1 == h)) [
  | inl same ↦
      let eg = some-injective sample_group g (rw same at e) in
      let er = some-injective sample_sync r (rw same at f) in
      rw (← ap (λ (x : Group). x.encryption_key) eg, ← ap (λ (x : Sync). x.encrypted_blob) er)
        (refl, refl)
  | inr other ↦ let gone : none ≡ some g = rw other at e in cc
]
