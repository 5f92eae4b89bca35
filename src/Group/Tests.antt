-- ===== src/Group/Tests.antt =====
-- Concrete inputs for the theorems on groups.
use coldfi.Prelude.{
  ℕ, ◌+◌, ◌≤◌, ◌==◌, ◌≡◌, refl, true, false, Option, some, [], ◌∷◌, any, if◌then◌else◌,
}
use coldfi.Database.{ok}
use coldfi.Clock.{entry, detect_conflict, merge_clocks, tick}
use coldfi.Blob.{decrypt_group_blob, encrypt_group_blob}
use coldfi.Blob.Sample.{sample_aead, sample_aead-IsAead}
use coldfi.Group.Indices.{IsIndexed, join_group-IsIndexed}
use coldfi.Group.State.{Role, find_group, find_sync}
use coldfi.Group.Membership.{leave_group, remove_member, update_member_role}
use coldfi.Group.Invites.{join_group}
use coldfi.Group.Sync.{new_sync, sync_group_blob}
use coldfi.Group.Admins.{is_in, is_admin_in}
use coldfi.Group.Governed.{
  IsGoverned, leave_group-IsGoverned, remove_member-IsGoverned, update_member_role-IsGoverned,
}
use coldfi.Group.Readable.{AllReadable, with_key, with_blob}
use coldfi.Group.Rotation.{leave_group-AllReadable, leave_group_plaintext, new_blob}
use coldfi.Group.Uploads.{sync_group_blob-stored, sync_group_blob-AllReadable}
use coldfi.Group.Newcomers.{join_group_unled}
use coldfi.Group.Sample.{
  sample_db-IsIndexed, sample_db, empty_db, sample_fresh, sample_group, sample_invite, sample_sync,
  expenses, twelve_bytes, member_of, sample_db-IsGoverned, sample_db-AllReadable,
}

leave_group-IsGoverned_example :
    IsGoverned (leave_group sample_aead sample_fresh 1 1 sample_db).1.members
leave_group-IsGoverned_example =
    leave_group-IsGoverned sample_aead sample_fresh 1 1 sample_db sample_db-IsGoverned

remove_member-IsGoverned_example :
    IsGoverned (remove_member sample_aead sample_fresh 1 2 1 sample_db).1.members
remove_member-IsGoverned_example =
    remove_member-IsGoverned sample_aead sample_fresh 1 2 1 sample_db sample_db-IsGoverned

update_member_role-IsGoverned_example :
    IsGoverned (update_member_role 1 2 Role.admin 1 sample_db).1.members
update_member_role-IsGoverned_example =
    update_member_role-IsGoverned 1 2 Role.admin 1 sample_db sample_db-IsGoverned

leave_group-AllReadable_example :
    AllReadable sample_aead (leave_group sample_aead sample_fresh 1 1 sample_db).1
leave_group-AllReadable_example =
    leave_group-AllReadable sample_aead sample_aead-IsAead sample_fresh refl 1 1 sample_db
      sample_db-AllReadable

leave_group_plaintext_example :
    let after = (leave_group sample_aead sample_fresh 1 1 sample_db).1 in
    let blob = encrypt_group_blob sample_aead twelve_bytes (5 ∷ []) expenses in
    ((next : Option ℕ) × ((leave_group sample_aead sample_fresh 1 1 sample_db).0 ≡ ok (100, next)))
    × (find_group 1 after ≡ some (with_key sample_fresh sample_group))
    × (find_sync 1 after ≡ some (with_blob blob sample_sync))
    × (decrypt_group_blob sample_aead (5 ∷ []) blob ≡ some expenses)
unfolding encrypt_group_blob decrypt_group_blob new_blob
leave_group_plaintext_example =
    leave_group_plaintext sample_aead sample_aead-IsAead sample_fresh refl 1 1 sample_db
      (member_of 10 1 Role.admin 0) sample_group sample_sync expenses refl refl refl refl refl refl
      refl

sync_group_blob-stored_example :
    ((j : ℕ) → entry ((1, 2) ∷ []) j ≤ entry ((1, 4) ∷ []) j)
    × ((j : ℕ)
        → entry ((1, 4) ∷ (2, 1) ∷ []) j
          ≡ (if 2 == j then entry ((1, 4) ∷ []) j + 1 else entry ((1, 4) ∷ []) j))
    × (find_sync 1
          (sync_group_blob sample_aead 50 1 sample_sync.encrypted_blob ((1, 4) ∷ []) 2 sample_db).1
        ≡ some (new_sync 50 1 sample_sync.encrypted_blob ((1, 4) ∷ (2, 1) ∷ []) 2))
unfolding sync_group_blob encrypt_group_blob decrypt_group_blob detect_conflict tick merge_clocks
sync_group_blob-stored_example =
    sync_group_blob-stored sample_aead 50 1 sample_sync.encrypted_blob ((1, 4) ∷ []) 2 sample_db
      ((1, 4) ∷ (2, 1) ∷ []) 50 refl

sync_group_blob-AllReadable_example :
    AllReadable sample_aead
      (sync_group_blob sample_aead 50 1 sample_sync.encrypted_blob ((1, 4) ∷ []) 2 sample_db).1
sync_group_blob-AllReadable_example =
    sync_group_blob-AllReadable sample_aead 50 1 sample_sync.encrypted_blob ((1, 4) ∷ []) 2
      sample_db sample_db-AllReadable

join_group_unled_example :
    let after = (join_group 200 13 55 4 empty_db).1.members in
    (any (is_in 1) after ≡ true) × (any (is_admin_in 1) after ≡ false)
join_group_unled_example = join_group_unled 200 13 55 4 empty_db sample_invite tt refl refl refl

join_group-IsIndexed_example : IsIndexed (join_group 200 13 55 4 sample_db).1.members
join_group-IsIndexed_example = join_group-IsIndexed 200 13 55 4 sample_db sample_db-IsIndexed
