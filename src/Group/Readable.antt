-- ===== src/Group/Readable.antt =====
-- The stored blob of a group always decrypts under the group's current key.
use Prim.Native.String.{String}
use text.Mathlib.Text.{◌==◌ as str_eq}
use coldfi.Prelude.{
  ℕ, ◌==◌, ◌≡◌, ◌⊎◌, refl, Bool, true, false, Option, none, some, List, [], ◌∷◌, find, is_some,
  if◌then◌else◌, arith, Bool-cases, inl, inr,
}
use coldfi.Database.{ok, update_where}
use coldfi.Blob.{Bytes, Aead, decrypt_group_blob, encrypt_group_blob}
use coldfi.Group.State.{Group, Sync, Db, find_group, find_sync}
use coldfi.Group.Keys.{
  Fresh, is_blank, store_key, store_blob, rotate_group_encryption_key, deactivate_and_create_invite,
  renew,
}

abbrev pub map_option {ℓ κ} : {A : Type ℓ} {B : Type κ} → (A → B) → Option A → Option B
map_option f none = none
map_option f (some a) = some (f a)

-- An update that the query does not see does not change which row it finds.
pub find-update_where {ℓ} :
    {A : Type ℓ} (p w : A → Bool) (f : A → A) (rows : List A)
    → ((r : A) → p (f r) ≡ p r)
    → ((r : A) → p r ≡ true → w r ≡ true)
    → find p (update_where w f rows) ≡ map_option f (find p rows)
find-update_where p w f [] same all = refl
find-update_where p w f (r ∷ rows) same all =
    let ih = find-update_where p w f rows same all in
    let s = same r in
    let t = all r in
    elim (Bool-cases (p r)) [
      | inl found ↦ rw (found, t found, s, found) refl
      | inr other ↦ elim (Bool-cases (w r)) [
        | inl hit ↦ rw (hit, s, other) ih
        | inr miss ↦ rw (miss, other) ih
      ]
    ]

-- An update of other rows does not change what the query finds.
pub find-update_where_ne {ℓ} :
    {A : Type ℓ} (p w : A → Bool) (f : A → A) (rows : List A)
    → ((r : A) → p (f r) ≡ p r)
    → ((r : A) → p r ≡ true → w r ≡ false)
    → find p (update_where w f rows) ≡ find p rows
find-update_where_ne p w f [] same none_hit = refl
find-update_where_ne p w f (r ∷ rows) same none_hit =
    let ih = find-update_where_ne p w f rows same none_hit in
    let s = same r in
    let t = none_hit r in
    elim (Bool-cases (p r)) [
      | inl found ↦ rw (found, t found, found) refl
      | inr other ↦ elim (Bool-cases (w r)) [
        | inl hit ↦ rw (hit, s, other) ih
        | inr miss ↦ rw (miss, other) ih
      ]
    ]

-- The blob that is stored for the group is not the empty text, and decrypts under the key that is
-- stored for the group.
abbrev pub IsReadable : Aead → ℕ → Db → Type 0
IsReadable c group db =
    (g : Group) (r : Sync)
    → find_group group db ≡ some g
    → find_sync group db ≡ some r
    → (str_eq r.encrypted_blob "" ≡ false)
      × (is_some (decrypt_group_blob c g.encryption_key r.encrypted_blob) ≡ true)

abbrev pub with_key : Fresh → Group → Group
with_key fresh g = record g { encryption_key = fresh.new_key; updated_at = fresh.now }

abbrev pub with_blob : String → Sync → Sync
with_blob blob r = record r { encrypted_blob = blob }

abbrev pub AllReadable : Aead → Db → Type 0
AllReadable c db = (group : ℕ) → IsReadable c group db

module _ (c : Aead) (fresh : Fresh) (group user : ℕ) (db : Db) where
  -- the tables once the key is stored, and the blob under it
  abbrev pub rekeyed : List Group
  rekeyed = (store_key group fresh.now fresh.new_key db).groups

  abbrev pub reblobbed : Bytes → List Sync
  reblobbed plain = (store_blob group (encrypt_group_blob c fresh.iv fresh.new_key plain) db).syncs

  -- `renew` on a group with a blob that its key decrypts: it returns the new key.
  pub renew_blob :
      (g : Group) (r : Sync) (plain : Bytes)
      → find_group group db ≡ some g
      → is_blank g.encryption_key ≡ false
      → find_sync group db ≡ some r
      → str_eq r.encrypted_blob "" ≡ false
      → decrypt_group_blob c g.encryption_key r.encrypted_blob ≡ some plain
      → ((renew c fresh group user db).0 ≡ ok fresh.new_key)
        × ((renew c fresh group user db).1.groups ≡ rekeyed)
        × ((renew c fresh group user db).1.syncs ≡ reblobbed plain)
  unfolding renew rotate_group_encryption_key deactivate_and_create_invite
  renew_blob g r plain eg kb es nb ep = ground arith

  -- on a group without a blob
  pub renew_bare :
      (g : Group)
      → find_group group db ≡ some g
      → is_blank g.encryption_key ≡ false
      → find_sync group db ≡ none
      → ((renew c fresh group user db).0 ≡ ok fresh.new_key)
        × ((renew c fresh group user db).1.groups ≡ rekeyed)
        × ((renew c fresh group user db).1.syncs ≡ db.syncs)
  unfolding renew rotate_group_encryption_key deactivate_and_create_invite
  renew_bare g eg kb es = ground arith

  -- on no group, or one without a key
  pub renew_idle :
      ((find_group group db ≡ none)
        ⊎ ((g : Group) × (find_group group db ≡ some g) × (is_blank g.encryption_key ≡ true)))
      → ((renew c fresh group user db).1.groups ≡ db.groups)
        × ((renew c fresh group user db).1.syncs ≡ db.syncs)
  unfolding renew rotate_group_encryption_key deactivate_and_create_invite
  renew_idle (inl e) = ground arith
  renew_idle (inr (g, e, b)) = ground arith

  -- which row the queries find in the new tables
  pub find-rekeyed :
      (h : ℕ)
      → find (λ (g : Group). g.id == h) rekeyed
        ≡ (if h == group then map_option (with_key fresh) (find_group h db) else find_group h db)
  find-rekeyed h = elim (Bool-cases (h == group)) [
    | inl same ↦ rw same (find-update_where _ _ _ db.groups (λ g. refl) (λ g e. ground arith))
    | inr other ↦ rw other (find-update_where_ne _ _ _ db.groups (λ g. refl) (λ g e. ground arith))
  ]

  pub find-reblobbed :
      (plain : Bytes) (h : ℕ)
      → find (λ (r : Sync). r.group_id == h) (reblobbed plain) ≡ (
          if h == group
          then map_option
              (with_blob (encrypt_group_blob c fresh.iv fresh.new_key plain))
              (find_sync h db)
          else find_sync h db)
  find-reblobbed plain h = elim (Bool-cases (h == group)) [
    | inl same ↦ rw same (find-update_where _ _ _ db.syncs (λ g. refl) (λ g e. ground arith))
    | inr other ↦ rw other (find-update_where_ne _ _ _ db.syncs (λ g. refl) (λ g e. ground arith))
  ]
