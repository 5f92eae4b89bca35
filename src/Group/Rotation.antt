-- ===== src/Group/Rotation.antt =====
-- A change of the group's key: whoever leaves or is removed, the members that stay can read the
-- blob, and it says what it said before.
use Prim.Native.String.{String}
use text.Mathlib.Text.{◌==◌ as str_eq}
use text.Mathlib.TextEquality.{eq_iff}
use mathlib.Core.Option.{some-injective}
use coldfi.Prelude.{
  ap, sym, ◌∙◌, ℕ, ◌==◌, ==_iff, ==_refl, ◌≡◌, ◌⊎◌, refl, true, false, Option, none, some, find,
  is_some, arith, Bool-cases, Option-cases, inl, inr, length,
}
use coldfi.Database.{ok}
use coldfi.Blob.{
  Bytes, Aead, IsAead, iv_length, decrypt_group_blob, encrypt_group_blob, decrypt-encrypt,
  encrypt-ne-empty,
}
use coldfi.Group.State.{Group, Sync, Member, Db, find_group, find_sync, find_member}
use coldfi.Group.Keys.{Fresh, is_blank, renew}
use coldfi.Group.Membership.{set_left, successor, hand_over, leave_group, remove_member}
use coldfi.Group.Effects.{leave_group-effect, remove_member-effect}
use coldfi.Group.Readable.{
  map_option, with_key, with_blob, IsReadable, AllReadable, rekeyed, reblobbed, renew_blob,
  renew_bare, renew_idle, find-rekeyed, find-reblobbed,
}

map_option-some {ℓ κ} :
    {A : Type ℓ} {B : Type κ} (f : A → B) (o : Option A) (b : B)
    → map_option f o ≡ some b
    → (a : A) × (o ≡ some a) × (f a ≡ b)
map_option-some f none b h = cc
map_option-some f (some a) b h = (a, refl, some-injective (f a) b h)

none-some {ℓ} : {A : Type ℓ} {a : A} → none ≡ some a → ⊥
none-some h = cc

module _ (c : Aead) (laws : IsAead c) (fresh : Fresh) (size : length fresh.iv ≡ iv_length) where
  unfoldable pub new_blob : Bytes → String
  new_blob plain = encrypt_group_blob c fresh.iv fresh.new_key plain

  new_blob-readable :
      (plain : Bytes)
      → (str_eq (new_blob plain) "" ≡ false)
        × (decrypt_group_blob c fresh.new_key (new_blob plain) ≡ some plain)
  unfolding new_blob
  new_blob-readable plain = (
    elim (Bool-cases (str_eq (new_blob plain) "")) [
      | inl e ↦ absurd (
          encrypt-ne-empty c laws fresh.iv fresh.new_key plain size
            ((eq_iff (new_blob plain) "").0 e))
      | inr e ↦ e
    ],
    decrypt-encrypt c laws fresh.new_key fresh.iv plain size,
  )

  module _ (group user : ℕ) (db : Db) where
    blob-IsReadable :
        (plain : Bytes) (h : ℕ)
        → AllReadable c db
        → (renew c fresh group user db).1.groups ≡ rekeyed c fresh group user db
        → (renew c fresh group user db).1.syncs ≡ reblobbed c fresh group user db plain
        → IsReadable c h (renew c fresh group user db).1
    unfolding new_blob
    blob-IsReadable plain h v eg es g r fg fr =
        let fg' = sym (find-rekeyed c fresh group user db h) ∙ (rw eg at fg) in
        let fr' = sym (find-reblobbed c fresh group user db plain h) ∙ (rw es at fr) in
        elim (Bool-cases (h == group)) [
          | inr other ↦ v h g r (rw other at fg') (rw other at fr')
          | inl same ↦
              let (g', _, sg) =
                map_option-some (with_key fresh) (find_group h db) g (rw same at fg') in
              let (r', _, sr) =
                map_option-some (with_blob (encrypt_group_blob c fresh.iv fresh.new_key plain))
                  (find_sync h db) r (rw same at fr') in
              let kg : g.encryption_key ≡ fresh.new_key =
                sym (ap (λ (x : Group). x.encryption_key) sg) in
              let kr : r.encrypted_blob ≡ encrypt_group_blob c fresh.iv fresh.new_key plain =
                sym (ap (λ (x : Sync). x.encrypted_blob) sr) in
              let (full, back) = new_blob-readable plain in rw (kr, kg) (full, rw back refl)
        ]

    bare-IsReadable :
        (h : ℕ)
        → AllReadable c db
        → find_sync group db ≡ none
        → (renew c fresh group user db).1.groups ≡ rekeyed c fresh group user db
        → (renew c fresh group user db).1.syncs ≡ db.syncs
        → IsReadable c h (renew c fresh group user db).1
    bare-IsReadable h v bare eg es g r fg fr =
        let fg' = sym (find-rekeyed c fresh group user db h) ∙ (rw eg at fg) in
        let fr' : find_sync h db ≡ some r = rw es at fr in
        elim (Bool-cases (h == group)) [
          | inr other ↦ v h g r (rw other at fg') fr'
          | inl same ↦
              absurd
                (none-some (sym bare ∙ ap (λ k. find_sync k db) (sym ((==_iff _ _).0 same)) ∙ fr'))
        ]

    -- If every stored blob decrypts under its group's key, so it does after a change of key.
    pub renew-AllReadable : AllReadable c db → AllReadable c (renew c fresh group user db).1
    renew-AllReadable v h = elim (Option-cases (find_group group db)) [
      | inl e ↦ kept (inl e)
      | inr (g, e) ↦ elim (Bool-cases (is_blank g.encryption_key)) [
        | inl b ↦ kept (inr (g, e, b))
        | inr b ↦ elim (Option-cases (find_sync group db)) [
          | inl bare ↦
              let (_, eg, es) = renew_bare c fresh group user db g e b bare in
              bare-IsReadable h v bare eg es
          | inr (r, f) ↦
              let (full, opens) = v group g r e f in
              let (plain, p) =
                opened (decrypt_group_blob c g.encryption_key r.encrypted_blob) opens in
              let (_, eg, es) = renew_blob c fresh group user db g r plain e b f full p in
              blob-IsReadable plain h v eg es
        ]
      ]
    ]
      where
        kept :
            ((find_group group db ≡ none)
              ⊎ ((g : Group) × (find_group group db ≡ some g) × (is_blank g.encryption_key ≡ true)))
            → IsReadable c h (renew c fresh group user db).1
        kept how g r fg fr =
            let (eg, es) = renew_idle c fresh group user db how in
            v h g r (rw eg at fg) (rw es at fr)

        opened : (o : Option Bytes) → is_some o ≡ true → (plain : Bytes) × (o ≡ some plain)
        opened none e = cc
        opened (some plain) e = (plain, refl)

  -- Under the laws of the cipher and with an iv of twelve bytes: if every stored blob decrypts
  -- under its group's key and is not empty, then so it is after `leaveGroup`, which changes the
  -- key.
  pub leave_group-AllReadable :
      (group user : ℕ) (db : Db)
      → AllReadable c db
      → AllReadable c (leave_group c fresh group user db).1
  leave_group-AllReadable group user db v = elim (leave_group-effect c fresh group user db) [
    | inl same ↦ rw same v
    | inr (row, e, l, after) ↦ rw after (renew-AllReadable group user _ v)
  ]

  -- Under the laws of the cipher and with an iv of twelve bytes: if every stored blob decrypts
  -- under its group's key and is not empty, then so it is after `removeMember`, which changes the
  -- key.
  pub remove_member-AllReadable :
      (group target user : ℕ) (db : Db)
      → AllReadable c db
      → AllReadable c (remove_member c fresh group target user db).1
  remove_member-AllReadable group target user db v =
      elim (remove_member-effect c fresh group target user db) [
        | inl same ↦ rw same v
        | inr (row, a, e, l, f, leads, other, after) ↦ rw after (renew-AllReadable group user _ v)
      ]

  -- Under the laws of the cipher and with an iv of twelve bytes: if the leaver is a present
  -- member, the group has a key, and its stored blob is not empty and decrypts under that key to
  -- a text, then `leaveGroup` returns; the group has the new key, and its blob decrypts under the
  -- new key to the same text.
  pub leave_group_plaintext :
      (group user : ℕ) (db : Db) (row : Member) (g : Group) (r : Sync) (plain : Bytes)
      → find_member group user db ≡ some row
      → row.left_at ≡ none
      → find_group group db ≡ some g
      → is_blank g.encryption_key ≡ false
      → find_sync group db ≡ some r
      → str_eq r.encrypted_blob "" ≡ false
      → decrypt_group_blob c g.encryption_key r.encrypted_blob ≡ some plain
      → let after = (leave_group c fresh group user db).1 in
        ((next : Option ℕ) × ((leave_group c fresh group user db).0 ≡ ok (fresh.now, next)))
        × (find_group group after ≡ some (with_key fresh g))
        × (find_sync group after ≡ some (with_blob (new_blob plain) r))
        × (decrypt_group_blob c fresh.new_key (new_blob plain) ≡ some plain)
  unfolding leave_group new_blob
  leave_group_plaintext group user db row g r plain em l eg b es nb p =
      let left = set_left row.id fresh.now db.members in
      let next = successor group user row.role left in
      let db' : Db = record db { members = hand_over group next left } in
      let (returned, groups, syncs) = renew_blob c fresh group user db' g r plain eg b es nb p in
      let same : (leave_group c fresh group user db).1 ≡ (renew c fresh group user db').1 =
        ground arith in
      (
        (next, ground arith),
        ap (find (λ (x : Group). x.id == group)) (ap (λ (d : Db). d.groups) same ∙ groups)
            ∙ find-rekeyed c fresh group user db' group
            ∙ rw (==_refl group, eg) refl,
        ap (find (λ (x : Sync). x.group_id == group)) (ap (λ (d : Db). d.syncs) same ∙ syncs)
            ∙ find-reblobbed c fresh group user db' plain group
            ∙ rw (==_refl group, es) refl,
        (new_blob-readable plain).1,
      )
