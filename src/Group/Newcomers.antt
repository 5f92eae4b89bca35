-- ===== src/Group/Newcomers.antt =====
-- Who leads a group that somebody joins: the admins of before, and nobody if there were none.
use coldfi.Prelude.{
  ap, sym, ◌∙◌, ℕ, ◌==◌, ==_iff, ◌≡◌, refl, Bool, true, false, ◌&&◌, Option, none, some, List, [],
  ◌∷◌, ◌++◌, find, any, All, is_some, if◌then◌else◌, arith, Bool-cases, inl, inr,
}
use coldfi.Database.{update_where}
use coldfi.Group.State.{Member, Invite, Db, is_row, find_member}
use coldfi.Group.Rows.{any-update_where, All-trivial, IsKeyed, Agrees, find-Agrees, find-test}
use coldfi.Group.Leading.{find-any}
use coldfi.Group.Admins.{any-imp, is_in, is_admin_in, IsLed}
use coldfi.Group.Invites.{rejoin, join_group, find_invite}
use coldfi.Group.Joining.{joined, is_absent, join_group-effect, join_group-returns}

any-snoc {ℓ} :
    {A : Type ℓ} (p : A → Bool) (xs : List A) (x : A)
    → any p (xs ++ (x ∷ [])) ≡ (if any p xs then true else p x)
any-snoc p [] x = ground arith
any-snoc p (y ∷ xs) x = elim (Bool-cases (p y)) [
  | inl t ↦ rw t refl
  | inr f ↦ rw f (any-snoc p xs x)
]

-- An update that no row's test notices.
any-update_where_eq {ℓ κ} :
    {A : Type ℓ} (p w : A → Bool) (f : A → A) (P : A → Type κ) (rows : List A)
    → All P rows
    → ((r : A) → P r → p (if w r then f r else r) ≡ p r)
    → any p (update_where w f rows) ≡ any p rows
any-update_where_eq p w f P [] a h = refl
any-update_where_eq p w f P (r ∷ rows) (a, as') h =
    rw (h r a, any-update_where_eq p w f P rows as' h) refl

module _ (now id group user : ℕ) (ms : List Member) where
  -- Whoever joins, the admins of every group are those of before.
  joined-admins :
      (found : Option Member)
      → IsKeyed ms
      → find (is_row group user) ms ≡ found
      → is_absent found ≡ true
      → (g : ℕ) → any (is_admin_in g) (joined now id group user found ms) ≡ any (is_admin_in g) ms
  joined-admins none keyed e absent g = rw (any-snoc (is_admin_in g) ms) (ground arith)
  joined-admins (some row) keyed e absent g =
      any-update_where_eq (is_admin_in g) (λ m. m.id == row.id) (rejoin now) (Agrees row) ms
        (find-Agrees (is_row group user) ms row keyed e)
        λ m ag. elim (Bool-cases (m.id == row.id)) [
          | inr other ↦ rw other refl
          | inl same ↦
              let left = (ag ((==_iff _ _).0 same)).3 in
              let gone : is_some m.left_at ≡ true = rw left absent in ground arith
        ]

  -- and the newcomer is a present member
  joined-present :
      (found : Option Member)
      → find (is_row group user) ms ≡ found
      → any (is_in group) (joined now id group user found ms) ≡ true
  joined-present none e = rw (any-snoc (is_in group) ms) (ground arith)
  joined-present (some row) e =
      any-update_where (λ m. is_row group user m && m.id == row.id) (is_in group)
        (λ m. m.id == row.id) (rejoin now) (λ _. Unit {0}) ms (All-trivial ms)
        (λ m _ h. ground arith)
        (find-any (is_row group user) (λ m. m.id == row.id) ms row e ((==_iff _ _).1 refl))

  joined-elsewhere :
      (found : Option Member)
      → IsKeyed ms
      → find (is_row group user) ms ≡ found
      → (g : ℕ) → (group == g) ≡ false
      → any (is_in g) (joined now id group user found ms) ≡ any (is_in g) ms
  joined-elsewhere none keyed e g other = rw (any-snoc (is_in g) ms) (ground arith)
  joined-elsewhere (some row) keyed e g other =
      any-update_where_eq (is_in g) (λ m. m.id == row.id) (rejoin now) (Agrees row) ms
        (find-Agrees (is_row group user) ms row keyed e)
        λ m ag. elim (Bool-cases (m.id == row.id)) [
          | inr no_it ↦ rw no_it refl
          | inl it ↦
              let home = (ag ((==_iff _ _).0 it)).0 in
              let t = find-test (is_row group user) ms row e in ground arith
        ]

-- If ids are unique, every group that has members has an admin, and every usable invite with the
-- code is for a group that still has members, then after `joinGroup` every group that has members
-- has an admin.
pub join_group-IsLed :
    (now id code user : ℕ) (db : Db)
    → IsKeyed db.members
    → ((g : ℕ) → IsLed g db.members)
    → ((i : Invite) → find_invite now code db ≡ some i → any (is_in i.group_id) db.members ≡ true)
    → (g : ℕ) → IsLed g (join_group now id code user db).1.members
join_group-IsLed now id code user db keyed led alive g =
    elim (join_group-effect now id code user db) [
      | inr (e, h) ↦ rw h (led g)
      | inl (i, e, absent, h) ↦
          let found = find_member i.group_id user db in
          rw h λ there.
            joined-admins now id i.group_id user db.members found keyed refl absent g
            ∙ elim (Bool-cases (i.group_id == g)) [
              | inl same ↦
                  led g (ap (λ x. any (is_in x) db.members) (sym ((==_iff _ _).0 same)) ∙ alive i e)
              | inr other ↦ led g (
                  sym (joined-elsewhere now id i.group_id user db.members found keyed refl g other)
                  ∙ there)
            ]
    ]

-- If ids are unique, the code finds an invite of a group whose members have all left, and the
-- user is not in it, then after `joinGroup` that group has a member and no admin.
pub join_group_unled :
    (now id code user : ℕ) (db : Db) (i : Invite)
    → IsKeyed db.members
    → find_invite now code db ≡ some i
    → any (is_in i.group_id) db.members ≡ false
    → is_absent (find_member i.group_id user db) ≡ true
    → let after = (join_group now id code user db).1.members in
      (any (is_in i.group_id) after ≡ true) × (any (is_admin_in i.group_id) after ≡ false)
join_group_unled now id code user db i keyed e nobody absent =
    let found = find_member i.group_id user db in
    rw (join_group-returns now id code user db i e absent) (
      joined-present now id i.group_id user db.members found refl,
      joined-admins now id i.group_id user db.members found keyed refl absent i.group_id
          ∙ elim (Bool-cases (any (is_admin_in i.group_id) db.members)) [
            | inr none_leads ↦ none_leads
            | inl leads ↦
                let somebody =
                  any-imp (is_admin_in i.group_id) (is_in i.group_id) db.members
                    (λ m h. ground arith) leads in
                cc
          ],
    )
