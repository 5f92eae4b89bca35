-- ===== src/Group/Leading.antt =====
-- No operation of a member or an admin leaves a group that has members without an admin.
use coldfi.Prelude.{
  ap, sym, ◌∙◌, ℕ, ◌==◌, ==_iff, ◌≡◌, ◌≢◌, refl, Bool, true, ◌&&◌, none, some, List, [], ◌∷◌, any,
  find, select, All, arith, Bool-cases, Option-cases, inl, inr,
}
use mathlib.Core.Option.{some-injective}
use coldfi.Database.{update_where, err}
use coldfi.Group.State.{
  Role, is_admin, Member, Db, is_present, is_row, find_member, find_present, first_joined, Error,
}
use coldfi.Group.Rows.{any-update_where, first_joined-none, IsKeyed, Agrees, find-test, find-Agrees}
use coldfi.Group.Membership.{is_other_admin, promote_before_removal, update_member_role}
use coldfi.Group.Admins.{is_admin_in, IsLed, any-imp}

pub find-any {ℓ} :
    {A : Type ℓ} (p q : A → Bool) (rows : List A) (r : A)
    → find p rows ≡ some r
    → q r ≡ true
    → any (λ x. p x && q x) rows ≡ true
find-any p q [] r h e = cc
find-any p q (x ∷ rows) r h e = elim (Bool-cases (p x)) [
  | inl t ↦ rw t (rw (ap q (some-injective x r (rw t at h)) ∙ e) refl)
  | inr f ↦ rw f (find-any p q rows r (rw f at h) e)
]

-- the row of an admin, `user`, of the group
abbrev leader : ℕ → ℕ → Member → Bool
leader group user m = (is_row group user m && is_present m) && is_admin m.role

module _ (group target user : ℕ) (db : Db) (row a : Member) (keyed : IsKeyed db.members)
    (e : find_member group target db ≡ some row) (f : find_present group user db ≡ some a)
    (leads : is_admin a.role ≡ true) (other : target ≢ user) where
  has_leader : any (leader group user) db.members ≡ true
  has_leader =
      find-any (λ m. is_row group user m && is_present m) (λ m. is_admin m.role) db.members a f
        leads

  pub agrees : All (Agrees row) db.members
  agrees = find-Agrees (is_row group target) db.members row keyed e

  pub row_user : (row.group_id ≡ group) × (row.user_id ≡ target)
  row_user = let t = find-test (is_row group target) db.members row e in ground arith

  -- The acting admin is an admin other than the target, so nobody has to be promoted.
  pub promote_idle : promote_before_removal group target row.role db.members ≡ db.members
  unfolding promote_before_removal
  promote_idle =
      elim (Option-cases (first_joined (select (is_other_admin group target) db.members))) [
        | inr (o, found) ↦ ground arith
        | inl empty ↦
            let nobody = first_joined-none (is_other_admin group target) db.members empty in
            let somebody =
              any-imp (leader group user) (is_other_admin group target) db.members
                (λ m h. ground arith) has_leader in
            cc
      ]

  -- Whatever is done to the target's row alone, the acting admin stays.
  pub leader_stays :
      (g : Member → Member)
      → ((m : Member) → ((g m).user_id ≡ m.user_id) × ((g m).group_id ≡ m.group_id))
      → IsLed group (update_where (λ (m : Member). m.id == row.id) g db.members)
  leader_stays g same h =
      any-update_where (leader group user) (is_admin_in group) (λ m. m.id == row.id) g (Agrees row)
        db.members agrees
        (λ m ag l. elim (Bool-cases (m.id == row.id)) [
          | inl it ↦ absurd (clash m ag l it)
          | inr no_it ↦ rw no_it (ground arith)
        ])
        has_leader
    where
      clash : (m : Member) → Agrees row m → leader group user m ≡ true → (m.id == row.id) ≡ true → ⊥
      clash m ag l it =
          let owner = (ag ((==_iff _ _).0 it)).1 in
          let mine : m.user_id ≡ user = ground arith in other (sym row_user.1 ∙ sym owner ∙ mine)

module _ (group target user : ℕ) (db : Db) (a : Member) where
  -- The admin who acts is an admin other than the target.
  pub other_admin :
      find_present group user db ≡ some a
      → is_admin a.role ≡ true
      → target ≢ user
      → first_joined (select (is_other_admin group target) db.members) ≢ none
  other_admin f leads other empty =
      let nobody = first_joined-none (is_other_admin group target) db.members empty in
      let leader_here =
        find-any (λ m. is_row group user m && is_present m) (λ m. is_admin m.role) db.members a f
          leads in
      let somebody =
        any-imp (leader group user) (is_other_admin group target) db.members (λ m h. ground arith)
          leader_here in
      cc

-- The guard against demoting the last admin never fires: whoever passes the checks before it is
-- an admin of the group other than the target.
pub update_member_role-ne-last_admin :
    (group target : ℕ) (role : Role) (user : ℕ) (db : Db)
    → (update_member_role group target role user db).0 ≢ err Error.last_admin
unfolding update_member_role
update_member_role-ne-last_admin group target role user db h =
    elim (Option-cases (find_present group user db)) [
      | inl f ↦ ground arith
      | inr (a, f) ↦ elim (Bool-cases (is_admin a.role)) [
        | inr plain ↦ ground arith
        | inl leads ↦ elim (Bool-cases (target == user)) [
          | inl same ↦ ground arith
          | inr other ↦
              let more = other_admin group target user db a f leads (ground arith) in
              elim (Option-cases (first_joined (select (is_other_admin group target) db.members))) [
                | inl empty ↦ absurd (more empty)
                | inr (o, found) ↦ ground arith
              ]
        ]
      ]
    ]
