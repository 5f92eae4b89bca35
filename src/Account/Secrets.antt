-- ===== src/Account/Secrets.antt =====
-- Whoever has two-factor authentication switched on has a secret.
use mathlib.Core.Path.{subst}
use mathlib.Core.Option.{some-injective}
use coldfi.Prelude.{
  ℕ, ◌==◌, ==_iff, ◌≡◌, ◌≢◌, refl, sym, ap, ◌∙◌, Bool, true, false, not, ◌||◌, none, some, List, [],
  ◌∷◌, find, All, is_some, arith, Bool-cases, Option-cases, inl, inr,
}
use coldfi.Database.{update_where}
use coldfi.Token.State.{User, World, find_user}
use coldfi.Account.TwoFactor.{Totp, generate_2fa_secret, verify_2fa_setup, disable_2fa}

-- a call of the service
pub data Call : Type 0 where
  generate : ℕ → ℕ → Call
  setup : ℕ → ℕ → ℕ → Call
  disable : ℕ → ℕ → ℕ → Call

unfoldable pub run : Totp → Call → World → World
unfolding generate_2fa_secret verify_2fa_setup disable_2fa
run totp (Call.generate secret user) w = (generate_2fa_secret totp secret user w).1
run totp (Call.setup now user code) w = (verify_2fa_setup totp now user code w).1
run totp (Call.disable now user code) w = (disable_2fa totp now user code w).1

abbrev pub has_secret : User → Bool
has_secret u = not u.two_factor_enabled || is_some u.two_factor_secret

-- ids are unique, and whoever is enrolled has a secret
abbrev pub IsEnrolled : List User → Type 0
IsEnrolled [] = Unit
IsEnrolled (u ∷ us) = (has_secret u ≡ true) × All (λ (v : User). v.id ≢ u.id) us × IsEnrolled us

All-update :
    (id user : ℕ) (f : User → User) (us : List User)
    → ((u : User) → (f u).id ≡ u.id)
    → All (λ (v : User). v.id ≢ id) us
    → All (λ (v : User). v.id ≢ id) (update_where (λ (u : User). u.id == user) f us)
All-update id user f [] same h = tt
All-update id user f (u ∷ us) same (a, h) = (
  elim (Bool-cases (u.id == user)) [ inl t ↦ rw t (λ e. a (sym (same u) ∙ e)) | inr g ↦ rw g a ],
  All-update id user f us same h,
)

-- nobody has the id
absent-update :
    (user : ℕ) (f : User → User) (us : List User)
    → All (λ (v : User). v.id ≢ user) us
    → update_where (λ (u : User). u.id == user) f us ≡ us
absent-update user f [] h = refl
absent-update user f (u ∷ us) (a, h) = elim (Bool-cases (u.id == user)) [
  | inl t ↦ absurd (a ((==_iff u.id user).0 t))
  | inr g ↦ rw g (ap (λ vs. u ∷ vs) (absent-update user f us h))
]

-- An update of the row that a query by id finds, if it gives the row a secret or switches it off.
update-IsEnrolled :
    (user : ℕ) (f : User → User) (us : List User) (row : User)
    → find (λ (u : User). u.id == user) us ≡ some row
    → ((u : User) → (f u).id ≡ u.id)
    → has_secret (f row) ≡ true
    → IsEnrolled us
    → IsEnrolled (update_where (λ (u : User). u.id == user) f us)
update-IsEnrolled user f [] row e same good v = cc
update-IsEnrolled user f (u ∷ us) row e same good (hu, apart, v) =
    elim (Bool-cases (u.id == user)) [
      | inl t ↦
          let it : u ≡ row = some-injective u row (rw t at e) in
          let gone : All (λ (v : User). v.id ≢ user) us =
            subst (λ x. All (λ (v : User). v.id ≢ x) us) ((==_iff u.id user).0 t) apart in
          rw t (
            rw (absent-update user f us gone) (
              ap (λ x. has_secret (f x)) it ∙ good,
              subst (λ x. All (λ (v : User). v.id ≢ x) us) (sym (same u)) apart,
              v,
            ))
      | inr g ↦ rw g (
        hu,
        All-update u.id user f us same apart,
        update-IsEnrolled user f us row (rw g at e) same good v,
      )
    ]

-- A call that changes the users changes the row that it found.
module _ (user : ℕ) (f : User → User) (w : World) (v : IsEnrolled w.db.users) where
  changed :
      (row : User) (us : List User)
      → find_user user w.db ≡ some row
      → ((u : User) → (f u).id ≡ u.id)
      → has_secret (f row) ≡ true
      → us ≡ update_where (λ (u : User). u.id == user) f w.db.users
      → IsEnrolled us
  changed row us e same good h = rw h (update-IsEnrolled user f w.db.users row e same good v)

  kept : (us : List User) → us ≡ w.db.users → IsEnrolled us
  kept us h = rw h v

-- If ids are unique and whoever has two-factor authentication switched on has a secret to check
-- codes against, then so it is after `generate2FASecret`, `verify2FASetup` and `disable2FA`,
-- whether the call returns or throws.
pub run-IsEnrolled :
    (totp : Totp) (call : Call) (w : World)
    → IsEnrolled w.db.users
    → IsEnrolled (run totp call w).db.users
unfolding run generate_2fa_secret verify_2fa_setup disable_2fa
run-IsEnrolled totp (Call.generate secret user) w v =
    let f = λ (x : User). record x { two_factor_secret = some secret } in
    elim (Option-cases (find_user user w.db)) [
      | inl e ↦ kept user f w v (run totp (Call.generate secret user) w).db.users (ground arith)
      | inr (u, e) ↦ elim (Bool-cases u.two_factor_enabled) [
        | inl on ↦ kept user f w v (run totp (Call.generate secret user) w).db.users (ground arith)
        | inr off ↦
            changed user f w v u (run totp (Call.generate secret user) w).db.users e (λ x. refl)
              (ground arith) (ground arith)
      ]
    ]
run-IsEnrolled totp (Call.setup now user code) w v =
    let f = λ (x : User). record x { two_factor_enabled = true } in
    let after = (run totp (Call.setup now user code) w).db.users in
    elim (Option-cases (find_user user w.db)) [
      | inl e ↦ kept user f w v after (ground arith)
      | inr (u, e) ↦ elim (Bool-cases u.two_factor_enabled) [
        | inl on ↦ kept user f w v after (ground arith)
        | inr off ↦ elim (Option-cases u.two_factor_secret) [
          | inl bare ↦ kept user f w v after (ground arith)
          | inr (secret, has) ↦ elim (Bool-cases (totp.verify code u.two_factor_secret)) [
            | inr wrong ↦ kept user f w v after (ground arith)
            | inl right ↦ changed user f w v u after e (λ x. refl) (rw has refl) (ground arith)
          ]
        ]
      ]
    ]
run-IsEnrolled totp (Call.disable now user code) w v =
    let f = λ (x : User). record x { two_factor_enabled = false; two_factor_secret = none } in
    let after = (run totp (Call.disable now user code) w).db.users in
    elim (Option-cases (find_user user w.db)) [
      | inl e ↦ kept user f w v after (ground arith)
      | inr (u, e) ↦ elim (Bool-cases u.two_factor_enabled) [
        | inr off ↦ kept user f w v after (ground arith)
        | inl on ↦ elim (Bool-cases (totp.verify code u.two_factor_secret)) [
          | inr wrong ↦ kept user f w v after (ground arith)
          | inl right ↦ changed user f w v u after e (λ x. refl) refl (ground arith)
        ]
      ]
    ]
