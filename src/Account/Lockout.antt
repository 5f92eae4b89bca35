-- ===== src/Account/Lockout.antt =====
-- What a login needs, and what it does to the count of failures.
use Prim.Native.String.{String}
use mathlib.Core.Path.{subst}
use coldfi.Prelude.{
  ℕ, ◌<◌, leb, ◌≡◌, ◌≢◌, refl, sym, ap, ◌∙◌, true, false, not, some, List, [], ◌∷◌, select, length,
  arith, Bool-cases, Option-cases, inl, inr,
}
use coldfi.Database.{ok, Outcome-cases}
use coldfi.Token.State.{User, Activity, World, Db}
use coldfi.Token.Restrictions.{assert_user_not_restricted, assert_user_not_restricted-db}
use coldfi.Token.Service.{is_locked}
use coldfi.Account.TwoFactor.{set_temp_token}
use coldfi.Account.Login.{
  LoginConfig, LoginResult, find_email, is_recent_fail, failed_count, accept_login, reject_login,
  try_login, login_user,
}

module _ (cfg : LoginConfig) (now : ℕ) where
  forgotten :
      (user : ℕ) (as' : List Activity)
      → length (
          select
            (is_recent_fail cfg now user)
            (select (λ a. not (is_recent_fail cfg now user a)) as'))
        ≡ 0
  forgotten user [] = refl
  forgotten user (a ∷ as') = elim (Bool-cases (is_recent_fail cfg now user a)) [
    | inl t ↦ rw t (forgotten user as')
    | inr f ↦ rw (f, f) (forgotten user as')
  ]

  accept_login-count :
      (temp : ℕ) (u : User) (w : World)
      → failed_count cfg now u.id (accept_login cfg now temp u w).1.db ≡ 0
  unfolding accept_login set_temp_token
  accept_login-count temp u w = elim (Bool-cases u.two_factor_enabled) [
    | inl t ↦ rw t (forgotten u.id w.db.activity)
    | inr f ↦ rw f (forgotten u.id w.db.activity)
  ]

  reject_login-fails :
      (user fails : ℕ) (w : World) (r : LoginResult) → (reject_login cfg now user fails w).0 ≢ ok r
  unfolding reject_login
  reject_login-fails user fails w r h = ground arith

  -- the user is not locked out, and the key fits
  abbrev pub IsAdmitted : ℕ → User → Db → Type 0
  IsAdmitted key u db =
      (is_locked now (some u) ≡ false)
      × (failed_count cfg now u.id db < cfg.max_attempts)
      × (cfg.compare_hash key u.auth_key_hash ≡ true)

  try_login-returns :
      (temp key : ℕ) (u : User) (w : World) (r : LoginResult)
      → (try_login cfg now temp key u w).0 ≡ ok r
      → IsAdmitted key u w.db
        × (failed_count cfg now u.id (try_login cfg now temp key u w).1.db ≡ 0)
  unfolding try_login
  try_login-returns temp key u w r h = elim (Bool-cases (is_locked now (some u))) [
    | inl locked ↦ ground arith
    | inr open_ ↦ elim (Bool-cases (leb cfg.max_attempts (failed_count cfg now u.id w.db))) [
      | inl many ↦ ground arith
      | inr few ↦ elim (Bool-cases (cfg.compare_hash key u.auth_key_hash)) [
        | inr wrong ↦
            let fails = failed_count cfg now u.id w.db in
            let runs : try_login cfg now temp key u w ≡ reject_login cfg now u.id fails w =
              ground arith in
            absurd (reject_login-fails u.id fails w r (ap (λ x. x.0) (sym runs) ∙ h))
        | inl fits ↦
            let runs : try_login cfg now temp key u w ≡ accept_login cfg now temp u w =
              ground arith in
            (
              (open_, ground arith, fits),
              ap (λ x. failed_count cfg now u.id x.1.db) runs ∙ accept_login-count temp u w,
            )
      ]
    ]
  ]

  -- If `loginUser` returns, there is a user with the address whose account is not locked, who has
  -- failed less often than the limit inside the window, and whose key fits; and afterwards none of
  -- the user's failures counts.
  pub login_user-returns :
      (temp : ℕ) (email : String) (key : ℕ) (w : World) (r : LoginResult)
      → (login_user cfg now temp email key w).0 ≡ ok r
      → (u : User) × (find_email (cfg.lower email) w.db ≡ some u)
        × IsAdmitted key u w.db
        × (failed_count cfg now u.id (login_user cfg now temp email key w).1.db ≡ 0)
  unfolding login_user
  login_user-returns temp email key w r h =
      elim (Option-cases (find_email (cfg.lower email) w.db)) [
        | inl e ↦ ground arith
        | inr (u, e) ↦ elim (Outcome-cases (assert_user_not_restricted now u.id w)) [
          | inr (f, s, k) ↦ ground arith
          | inl (t, s, k) ↦
              let same : s.db ≡ w.db =
                ap (λ x. x.1.db) (sym k) ∙ assert_user_not_restricted-db now u.id w in
              let runs : login_user cfg now temp email key w ≡ try_login cfg now temp key u s =
                ground arith in
              let (admitted, count) =
                try_login-returns temp key u s r (ap (λ x. x.0) (sym runs) ∙ h) in
              (
                u,
                e,
                subst (λ d. IsAdmitted key u d) same admitted,
                ap (λ x. failed_count cfg now u.id x.1.db) runs ∙ count,
              )
        ]
      ]
