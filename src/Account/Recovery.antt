-- ===== src/Account/Recovery.antt =====
-- Registration and recovery: the code that `registerUser` hands out recovers the account.
use Prim.Native.String.{String}
use text.Mathlib.Text.{◌==◌ as str_eq}
use mathlib.Core.Path.{subst}
use text.Mathlib.TextEquality.{eq_iff}
use coldfi.Prelude.{ℕ, ◌≡◌, refl, ap, ◌∙◌, true, false, some, List, arith, Bool-cases, inl, inr}
use coldfi.Blob.{Bytes}
use coldfi.ServerKeys.{
  KeyCrypto, IsKeyCrypto, IsWellFormed, encrypt_server_key, decrypt_server_key,
  encrypt_server_key-ne_empty, decrypt_server_key-encrypt_server_key,
}
use coldfi.Database.{ok, Outcome-cases}
use coldfi.Token.State.{User, World}
use coldfi.Token.Restrictions.{assert_user_not_restricted}
use coldfi.Account.Login.{find_email}
use coldfi.Account.Emails.{is_valid_email}
use coldfi.Account.Codes.{
  Bcrypt, IsBcrypt, normalize_recovery_code, hash_recovery_code, verify_recovery_code,
  generate_recovery_code, IsHex, normalize-generate,
}
use coldfi.Account.Registration.{
  RegisterConfig, RegisterInput, RegisterDraw, RegisterResult, register_user,
}
use coldfi.Account.Passwords.{PasswordConfig, recover_account, is_empty, fits_code, decrypt_copy}
use coldfi.Account.Stored.{stored, register_user-stores}

-- The configuration of the two services is one.
pub record IsShared (cfg : RegisterConfig) (pc : PasswordConfig) : Type 0 where
  pub same_lower : (s : String) → pc.lower s ≡ cfg.lower s
  pub same_bcrypt : pc.bcrypt ≡ cfg.bcrypt
  pub same_keys : pc.server_keys ≡ cfg.server_keys

empty-invalid : (email : String) → is_valid_email email ≡ true → str_eq email "" ≡ false
unfolding is_valid_email
empty-invalid email h = elim (Bool-cases (str_eq email "")) [
  | inr f ↦ f
  | inl t ↦
      let nothing : is_valid_email "" ≡ true =
        subst (λ e. is_valid_email e ≡ true) ((eq_iff email "").0 t) h in
      cc
]

-- what the recovery checks, one by one
recover_account-returns :
    (pc : PasswordConfig) (now : ℕ) (email : String) (typed : List ℕ) (u : User) (raw : String)
    (s : World)
    → str_eq email "" ≡ false
    → is_empty typed ≡ false
    → find_email (pc.lower email) s.db ≡ some u
    → fits_code pc typed u.recovery_code_hash ≡ true
    → (assert_user_not_restricted now u.id s).0 ≡ ok tt
    → decrypt_copy pc u.server_encrypted_pek ≡ some raw
    → (recover_account pc now email typed s).0
      ≡ ok (record { user_id = u.id; email = u.email; raw_pek = raw })
unfolding recover_account
recover_account-returns pc now email typed u raw s e t f c a d =
    elim (Outcome-cases (assert_user_not_restricted now u.id s)) [
      | inl (x, s', k) ↦ ground arith
      | inr (x, s', k) ↦ ground arith
    ]

-- the server's copy of the key
copied_back :
    (pc : PasswordConfig) (k : KeyCrypto) (iv : Bytes) (key : String)
    → IsKeyCrypto k
    → pc.server_keys ≡ k
    → IsWellFormed k key
    → decrypt_copy pc (some (encrypt_server_key k iv key)) ≡ some key
copied_back pc k iv key laws same good =
    let there : decrypt_copy pc (some (encrypt_server_key k iv key))
        ≡ decrypt_server_key pc.server_keys (encrypt_server_key k iv key) =
      rw (encrypt_server_key-ne_empty k iv key laws) refl in
    there
    ∙ ap (λ c. decrypt_server_key c (encrypt_server_key k iv key)) same
    ∙ decrypt_server_key-encrypt_server_key k iv key laws good

fits_code-stored :
    (pc : PasswordConfig) (b : Bcrypt) (salt : ℕ) (ds typed : List ℕ)
    → IsBcrypt b
    → pc.bcrypt ≡ b
    → IsHex ds
    → normalize_recovery_code typed ≡ normalize_recovery_code (generate_recovery_code ds)
    → fits_code pc typed (some (hash_recovery_code b salt (generate_recovery_code ds))) ≡ true
unfolding hash_recovery_code verify_recovery_code
fits_code-stored pc b salt ds typed law same hex norm =
    let twice = ap normalize_recovery_code norm ∙ normalize-generate ds hex in
    let code = normalize_recovery_code (generate_recovery_code ds) in
    let hash = b.hash_sync salt code in
    ap
      (λ (c : Bcrypt).
        c.compare_sync (normalize_recovery_code (normalize_recovery_code typed)) hash)
      same
    ∙ ap (λ t. b.compare_sync t hash) twice
    ∙ law.compare-hash salt code

-- If `registerUser` returns, then `recoverAccount` with the same address returns the key that was
-- registered, for the recovery code that was handed out and for every text that is not empty and
-- is the same once normalised (in capitals, without the dashes), as long as the new user is not
-- restricted. It holds where bcrypt accepts what it hashed, the cipher opens what it sealed and hex
-- reads back; where the two services have one configuration; where the recovery code is drawn as
-- hex digits; and where the registered key is well-formed as UTF-8.
pub recover_account-register_user :
    (cfg : RegisterConfig) (pc : PasswordConfig) (draw : RegisterDraw) (input : RegisterInput)
    (now : ℕ) (typed : List ℕ) (w : World) {r : RegisterResult}
    → IsBcrypt cfg.bcrypt
    → IsKeyCrypto cfg.server_keys
    → IsShared cfg pc
    → IsHex draw.hex
    → IsWellFormed cfg.server_keys input.raw_pek
    → (register_user cfg draw input w).0 ≡ ok r
    → is_empty typed ≡ false
    → normalize_recovery_code typed ≡ normalize_recovery_code r.recovery_code
    → (assert_user_not_restricted now r.user_id (register_user cfg draw input w).1).0 ≡ ok tt
    → (recover_account pc now input.email typed (register_user cfg draw input w).1).0
      ≡ ok (record { user_id = r.user_id; email = cfg.lower input.email; raw_pek = input.raw_pek })
recover_account-register_user cfg pc draw input now typed w {r} b laws shared hex good h some_ same
      free =
    let (result, valid, there) = register_user-stores cfg draw input w h in
    let after = (register_user cfg draw input w).1 in
    let id : r.user_id ≡ draw.user_id = ap (λ x. x.user_id) result in
    let code : r.recovery_code ≡ generate_recovery_code draw.hex =
      ap (λ x. x.recovery_code) result in
    let returns =
      recover_account-returns pc now input.email typed (stored cfg draw input) input.raw_pek after
        (empty-invalid input.email valid) some_
        (ap (λ e. find_email e after.db) (shared.same_lower input.email) ∙ there)
        (fits_code-stored pc cfg.bcrypt draw.code_salt draw.hex typed b shared.same_bcrypt hex
          (same ∙ ap normalize_recovery_code code))
        (subst (λ i. (assert_user_not_restricted now i after).0 ≡ ok tt) id free)
        (copied_back pc cfg.server_keys draw.iv input.raw_pek laws shared.same_keys good) in
    rw id returns
