-- ===== src/Account/Passwords.antt =====
-- `changePassword` and `recoverAccount` of packages/backend/src/services/passwordService.ts.
use Prim.Native.String.{String}
use text.Mathlib.Text.{◌==◌ as str_eq}
use coldfi.Prelude.{
  ℕ, ltb, Bool, true, false, not, ◌||◌, Option, none, some, List, [], ◌∷◌, if◌then◌else◌,
}
use coldfi.Blob.{Bytes}
use coldfi.ServerKeys.{KeyCrypto, encrypt_server_key, decrypt_server_key}
use coldfi.Database.{◌>>=◌, ◌>>◌, pure, throw_if, gets, modify, or_throw, transaction_on}
use coldfi.Token.State.{
  User, password_changed, Action, validation, not_found, invalid_password, invalid_recovery,
  recovery_failed, internal, restore_db, find_user,
}
use coldfi.Token.Restrictions.{assert_user_not_restricted}
use coldfi.Token.Service.{revoke_user}
use coldfi.Account.TwoFactor.{update_user, log_activity}
use coldfi.Account.Login.{find_email}
use coldfi.Account.Codes.{Bcrypt, normalize_recovery_code, verify_recovery_code}

pub record PasswordConfig : Type 0 where
  -- `email.toLowerCase()`
  pub lower : String → String
  -- the length of the text that a number stands for
  pub key_length : ℕ → ℕ
  pub hash_key : ℕ → ℕ → ℕ
  -- `bcrypt.compare`
  pub compare_hash : ℕ → ℕ → Bool
  pub bcrypt : Bcrypt
  pub server_keys : KeyCrypto

pub record ChangePasswordInput : Type 0 where
  pub user_id : ℕ
  pub old_auth_key : ℕ
  pub new_auth_key : ℕ
  pub personal_salt : String
  pub encrypted_pek : String

pub record ChangePasswordResult : Type 0 where
  pub personal_salt : String
  pub encrypted_pek : String

pub record Recovered : Type 0 where
  pub user_id : ℕ
  pub email : String
  pub raw_pek : String

-- `user.rows[0]?.server_encrypted_pek`
abbrev pub server_key_of : Option User → Option String
server_key_of none = none
server_key_of (some u) = u.server_encrypted_pek

-- `COALESCE($4, server_encrypted_pek)`
abbrev pub or_old : Option String → Option String → Option String
or_old none old = old
or_old (some s) old = some s

abbrev pub is_empty : List ℕ → Bool
is_empty [] = true
is_empty (_ ∷ _) = false

module _ (cfg : PasswordConfig) where
  -- the key under a new iv; `none` where there is none
  abbrev pub renew_server_key : Bytes → Option String → Action (Option String)
  renew_server_key iv none = pure none
  renew_server_key iv (some s) = if str_eq s "" then pure none else (do
    raw ← or_throw (decrypt_server_key cfg.server_keys s) internal
    pure (some (encrypt_server_key cfg.server_keys iv raw)))

  -- `now`, the salt of bcrypt and the iv are drawn by the call.
  module _ (now salt : ℕ) (iv : Bytes) (input : ChangePasswordInput) where
    abbrev pub with_password : Option String → User → User
    with_password server_key u = record u {
      auth_key_hash = cfg.hash_key salt input.new_auth_key;
      personal_salt = some input.personal_salt;
      encrypted_pek = some input.encrypted_pek;
      server_encrypted_pek = or_old server_key u.server_encrypted_pek;
    }

    -- the callback of the transaction
    unfoldable pub change_password_body : Action (Unit {0})
    change_password_body = do
      u ← gets (λ w. find_user input.user_id w.db)
      server_key ← renew_server_key iv (server_key_of u)
      modify (update_user input.user_id (with_password server_key))
      modify (revoke_user now input.user_id)
      modify (log_activity (password_changed input.user_id now))

    unfoldable pub change_password : Action ChangePasswordResult
    unfolding change_password_body transaction_on
    change_password = do
      throw_if (ltb (cfg.key_length input.new_auth_key) 32) validation
      throw_if (str_eq input.personal_salt "" || str_eq input.encrypted_pek "") validation
      u ← or_throw (← gets (λ w. find_user input.user_id w.db)) not_found
      throw_if (not (cfg.compare_hash input.old_auth_key u.auth_key_hash)) invalid_password
      transaction_on restore_db change_password_body
      pure record { personal_salt = input.personal_salt; encrypted_pek = input.encrypted_pek }

  -- `verifyRecoveryCode(normalizedCode, user.recovery_code_hash)`, false without a hash
  abbrev pub fits_code : List ℕ → Option ℕ → Bool
  fits_code code none = false
  fits_code code (some hash) = verify_recovery_code cfg.bcrypt (normalize_recovery_code code) hash

  -- `decryptServerKey` on the server's copy of the key, where there is one
  abbrev pub decrypt_copy : Option String → Option String
  decrypt_copy none = none
  decrypt_copy (some s) = if str_eq s "" then none else decrypt_server_key cfg.server_keys s

  unfoldable pub recover_account : ℕ → String → List ℕ → Action Recovered
  unfolding verify_recovery_code
  recover_account now email code = do
    throw_if (str_eq email "" || is_empty code) validation
    u ← or_throw (← gets (λ w. find_email (cfg.lower email) w.db)) invalid_recovery
    throw_if (not (fits_code code u.recovery_code_hash)) invalid_recovery
    assert_user_not_restricted now u.id
    raw ← or_throw (decrypt_copy u.server_encrypted_pek) recovery_failed
    pure record { user_id = u.id; email = u.email; raw_pek = raw }
