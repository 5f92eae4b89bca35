-- ===== src/Account/Registration.antt =====
-- `registerUser` and `updateProfile` of packages/backend/src/services/authService.ts.
use Prim.Native.String.{String}
use text.Mathlib.Text.{◌==◌ as str_eq}
use coldfi.Prelude.{
  ℕ, ltb, Bool, false, not, Option, none, some, List, [], ◌∷◌, ◌++◌, any, is_some, is_none, ◌&&◌,
  if◌then◌else◌,
}
use coldfi.Blob.{Bytes}
use coldfi.ServerKeys.{KeyCrypto, encrypt_server_key}
use coldfi.Database.{◌>>=◌, ◌>>◌, pure, throw_if, gets, modify, or_throw, transaction_on}
use coldfi.Token.State.{
  User, registered, admin_granted, World, Action, validation, conflict, not_found, restore_db,
  find_user,
}
use coldfi.Account.TwoFactor.{update_user, log_activity}
use coldfi.Account.Login.{find_email}
use coldfi.Account.Emails.{is_valid_email}
use coldfi.Account.Codes.{Bcrypt, generate_recovery_code, hash_recovery_code}

-- what the code takes from the configuration, from bcrypt and from Node's `crypto`
pub record RegisterConfig : Type 0 where
  -- `email.toLowerCase()`
  pub lower : String → String
  -- `ADMIN_EMAILS`, split at the commas, trimmed, in lower case, without the empty ones
  pub admin_emails : List String
  -- the length of the text that a number stands for
  pub key_length : ℕ → ℕ
  -- `bcrypt.hash(key, SALT_ROUNDS)`, with the salt that the call draws
  pub hash_key : ℕ → ℕ → ℕ
  pub bcrypt : Bcrypt
  pub server_keys : KeyCrypto

pub record RegisterInput : Type 0 where
  pub email : String
  pub auth_key : ℕ
  pub personal_salt : String
  pub encrypted_pek : String
  pub raw_pek : String
  pub display_name : Option String

pub record RegisterResult : Type 0 where
  pub user_id : ℕ
  pub personal_salt : String
  pub encrypted_pek : String
  pub role : String
  pub recovery_code : List ℕ

-- the time of a call and what it draws at random
pub record RegisterDraw : Type 0 where
  pub now : ℕ
  pub user_id : ℕ
  pub key_salt : ℕ
  pub code_salt : ℕ
  pub iv : Bytes
  pub hex : List ℕ

-- `text || null`
abbrev pub non_empty : Option String → Option String
non_empty none = none
non_empty (some s) = if str_eq s "" then none else some s

-- `INSERT INTO users`
abbrev pub add_user : User → World → World
add_user u w = record w { db = record w.db { users = w.db.users ++ (u ∷ []) } }

module _ (cfg : RegisterConfig) where
  abbrev pub is_owner : String → Bool
  is_owner email = any (λ e. str_eq e (cfg.lower email)) cfg.admin_emails

  abbrev pub role_of : String → String
  role_of email = if is_owner email then "owner" else "user"

  abbrev pub log_owner : ℕ → ℕ → String → World → World
  log_owner user now email w = if is_owner email then log_activity (admin_granted user now) w else w

  module _ (draw : RegisterDraw) (input : RegisterInput) where
    -- the row of `INSERT INTO users`
    abbrev pub new_user : User
    new_user = record {
      id = draw.user_id;
      role = some (role_of input.email);
      display_name = non_empty input.display_name;
      personal_salt = some input.personal_salt;
      encrypted_pek = some input.encrypted_pek;
      email = cfg.lower input.email;
      google_id = none;
      server_encrypted_pek = none;
      locked_until = none;
      auth_key_hash = cfg.hash_key draw.key_salt input.auth_key;
      two_factor_secret = none;
      two_factor_enabled = false;
      recovery_code_hash = none;
      default_currency = "BDT";
      timezone = "UTC";
    }

    abbrev pub store_server_key : User → User
    store_server_key u = record u {
      server_encrypted_pek = some (encrypt_server_key cfg.server_keys draw.iv input.raw_pek);
    }

    abbrev pub store_code : User → User
    store_code u = record u {
      recovery_code_hash =
          some (hash_recovery_code cfg.bcrypt draw.code_salt (generate_recovery_code draw.hex));
    }

    -- the callback of the transaction
    unfoldable pub register_body : Action (Unit {0})
    register_body = do
      existing ← gets (λ w. find_email (cfg.lower input.email) w.db)
      throw_if (is_some existing) conflict
      modify (add_user new_user)
      modify (update_user draw.user_id store_server_key)
      modify (update_user draw.user_id store_code)
      modify (log_activity (registered draw.user_id draw.now))
      modify (log_owner draw.user_id draw.now input.email)

    abbrev pub register_result : RegisterResult
    register_result = record {
      user_id = draw.user_id;
      personal_salt = input.personal_salt;
      encrypted_pek = input.encrypted_pek;
      role = role_of input.email;
      recovery_code = generate_recovery_code draw.hex;
    }

    unfoldable pub register_user : Action RegisterResult
    unfolding register_body transaction_on
    register_user = do
      throw_if (not (is_valid_email input.email)) validation
      throw_if (ltb (cfg.key_length input.auth_key) 32) validation
      transaction_on restore_db register_body
      pure register_result

pub record ProfileUpdates : Type 0 where
  pub display_name : Option String
  pub default_currency : Option String
  pub timezone : Option String

pub record Profile : Type 0 where
  pub display_name : Option String
  pub default_currency : String
  pub timezone : String

-- a field that is given, as `SET` has it
abbrev pub or_given : {A : Type 0} → Option A → A → A
or_given none a = a
or_given (some b) a = b

abbrev pub new_display_name : Option String → Option String → Option String
new_display_name none old = old
new_display_name (some s) old = non_empty (some s)

abbrev pub apply_updates : ProfileUpdates → User → User
apply_updates updates u = record u {
  display_name = new_display_name updates.display_name u.display_name;
  default_currency = or_given updates.default_currency u.default_currency;
  timezone = or_given updates.timezone u.timezone;
}

abbrev pub no_updates : ProfileUpdates → Bool
no_updates updates =
    is_none updates.display_name && is_none updates.default_currency && is_none updates.timezone

abbrev pub profile_of : User → Profile
profile_of u = record {
  display_name = u.display_name;
  default_currency = u.default_currency;
  timezone = u.timezone;
}

unfoldable pub update_profile : ℕ → ProfileUpdates → Action Profile
update_profile user updates = do
  throw_if (no_updates updates) validation
  modify (update_user user (apply_updates updates))
  u ← or_throw (← gets (λ w. find_user user w.db)) not_found
  pure (profile_of u)
