-- ===== src/Account/SignInTests.antt =====
-- Concrete inputs for registration, recovery, passwords and sign-ins with Google.
use coldfi.Prelude.{
  ℕ, ◌+◌, ◌*◌, ◌==◌, ==_refl, ◌≡◌, refl, true, none, some, List, [], ◌∷◌, All, ◌⊎◌,
}
use coldfi.ServerKeys.Sample.{sample_keys, sample_keys-IsKeyCrypto}
use coldfi.Database.{ok}
use coldfi.Token.State.{User, World, find_user}
use coldfi.Token.Restrictions.{assert_user_not_restricted, get_active_restrictions}
use coldfi.Token.Service.{Config, TokenPair, blank_user, is_of, generate_tokens}
use coldfi.Token.Revocation.{live}
use coldfi.Account.Emails.{is_valid_email, codes}
use coldfi.Account.Codes.{Bcrypt, IsBcrypt, generate_recovery_code, normalize_recovery_code}
use coldfi.Account.Registration.{
  RegisterConfig, RegisterDraw, RegisterInput, register_result, register_user,
}
use coldfi.Account.Google.{Payload, GoogleDraw, google_login_as}
use coldfi.Account.Passwords.{PasswordConfig, ChangePasswordInput, recover_account, change_password}
use coldfi.Account.Recovery.{IsShared, recover_account-register_user}
use coldfi.Account.Sessions.{HasNewKey, change_password-returns}
use coldfi.Account.SecondFactor.{IsFor, IsLinked, google_login_as-signed_in}
use coldfi.Account.Addresses.{HasDistinct, register_user-HasDistinct}

abbrev number_of : List ℕ → ℕ
number_of [] = 0
number_of (c ∷ cs) = c + 1 + 2000 * number_of cs

abbrev sample_bcrypt : Bcrypt
sample_bcrypt = record {
  hash_sync = λ salt text. number_of text;
  compare_sync = λ text hash. number_of text == hash;
}

sample_bcrypt-IsBcrypt : IsBcrypt sample_bcrypt
sample_bcrypt-IsBcrypt = record { compare-hash = λ salt text. ==_refl (number_of text) }

abbrev sample_register : RegisterConfig
sample_register = record {
  lower = λ s. s;
  admin_emails = "root@coldfi.app" ∷ [];
  key_length = λ key. key;
  hash_key = λ salt key. key;
  bcrypt = sample_bcrypt;
  server_keys = sample_keys;
}

abbrev sample_passwords : PasswordConfig
sample_passwords = record {
  lower = λ s. s;
  key_length = λ key. key;
  hash_key = λ salt key. key;
  compare_hash = λ key hash. key == hash;
  bcrypt = sample_bcrypt;
  server_keys = sample_keys;
}

sample-IsShared : IsShared sample_register sample_passwords
sample-IsShared = record { same_lower = λ s. refl; same_bcrypt = refl; same_keys = refl }

abbrev ana : User
ana = record (blank_user 1) { email = "ana@coldfi.app"; auth_key_hash = 50; google_id = some "g1" }

abbrev ana_world : World
ana_world = record {
  db = record {
    users = ana ∷ [];
    tokens =
        record {
          id = 5;
          user_id = 1;
          token_hash = 77;
          expires_at = 1000;
          revoked_at = none;
          created_at = 0;
        }
        ∷ [];
    restrictions = [];
    activity = [];
  };
  cache = [];
  temp_tokens = [];
}

abbrev draw : RegisterDraw
draw = record {
  now = 100;
  user_id = 2;
  key_salt = 1;
  code_salt = 1;
  iv = 1 ∷ 2 ∷ [];
  hex = codes "0a1b2c3d";
}

abbrev input : RegisterInput
input = record {
  email = "bo@coldfi.app";
  auth_key = 40;
  personal_salt = "salt";
  encrypted_pek = "pek";
  raw_pek = "raw";
  display_name = some "Bo";
}

-- the code in capitals, and without the dash
abbrev typed : List ℕ
typed = codes "0A1B2C3D"

recover_account-register_user_example :
    (recover_account sample_passwords 200 "bo@coldfi.app" typed
      (register_user sample_register draw input ana_world).1).0
    ≡ ok (record { user_id = 2; email = "bo@coldfi.app"; raw_pek = "raw" })
unfolding register_user assert_user_not_restricted get_active_restrictions normalize_recovery_code
    is_valid_email generate_recovery_code
recover_account-register_user_example =
    recover_account-register_user sample_register sample_passwords draw input 200 typed ana_world
      {r = register_result sample_register draw input} sample_bcrypt-IsBcrypt
      sample_keys-IsKeyCrypto sample-IsShared
      (refl, (refl, (refl, (refl, (refl, (refl, (refl, (refl, tt)))))))) refl refl refl refl refl

abbrev new_password : ChangePasswordInput
new_password = record {
  user_id = 1;
  old_auth_key = 50;
  new_auth_key = 60;
  personal_salt = "salt";
  encrypted_pek = "pek";
}

change_password-returns_example :
    (u : User) × (find_user 1 ana_world.db ≡ some u)
    × (sample_passwords.compare_hash 50 u.auth_key_hash ≡ true)
    × (live
          (is_of 1)
          (change_password sample_passwords 100 1 (1 ∷ []) new_password ana_world).1.db.tokens
        ≡ 0)
    × All
        (HasNewKey sample_passwords 100 1 (1 ∷ []) new_password)
        (change_password sample_passwords 100 1 (1 ∷ []) new_password ana_world).1.db.users
unfolding change_password
change_password-returns_example =
    change_password-returns sample_passwords 100 1 (1 ∷ []) new_password ana_world
      {r = record { personal_salt = "salt"; encrypted_pek = "pek" }} refl

abbrev sample_tokens : Config
sample_tokens = record {
  hash_token = λ t. t;
  sign = λ user role. role;
  server_keys = sample_keys;
  refresh_seconds = 1000;
  access_seconds = 900;
}

abbrev google_draw : GoogleDraw
google_draw = record {
  tokens = record { now = 100; token_id = 14; refresh_token = 74 };
  temp_token = 40;
  register = draw;
  internal_pass = 90;
  personal_salt = "salt";
  pek = "pek";
}

abbrev ana_google : Payload
ana_google = record { sub = "g1"; email = "ana@coldfi.app"; email_verified = true; name = none }

abbrev quiet : World → World
quiet w = w

abbrev ana_pair : TokenPair
ana_pair = record {
  access_token = "user";
  refresh_token = 74;
  expires_in = 900;
  role = "user";
  user_id = 1;
  display_name = "";
  personal_salt = "";
  encrypted_pek = "";
  email = "ana@coldfi.app";
  raw_pek = none;
  is_google_user = true;
}

google_login_as-signed_in_example :
    (u : User) × IsFor ana_pair u
    × (IsLinked "g1" "ana@coldfi.app" ana_world u ⊎ IsLinked "g1" "ana@coldfi.app" ana_world u)
unfolding google_login_as assert_user_not_restricted get_active_restrictions generate_tokens
google_login_as-signed_in_example =
    google_login_as-signed_in sample_tokens google_draw sample_register quiet ana_google ana_world
      ana_pair refl

register_user-HasDistinct_example :
    HasDistinct (register_user sample_register draw input ana_world).1
register_user-HasDistinct_example =
    register_user-HasDistinct sample_register draw input ana_world (refl, tt)
