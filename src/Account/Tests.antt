-- ===== src/Account/Tests.antt =====
-- Concrete inputs for the theorems on accounts: user 1 has two-factor authentication.
use coldfi.Prelude.{◌==◌, ◌≡◌, refl, true, false, none, some, [], ◌∷◌}
use coldfi.ServerKeys.Sample.{sample_keys}
use coldfi.Database.{err}
use coldfi.Token.State.{User, World, temp_token_expired}
use coldfi.Token.Restrictions.{assert_user_not_restricted, get_active_restrictions}
use coldfi.Token.Service.{Config, Draw, blank_user}
use coldfi.Account.TwoFactor.{Totp, verify_2fa_login, set_temp_token}
use coldfi.Account.Login.{
  LoginConfig, LoginResult, find_email, failed_count, login_user, try_login, accept_login,
}
use coldfi.Account.Secrets.{Call, run, IsEnrolled, run-IsEnrolled}
use coldfi.Account.Challenge.{verify_2fa_login-single_use}
use coldfi.Account.Lockout.{IsAdmitted, login_user-returns}

abbrev sample_totp : Totp
sample_totp = record {
  keyuri = λ email issuer secret. email;
  verify = λ code secret. elim secret [ none ↦ false | some s ↦ code == s ];
  to_data_url = λ url. url;
}

abbrev sample_config : Config
sample_config = record {
  hash_token = λ t. t;
  sign = λ user role. role;
  server_keys = sample_keys;
  refresh_seconds = 1000;
  access_seconds = 900;
}

abbrev first_draw : Draw
first_draw = record { now = 100; token_id = 14; refresh_token = 74 }

abbrev enrolled : User
enrolled = record (blank_user 1) {
  email = "a@b";
  auth_key_hash = 5;
  two_factor_secret = some 123;
  two_factor_enabled = true;
  recovery_code_hash = none;
  default_currency = "BDT";
  timezone = "UTC";
}

abbrev account_world : World
account_world = record {
  db = record {
    users = enrolled ∷ record (blank_user 2) { email = "c@d" } ∷ [];
    tokens = [];
    restrictions = [];
    activity = [];
  };
  cache = [];
  temp_tokens = record { token = 40; user_id = 1; expires_at = 900 } ∷ [];
}

abbrev login_config : LoginConfig
login_config = record {
  max_attempts = 5;
  window_minutes = 15;
  lower = λ s. s;
  compare_hash = λ a b. a == b;
}

verify_2fa_login-single_use_example :
    (verify_2fa_login sample_totp sample_config
      (record first_draw { now = 200 })
      40
      123
      (verify_2fa_login sample_totp sample_config first_draw 40 999 account_world).1).0
    ≡ err temp_token_expired
verify_2fa_login-single_use_example =
    verify_2fa_login-single_use sample_totp sample_config first_draw
      (record first_draw { now = 200 }) 40 999 123 account_world

run-IsEnrolled_example :
    IsEnrolled (run sample_totp (Call.disable 100 1 123) account_world).db.users
run-IsEnrolled_example =
    run-IsEnrolled sample_totp (Call.disable 100 1 123) account_world
      (refl, (λ h. cc, tt), (refl, tt, tt))

abbrev logged_in : LoginResult
logged_in = record {
  user_id = 1;
  personal_salt = none;
  encrypted_pek = "";
  role = "user";
  requires_2fa = true;
  temp_token = some 41;
}

login_user-returns_example :
    (u : User) × (find_email "a@b" account_world.db ≡ some u)
    × IsAdmitted login_config 100 5 u account_world.db
    × (failed_count login_config 100 u.id
          (login_user login_config 100 41 "a@b" 5 account_world).1.db
        ≡ 0)
unfolding login_user try_login accept_login assert_user_not_restricted get_active_restrictions
    set_temp_token
login_user-returns_example =
    login_user-returns login_config 100 41 "a@b" 5 account_world logged_in refl
