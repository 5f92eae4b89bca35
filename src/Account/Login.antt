-- ===== src/Account/Login.antt =====
-- `loginUser` of packages/backend/src/services/authService.ts. bcrypt and `toLowerCase` are
-- parameters.
use Prim.Native.String.{String}
use text.Mathlib.Text.{◌==◌ as str_eq}
use coldfi.Prelude.{
  ℕ, ◌+◌, ◌*◌, ltb, leb, ◌==◌, Bool, false, not, ◌&&◌, Option, none, some, find, select, length,
  if◌then◌else◌,
}
use coldfi.Database.{◌>>=◌, ◌>>◌, pure, throw, throw_if, gets, modify, or_throw}
use coldfi.Token.State.{
  User, Activity, login_failed, login_success, Db, World, Action, invalid_credentials, user_locked,
}
use coldfi.Token.Restrictions.{assert_user_not_restricted}
use coldfi.Token.Service.{or_text, is_locked}
use coldfi.Account.TwoFactor.{update_user, log_activity, set_temp_token}

pub record LoginConfig : Type 0 where
  pub max_attempts : ℕ
  pub window_minutes : ℕ
  -- `email.toLowerCase()`
  pub lower : String → String
  -- `bcrypt.compare(authKeyHash, user.auth_key_hash)`
  pub compare_hash : ℕ → ℕ → Bool

pub record LoginResult : Type 0 where
  pub user_id : ℕ
  pub personal_salt : Option String
  pub encrypted_pek : String
  pub role : String
  pub requires_2fa : Bool
  pub temp_token : Option ℕ

-- `user.role || 'user'`: an empty text counts as none
abbrev pub role_or_user : Option String → String
role_or_user none = "user"
role_or_user (some r) = if str_eq r "" then "user" else r

abbrev pub find_email : String → Db → Option User
find_email email db = find (λ (u : User). str_eq u.email email) db.users

module _ (cfg : LoginConfig) (now : ℕ) where
  abbrev pub window : ℕ
  window = cfg.window_minutes * 60_000

  -- a failed login of the user inside the window
  abbrev pub is_recent_fail : ℕ → Activity → Bool
  is_recent_fail user (login_failed u attempts at) = u == user && ltb now (at + window)
  is_recent_fail user a = false

  abbrev pub failed_count : ℕ → Db → ℕ
  failed_count user db = length (select (is_recent_fail user) db.activity)

  abbrev pub lock : ℕ → World → World
  lock user = update_user user (λ u. record u { locked_until = some (now + window) })

  -- the block under `!isValid`
  unfoldable pub reject_login : ℕ → ℕ → Action LoginResult
  reject_login user fails = do
    modify (log_activity (login_failed user (fails + 1) now))
    if leb cfg.max_attempts (fails + 1)
        then (do modify (lock user); throw user_locked)
        else throw invalid_credentials

  abbrev pub forget_fails : ℕ → World → World
  forget_fails user w = record w {
    db = record w.db { activity = select (λ a. not (is_recent_fail user a)) w.db.activity };
  }

  abbrev pub result_of : User → Option ℕ → LoginResult
  result_of u temp = record {
    user_id = u.id;
    personal_salt = u.personal_salt;
    encrypted_pek = or_text u.encrypted_pek "";
    role = role_or_user u.role;
    requires_2fa = u.two_factor_enabled;
    temp_token = temp;
  }

  -- what follows the check of the password
  unfoldable pub accept_login : ℕ → User → Action LoginResult
  accept_login temp_token u = do
    modify (forget_fails u.id)
    modify (update_user u.id (λ v. record v { locked_until = none }))
    modify (log_activity (login_success u.id now))
    if u.two_factor_enabled
        then (do
          modify (set_temp_token now temp_token u.id 300)
          pure (result_of u (some temp_token)))
        else pure (result_of u none)

  -- what follows the check of the restrictions
  unfoldable pub try_login : ℕ → ℕ → User → Action LoginResult
  try_login temp_token auth_key_hash u = do
    throw_if (is_locked now (some u)) user_locked
    fails ← gets (λ w. failed_count u.id w.db)
    if leb cfg.max_attempts fails
        then (do modify (lock u.id); throw user_locked)
        else if cfg.compare_hash auth_key_hash u.auth_key_hash
        then accept_login temp_token u
        else reject_login u.id fails

  -- `temp_token` is what `crypto.randomUUID()` gives.
  unfoldable pub login_user : ℕ → String → ℕ → Action LoginResult
  login_user temp_token email auth_key_hash = do
    u ← or_throw (← gets (λ w. find_email (cfg.lower email) w.db)) invalid_credentials
    assert_user_not_restricted now u.id
    try_login temp_token auth_key_hash u
