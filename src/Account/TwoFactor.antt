-- ===== src/Account/TwoFactor.antt =====
-- The functions of packages/backend/src/services/twoFactorService.ts, and `setTempToken` and
-- `getTempToken` of packages/backend/src/services/redis.ts for the purpose '2fa-login'.
--
-- otplib and qrcode are not part of the repository: what the code uses of them is a parameter.
use Prim.Native.String.{String}
use coldfi.Prelude.{
  ℕ, ◌+◌, ◌*◌, ltb, ◌==◌, Bool, true, false, not, ◌&&◌, Option, none, some, ◌∷◌, is_none, find,
  select,
}
use coldfi.Database.{◌>>=◌, ◌>>◌, pure, throw_if, gets, modify, or_throw, update_where}
use coldfi.Token.State.{
  User, Activity, two_factor_on, two_factor_off, TempToken, World, Action, not_found, conflict,
  validation, invalid_2fa, temp_token_expired, find_user,
}
use coldfi.Token.Restrictions.{assert_user_not_restricted}
use coldfi.Token.Service.{Config, Draw, TokenPair, generate_tokens}

pub record Totp : Type 0 where
  -- `authenticator.keyuri(email, ISSUER_NAME, secret)`
  pub keyuri : String → String → ℕ → String
  -- `authenticator.verify({ token, secret })`
  pub verify : ℕ → Option ℕ → Bool
  -- `QRCode.toDataURL`
  pub to_data_url : String → String

abbrev pub issuer_name : String
issuer_name = "ColdFi"

pub record TwoFaSetupResult : Type 0 where
  pub secret : ℕ
  pub otpauth_url : String
  pub qr_code_data_url : String

abbrev pub update_user : ℕ → (User → User) → World → World
update_user user f w = record w {
  db = record w.db { users = update_where (λ (u : User). u.id == user) f w.db.users };
}

abbrev pub log_activity : Activity → World → World
log_activity a w = record w { db = record w.db { activity = a ∷ w.db.activity } }

-- `set key data EX ttl` replaces what is there
unfoldable pub set_temp_token : ℕ → ℕ → ℕ → ℕ → World → World
set_temp_token now token user ttl w = record w {
  temp_tokens =
      record { token = token; user_id = user; expires_at = now + ttl * 1000 }
      ∷ select (λ (t : TempToken). not (t.token == token)) w.temp_tokens;
}

abbrev pub is_temp : ℕ → ℕ → TempToken → Bool
is_temp now token t = t.token == token && ltb now t.expires_at

-- `getdel`
unfoldable pub get_temp_token : ℕ → ℕ → Action (Option TempToken)
get_temp_token now token = do
  found ← gets (λ w. find (is_temp now token) w.temp_tokens)
  modify λ w. record w {
    temp_tokens = select (λ (t : TempToken). not (t.token == token)) w.temp_tokens;
  }
  pure found

-- `!userResult.rows[0].two_factor_enabled`, or no row
abbrev pub lacks_two_factor : Option User → Bool
lacks_two_factor none = true
lacks_two_factor (some u) = not u.two_factor_enabled

abbrev pub secret_of : Option User → Option ℕ
secret_of none = none
secret_of (some u) = u.two_factor_secret

module _ (totp : Totp) where
  -- `secret` is what `authenticator.generateSecret` gives.
  unfoldable pub generate_2fa_secret : ℕ → ℕ → Action TwoFaSetupResult
  generate_2fa_secret secret user = do
    u ← or_throw (← gets (λ w. find_user user w.db)) not_found
    throw_if u.two_factor_enabled conflict
    modify (update_user user (λ v. record v { two_factor_secret = some secret }))
    pure record {
      secret = secret;
      otpauth_url = totp.keyuri u.email issuer_name secret;
      qr_code_data_url = totp.to_data_url (totp.keyuri u.email issuer_name secret);
    }

  unfoldable pub verify_2fa_setup : ℕ → ℕ → ℕ → Action (Unit {0})
  verify_2fa_setup now user code = do
    u ← or_throw (← gets (λ w. find_user user w.db)) not_found
    throw_if u.two_factor_enabled conflict
    throw_if (is_none u.two_factor_secret) validation
    throw_if (not (totp.verify code u.two_factor_secret)) invalid_2fa
    modify (update_user user (λ v. record v { two_factor_enabled = true }))
    modify (log_activity (two_factor_on user now))

  -- what follows once the session token is consumed
  unfoldable pub answer_challenge : Config → Draw → ℕ → TempToken → Action TokenPair
  answer_challenge cfg draw code t = do
    assert_user_not_restricted draw.now t.user_id
    u ← gets (λ w. find_user t.user_id w.db)
    throw_if (lacks_two_factor u) validation
    throw_if (not (totp.verify code (secret_of u))) invalid_2fa
    generate_tokens cfg draw t.user_id

  unfoldable pub verify_2fa_login : Config → Draw → ℕ → ℕ → Action TokenPair
  verify_2fa_login cfg draw temp_token code = do
    data' ← get_temp_token draw.now temp_token
    t ← or_throw data' temp_token_expired
    answer_challenge cfg draw code t

  unfoldable pub get_two_factor_status : ℕ → Action Bool
  get_two_factor_status user = gets (λ w. not (lacks_two_factor (find_user user w.db)))

  unfoldable pub disable_2fa : ℕ → ℕ → ℕ → Action (Unit {0})
  disable_2fa now user code = do
    u ← or_throw (← gets (λ w. find_user user w.db)) not_found
    throw_if (not u.two_factor_enabled) validation
    throw_if (not (totp.verify code u.two_factor_secret)) invalid_2fa
    modify
        (update_user user (λ v. record v { two_factor_enabled = false; two_factor_secret = none }))
    modify (log_activity (two_factor_off user now))
