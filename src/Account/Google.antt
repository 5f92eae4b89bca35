-- ===== src/Account/Google.antt =====
-- `googleLogin` of packages/backend/src/services/authService.ts. The verification of the token by
-- google-auth-library is a parameter.
use Prim.Native.String.{String}
use text.Mathlib.Text.{◌==◌ as str_eq}
use coldfi.Prelude.{
  ℕ, Bool, true, false, not, ◌&&◌, ◌||◌, Option, none, some, List, find, is_some, if◌then◌else◌,
}
use coldfi.ServerKeys.{encrypt_server_key}
use coldfi.Database.{◌>>=◌, ◌>>◌, pure, throw_if, gets, modify, or_throw, transaction_on}
use coldfi.Token.State.{
  User, registered, World, Db, Action, google_not_configured, invalid_google_token,
  email_unverified, account_mismatch, restore_db,
}
use coldfi.Token.Restrictions.{assert_user_not_restricted}
use coldfi.Token.Service.{Config, Draw, TokenPair, truthy, or_text, generate_tokens}
use coldfi.Account.TwoFactor.{update_user, log_activity, set_temp_token}
use coldfi.Account.Login.{LoginResult, role_or_user, find_email}
use coldfi.Account.Codes.{generate_recovery_code, hash_recovery_code}
use coldfi.Account.Registration.{
  RegisterConfig, role_of, RegisterDraw, non_empty, add_user, log_owner,
}

-- what the code reads of the payload of a token
pub record Payload : Type 0 where
  pub sub : String
  pub email : String
  pub email_verified : Bool
  pub name : Option String

pub data GoogleResult : Type 0 where
  -- `requires2FA: true`
  challenge : LoginResult → GoogleResult
  -- `googleNewUser: false`
  signed_in : TokenPair → GoogleResult
  -- `googleNewUser: true`, with the salt, the key and the recovery code
  registered_new : TokenPair → String → String → List ℕ → GoogleResult

-- the time of a call, and what it draws at random
pub record GoogleDraw : Type 0 where
  pub tokens : Draw
  pub temp_token : ℕ
  pub register : RegisterDraw
  pub internal_pass : ℕ
  pub personal_salt : String
  pub pek : String

abbrev pub has_google_id : String → User → Bool
has_google_id google_id u = elim u.google_id [ none ↦ false | some g ↦ str_eq g google_id ]

-- `user.google_id && user.google_id !== googleId`
abbrev pub is_mismatch : String → User → Bool
is_mismatch google_id u = truthy u.google_id && not (has_google_id google_id u)

-- `COALESCE(NULLIF($2, ''), display_name)`
abbrev pub shown_name : String → Option String → Option String
shown_name name old = if str_eq name "" then old else some name

abbrev pub link_google : String → String → User → User
link_google google_id name u = record u {
  google_id = some google_id;
  display_name = shown_name name u.display_name;
}

-- the result that asks for the second factor
abbrev pub challenge_of : ℕ → User → LoginResult
challenge_of temp_token u = record {
  user_id = u.id;
  personal_salt = u.personal_salt;
  encrypted_pek = or_text u.encrypted_pek "";
  role = role_or_user u.role;
  requires_2fa = true;
  temp_token = some temp_token;
}

module _ (cfg : Config) (draw : GoogleDraw) where
  abbrev now : ℕ
  now = draw.tokens.now

  -- what each path does with a user that exists: the second factor applies to all of them
  unfoldable pub enter : User → Action GoogleResult
  enter u =
      if u.two_factor_enabled
      then (do
        modify (set_temp_token now draw.temp_token u.id 300)
        pure (challenge (challenge_of draw.temp_token u)))
      else (do pair ← generate_tokens cfg draw.tokens u.id; pure (signed_in pair))

  unfoldable pub enter_checked : User → Action GoogleResult
  unfolding enter
  enter_checked u = do assert_user_not_restricted now u.id; enter u

  module _ (google_id : String) (name : String) where
    abbrev pub link : User → World → World
    link u w = if truthy u.google_id then w else update_user u.id (link_google google_id name) w

    abbrev pub finish_link : User → Action (Option User)
    finish_link u = do modify (link u); pure (some u)

    -- the row that the first transaction finds
    unfoldable pub link_existing : User → Action (Option User)
    link_existing u = do
      throw_if (is_mismatch google_id u) account_mismatch
      assert_user_not_restricted now u.id
      finish_link u

    abbrev pub link_found : Option User → Action (Option User)
    link_found none = pure none
    link_found (some u) = link_existing u

    -- the callback of the first transaction
    unfoldable pub existing_body : String → Action (Option User)
    unfolding link_existing
    existing_body email = do found ← gets (λ w. find_email email w.db); link_found found

  module _ (rc : RegisterConfig) (google_id email name : String) where
    abbrev pub google_user : User
    google_user = record {
      id = draw.register.user_id;
      role = some (role_of rc email);
      display_name = non_empty (some name);
      personal_salt = some draw.personal_salt;
      encrypted_pek = some draw.pek;
      email = email;
      google_id = some google_id;
      server_encrypted_pek = some (encrypt_server_key rc.server_keys draw.register.iv draw.pek);
      locked_until = none;
      auth_key_hash = rc.hash_key draw.register.key_salt draw.internal_pass;
      two_factor_secret = none;
      two_factor_enabled = false;
      recovery_code_hash = some (
          hash_recovery_code rc.bcrypt draw.register.code_salt
            (generate_recovery_code draw.register.hex));
      default_currency = "BDT";
      timezone = "UTC";
    }

    -- Whether the insertion throws the 23505 that the code catches: `email` and `google_id` are
    -- UNIQUE in the table.
    abbrev pub violates_unique : Db → Bool
    violates_unique db =
        is_some (find_email email db) || is_some (find (has_google_id google_id) db.users)

    -- The transaction of the registration returns `registrationSucceeded`; a violation of a
    -- constraint rolls it back.
    unfoldable pub insert_google_user : Action Bool
    insert_google_user = do
      taken ← gets (λ w. violates_unique w.db)
      if taken then pure false else (do
        modify (add_user google_user)
        modify (log_activity (registered draw.register.user_id draw.register.now))
        modify (log_owner rc draw.register.user_id draw.register.now email)
        pure true)

    -- the return at the end of the function
    unfoldable pub enter_new : Action GoogleResult
    enter_new = do
      pair ← generate_tokens cfg draw.tokens draw.register.user_id
      pure (
          registered_new pair draw.personal_salt draw.pek
            (generate_recovery_code draw.register.hex))

    -- the return for a user that another call registered meanwhile, if any
    abbrev pub enter_raced : Option User → Action GoogleResult
    enter_raced none = enter_new
    enter_raced (some u) = enter_checked u

    unfoldable pub after_insert : Bool → Action GoogleResult
    after_insert inserted = do
      raced ← gets (λ w. if inserted then none else find_email email w.db)
      enter_raced raced

    -- what follows where nobody has the Google id
    unfoldable pub register_google : Action GoogleResult
    unfolding insert_google_user enter_new enter_checked after_insert
    register_google = do inserted ← insert_google_user; after_insert inserted

    -- `others` is what other calls commit before the insertion.
    abbrev pub enter_found : (World → World) → Option User → Action GoogleResult
    enter_found others none = do modify others; register_google
    enter_found others (some u) = enter_checked u

    -- what follows where nobody has the address
    unfoldable pub enter_by_google : (World → World) → Action GoogleResult
    unfolding register_google enter_checked
    enter_by_google others = do
      found ← gets (λ w. find (has_google_id google_id) w.db.users)
      enter_found others found

  abbrev pub enter_existing :
      RegisterConfig
      → (World → World)
      → String
      → String
      → String
      → Option User
      → Action GoogleResult
  enter_existing rc others google_id email name none =
      enter_by_google rc google_id email name others
  enter_existing rc others google_id email name (some u) = enter u

  unfoldable pub enter_verified :
      RegisterConfig → (World → World) → String → String → String → Action GoogleResult
  unfolding existing_body transaction_on enter enter_by_google
  enter_verified rc others google_id email name = do
    existing ← transaction_on restore_db (existing_body google_id name email)
    enter_existing rc others google_id email name existing

  -- what follows once the token is verified
  unfoldable pub google_login_as : RegisterConfig → (World → World) → Payload → Action GoogleResult
  unfolding enter_verified
  google_login_as rc others payload = do
    throw_if (str_eq payload.sub "" || str_eq payload.email "") invalid_google_token
    throw_if (not payload.email_verified) email_unverified
    let email = rc.lower payload.email
    let name = or_text payload.name ""
    enter_verified rc others payload.sub email name

  -- `client` is `verifyIdToken` with `getPayload` where the client is configured.
  unfoldable pub google_login :
      Option (String → Option Payload)
      → RegisterConfig
      → (World → World)
      → String
      → Action GoogleResult
  unfolding google_login_as
  google_login client rc others id_token = do
    verify ← or_throw client google_not_configured
    payload ← or_throw (verify id_token) invalid_google_token
    google_login_as rc others payload
