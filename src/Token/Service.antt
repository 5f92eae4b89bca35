-- ===== src/Token/Service.antt =====
-- The operations of packages/backend/src/services/tokenService.ts.
--
-- `hash_token` (SHA-512), `jwt.sign` and the decryption of the server's copy of the PEK are not
-- in reach of the model and are parameters; so are the random bytes of a token and the two
-- expiries of the configuration, in seconds.
use Prim.Native.String.{String}
use text.Mathlib.Text.{◌==◌ as str_eq}
use coldfi.Prelude.{
  is_none, ℕ, ◌+◌, ◌*◌, ltb, ◌==◌, Bool, false, not, ◌&&◌, Option, none, some, List, [], ◌∷◌, ◌++◌,
  is_some, find, select, length, if◌then◌else◌,
}
use coldfi.ServerKeys.{KeyCrypto, decrypt_server_key}
use coldfi.Database.{
  ◌>>=◌, ◌>>◌, pure, throw, throw_if, gets, modify, or_throw, transaction_on, update_where,
}
use coldfi.Token.State.{
  User, RefreshToken, logout, logout_all, World, Action, invalid_token, token_reused, token_expired,
  user_locked, foreign_key_violation, restore_db, find_user, find_token, is_live,
}
use coldfi.Token.Restrictions.{assert_user_not_restricted}

pub record Config : Type 0 where
  pub hash_token : ℕ → ℕ
  -- `jwt.sign({ userId, role }, …)`
  pub sign : ℕ → String → String
  pub server_keys : KeyCrypto
  pub refresh_seconds : ℕ
  pub access_seconds : ℕ

-- what a call draws at random, and its time
pub record Draw : Type 0 where
  pub now : ℕ
  pub token_id : ℕ
  pub refresh_token : ℕ

pub record TokenPair : Type 0 where
  pub access_token : String
  pub refresh_token : ℕ
  pub expires_in : ℕ
  pub role : String
  pub user_id : ℕ
  pub display_name : String
  pub personal_salt : String
  pub encrypted_pek : String
  pub email : String
  pub raw_pek : Option String
  pub is_google_user : Bool

-- `value ?? fallback`
abbrev pub or_text : Option String → String → String
or_text none fallback = fallback
or_text (some s) fallback = s

-- a truthy text
abbrev pub truthy : Option String → Bool
truthy none = false
truthy (some s) = not (str_eq s "")

abbrev pub blank_user : ℕ → User
blank_user id = record {
  id = id;
  role = none;
  display_name = none;
  personal_salt = none;
  encrypted_pek = none;
  email = "";
  google_id = none;
  server_encrypted_pek = none;
  locked_until = none;
  auth_key_hash = 0;
  two_factor_secret = none;
  two_factor_enabled = false;
  recovery_code_hash = none;
  default_currency = "BDT";
  timezone = "UTC";
}

-- `user?.field`: a missing row has no fields
abbrev pub user_or_blank : ℕ → Option User → User
user_or_blank id none = blank_user id
user_or_blank id (some u) = u

abbrev pub decrypted : (String → Option String) → Option String → Option String
decrypted decrypt none = none
decrypted decrypt (some s) = if str_eq s "" then none else decrypt s

module _ (cfg : Config) (draw : Draw) where
  abbrev pub new_token : ℕ → RefreshToken
  new_token user = record {
    id = draw.token_id;
    user_id = user;
    token_hash = cfg.hash_token draw.refresh_token;
    expires_at = draw.now + cfg.refresh_seconds * 1000;
    revoked_at = none;
    created_at = draw.now;
  }

  abbrev pub pair_of : ℕ → User → TokenPair
  pair_of user u =
      let role = or_text u.role "user" in
      record {
        access_token = cfg.sign user role;
        refresh_token = draw.refresh_token;
        expires_in = cfg.access_seconds;
        role = role;
        user_id = user;
        display_name = or_text u.display_name "";
        personal_salt = or_text u.personal_salt "";
        encrypted_pek = or_text u.encrypted_pek "";
        email = u.email;
        raw_pek = decrypted (decrypt_server_key cfg.server_keys) u.server_encrypted_pek;
        is_google_user = truthy u.google_id;
      }

  -- the row that is inserted refers to the user
  unfoldable pub generate_tokens : ℕ → Action TokenPair
  generate_tokens user = do
    found ← gets (λ w. find_user user w.db)
    throw_if (is_none found) foreign_key_violation
    modify λ w. record w { db = record w.db { tokens = w.db.tokens ++ (new_token user ∷ []) } }
    pure (pair_of user (user_or_blank user found))

-- `UPDATE refresh_tokens SET revoked_at = NOW() WHERE p AND revoked_at IS NULL`
abbrev pub revoke_where : ℕ → (RefreshToken → Bool) → List RefreshToken → List RefreshToken
revoke_where now p = update_where (λ t. p t && is_live t) (λ t. record t { revoked_at = some now })

abbrev pub is_of : ℕ → RefreshToken → Bool
is_of user t = t.user_id == user

abbrev pub revoke_user : ℕ → ℕ → World → World
revoke_user now user w = record w {
  db = record w.db { tokens = revoke_where now (is_of user) w.db.tokens };
}

-- 60 seconds: the age from which the reuse of a revoked token counts as theft
abbrev pub reuse_grace : ℕ
reuse_grace = 60_000

-- the rows that `UPDATE … WHERE id = $1 AND revoked_at IS NULL` changes
abbrev pub is_live_id : ℕ → RefreshToken → Bool
is_live_id id t = t.id == id && is_live t

abbrev pub is_locked : ℕ → Option User → Bool
is_locked now none = false
is_locked now (some u) = elim u.locked_until [ none ↦ false | some t ↦ ltb now t ]

abbrev pub stolen : ℕ → Option ℕ → Bool
stolen now none = false
stolen now (some t) = ltb (t + reuse_grace) now

-- `revokedAgoMs > 60_000`: then every live token of the user is revoked
abbrev pub on_reuse : ℕ → ℕ → Option ℕ → World → World
on_reuse now user revoked w = if stolen now revoked then revoke_user now user w else w

abbrev pub revoked_at_of : Option RefreshToken → Option ℕ
revoked_at_of none = none
revoked_at_of (some t) = t.revoked_at

-- the block under `updateResult.rowCount === 0`: another call revoked the row in between
unfoldable pub lost_race : ℕ → RefreshToken → Action ℕ
lost_race now t = do
  row ← gets (λ w. find (λ (u : RefreshToken). u.id == t.id) w.db.tokens)
  modify (on_reuse now t.user_id (revoked_at_of row))
  throw token_reused

-- the block under `storedToken.revoked_at`
unfoldable pub reused : ℕ → RefreshToken → Action ℕ
reused now t = do modify (on_reuse now t.user_id t.revoked_at); throw token_reused

-- the part of the transaction from the test of `revoked_at` on
unfoldable pub use_token : ℕ → RefreshToken → Action ℕ
use_token now t = do
  throw_if (ltb t.expires_at now) token_expired
  locked ← gets (λ w. is_locked now (find_user t.user_id w.db))
  throw_if locked user_locked
  assert_user_not_restricted now t.user_id
  hits ← gets (λ w. select (is_live_id t.id) w.db.tokens)
  modify λ w. record w {
    db = record w.db { tokens = revoke_where now (λ u. u.id == t.id) w.db.tokens };
  }
  if length hits == 0 then lost_race now t else pure t.user_id

unfoldable pub refresh_body : ℕ → ℕ → Action ℕ
unfolding use_token reused lost_race
refresh_body now hash = do
  t ← or_throw (← gets (λ w. find_token hash w.db)) invalid_token
  if is_some t.revoked_at then reused now t else use_token now t

unfoldable pub refresh_access_token : Config → Draw → ℕ → Action TokenPair
unfolding transaction_on refresh_body
refresh_access_token cfg draw token = do
  user ← transaction_on restore_db (refresh_body draw.now (cfg.hash_token token))
  generate_tokens cfg draw user

unfoldable pub revoke_all_user_tokens : ℕ → ℕ → Action (Unit {0})
revoke_all_user_tokens now user = modify (revoke_user now user)

unfoldable pub logout_user : Config → ℕ → ℕ → ℕ → Action (Unit {0})
logout_user cfg now user token = do
  modify λ w. record w {
    db = record w.db {
      tokens =
          revoke_where now (λ t. is_of user t && t.token_hash == cfg.hash_token token) w.db.tokens;
    };
  }
  modify λ w. record w { db = record w.db { activity = logout user now ∷ w.db.activity } }

-- returns `revokedCount`
unfoldable pub logout_all_devices : ℕ → ℕ → Action ℕ
logout_all_devices now user = do
  hits ← gets (λ w. select (λ t. is_of user t && is_live t) w.db.tokens)
  modify (revoke_user now user)
  modify λ w. record w {
    db = record w.db { activity = logout_all user now (length hits) ∷ w.db.activity };
  }
  pure (length hits)
