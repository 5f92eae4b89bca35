-- ===== src/Token/State.antt =====
-- The tables that packages/backend/src/services/tokenService.ts and
-- packages/backend/src/services/userRestrictions.ts work on, and the cache of the latter.
-- Ids, token texts and their hashes are only compared, so they are numbers; times are in
-- milliseconds.
use Prim.Native.String.{String}
use coldfi.Prelude.{ℕ, ◌==◌, Bool, Option, List, find, is_none}
use coldfi.Database.{Tx}

pub record User : Type 0 where
  pub id : ℕ
  pub role : Option String
  pub display_name : Option String
  pub personal_salt : Option String
  pub encrypted_pek : Option String
  pub email : String
  pub google_id : Option String
  pub server_encrypted_pek : Option String
  pub locked_until : Option ℕ
  pub auth_key_hash : ℕ
  pub two_factor_secret : Option ℕ
  pub two_factor_enabled : Bool
  pub recovery_code_hash : Option ℕ
  pub default_currency : String
  pub timezone : String

pub record RefreshToken : Type 0 where
  pub id : ℕ
  pub user_id : ℕ
  pub token_hash : ℕ
  pub expires_at : ℕ
  pub revoked_at : Option ℕ
  pub created_at : ℕ

-- `type` of a restriction, by what the code asks about it
pub data Kind : Type 0 where
  banned suspended other : Kind

pub record RestrictionRow : Type 0 where
  pub user_id : ℕ
  pub kind : Kind
  pub expires_at : Option ℕ
  pub lifted_at : Option ℕ

pub record ActiveRestriction : Type 0 where
  pub kind : Kind
  pub expires_at : Option ℕ

-- a row of `user_activity_log`, with the count in the metadata of 'logout_all'
pub data Activity : Type 0 where
  logout : ℕ → ℕ → Activity
  logout_all : ℕ → ℕ → ℕ → Activity
  -- with `attempts` in the metadata
  login_failed : ℕ → ℕ → ℕ → Activity
  login_success : ℕ → ℕ → Activity
  two_factor_on two_factor_off : ℕ → ℕ → Activity
  registered admin_granted password_changed : ℕ → ℕ → Activity

pub record Db : Type 0 where
  pub users : List User
  pub tokens : List RefreshToken
  pub restrictions : List RestrictionRow
  pub activity : List Activity

pub record CacheEntry : Type 0 where
  pub checked_at : ℕ
  pub restrictions : List ActiveRestriction

-- a key 'temp:2fa-login:…' of Redis, with its time to live
pub record TempToken : Type 0 where
  pub token : ℕ
  pub user_id : ℕ
  pub expires_at : ℕ

-- The database; the process's `restrictionCache` and the keys of Redis, which a rollback does not
-- touch.
pub record World : Type 0 where
  pub db : Db
  pub cache : List (ℕ × CacheEntry)
  pub temp_tokens : List TempToken

pub data Error : Type 0 where
  invalid_token token_reused token_expired user_locked account_banned account_suspended : Error
  not_found conflict validation invalid_2fa temp_token_expired invalid_credentials : Error
  google_not_configured invalid_google_token email_unverified account_mismatch : Error
  invalid_password invalid_recovery recovery_failed internal : Error
  -- what the database throws for a row that refers to a missing one
  foreign_key_violation : Error

abbrev pub Action : Type 0 → Type 0
Action A = Tx World Error A

abbrev pub restore_db : World → World → World
restore_db old new = record new { db = old.db }

abbrev pub find_user : ℕ → Db → Option User
find_user user db = find (λ u. u.id == user) db.users

abbrev pub find_token : ℕ → Db → Option RefreshToken
find_token hash db = find (λ (t : RefreshToken). t.token_hash == hash) db.tokens

-- `revoked_at IS NULL`
abbrev pub is_live : RefreshToken → Bool
is_live t = is_none t.revoked_at
