-- ===== src/Group/State.antt =====
-- The tables that packages/backend/src/services/groupService.ts works on, and its queries.
--
-- Ids and invite codes are only compared, so they are numbers; so are times. A key is the bytes
-- of its hex text. `find` gives the first row that a query selects, as `rows[0]`.
use Prim.Native.String.{String}
use coldfi.Prelude.{
  ℕ, ltb, ◌==◌, Bool, true, false, ◌&&◌, Option, none, some, List, [], ◌∷◌, find, is_none,
  if◌then◌else◌,
}
use coldfi.Clock.{Clock}
use coldfi.Blob.{Bytes}
use coldfi.Database.{Tx}

pub data Role : Type 0 where
  admin member viewer : Role

abbrev pub is_admin : Role → Bool
is_admin Role.admin = true
is_admin Role.member = false
is_admin Role.viewer = false

pub record Group : Type 0 where
  pub id : ℕ
  pub name : String
  pub encryption_key : Bytes
  pub default_currency : String
  pub created_by : ℕ
  pub is_active : Bool
  pub created_at : ℕ
  pub updated_at : ℕ

pub record Member : Type 0 where
  pub id : ℕ
  pub group_id : ℕ
  pub user_id : ℕ
  pub role : Role
  pub member_index : ℕ
  pub joined_at : ℕ
  pub left_at : Option ℕ

pub record Invite : Type 0 where
  pub id : ℕ
  pub group_id : ℕ
  pub code : ℕ
  pub created_by : ℕ
  pub expires_at : Option ℕ
  pub max_uses : ℕ
  pub use_count : ℕ
  pub is_active : Bool
  pub created_at : ℕ

pub record Sync : Type 0 where
  pub group_id : ℕ
  pub encrypted_blob : String
  pub vector_clock : Clock
  pub updated_by : ℕ
  pub updated_at : ℕ

pub record Db : Type 0 where
  pub groups : List Group
  pub members : List Member
  pub invites : List Invite
  pub syncs : List Sync

-- The errors that the service throws, by their codes; `cipher` is an exception of the decryption.
pub data Error : Type 0 where
  not_found conflict forbidden validation last_admin invite_invalid encryption cipher : Error

abbrev pub Action : Type 0 → Type 0
Action A = Tx Db Error A

-- `left_at IS NULL`
abbrev pub is_present : Member → Bool
is_present m = is_none m.left_at

-- `group_id = $1 AND user_id = $2`
abbrev pub is_row : ℕ → ℕ → Member → Bool
is_row group user m = m.group_id == group && m.user_id == user

abbrev pub find_member : ℕ → ℕ → Db → Option Member
find_member group user db = find (is_row group user) db.members

-- `… AND left_at IS NULL`
abbrev pub find_present : ℕ → ℕ → Db → Option Member
find_present group user db = find (λ m. is_row group user m && is_present m) db.members

abbrev pub find_group : ℕ → Db → Option Group
find_group group db = find (λ g. g.id == group) db.groups

abbrev pub find_sync : ℕ → Db → Option Sync
find_sync group db = find (λ r. r.group_id == group) db.syncs

-- The earlier of a row and the best of the rows behind it; of two that joined at one time, the
-- first row.
abbrev pub earlier : Member → Option Member → Option Member
earlier m none = some m
earlier m (some n) = if ltb n.joined_at m.joined_at then some n else some m

-- `ORDER BY joined_at ASC LIMIT 1`
abbrev pub first_joined : List Member → Option Member
first_joined [] = none
first_joined (m ∷ ms) = earlier m (first_joined ms)
