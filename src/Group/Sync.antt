-- ===== src/Group/Sync.antt =====
-- `getGroupSync`, `getGroupEncryptionKey` and `syncGroupBlob` of
-- packages/backend/src/services/groupService.ts. That the uploaded clock is an object is its type
-- here, so that check has no counterpart.
use Prim.Native.String.{String}
use text.Mathlib.Text.{◌==◌ as str_eq}
use coldfi.Prelude.{ℕ, ◌==◌, Bool, true, Option, none, some, List, [], ◌∷◌, is_some, if◌then◌else◌}
use coldfi.Database.{◌>>=◌, ◌>>◌, pure, throw, throw_if, gets, modify, or_throw, transaction}
use coldfi.Clock.{Clock, detect_conflict, merge_clocks, tick}
use coldfi.Blob.{Bytes, Aead, decrypt_group_blob}
use coldfi.Group.State.{Sync, Action, not_found, validation, encryption, find_group, find_sync}

unfoldable pub get_group_encryption_key : ℕ → Action Bytes
get_group_encryption_key group = do
  g ← or_throw (← gets (find_group group)) not_found
  pure g.encryption_key

unfoldable pub get_group_sync : ℕ → Action (Option (String × Clock × ℕ))
get_group_sync group = do
  row ← gets (find_sync group)
  pure (elim row [ none ↦ none | some r ↦ some (r.encrypted_blob, r.vector_clock, r.updated_at) ])

-- The answer of `syncGroupBlob`.
pub data SyncResult : Type 0 where
  -- `serverClock` and `clientClock`
  conflicting : Clock → Clock → SyncResult
  -- `syncClock` and `updatedAt`
  stored : Clock → ℕ → SyncResult

abbrev pub clock_of : Option Sync → Clock
clock_of none = []
clock_of (some r) = r.vector_clock

abbrev pub new_sync : ℕ → ℕ → String → Clock → ℕ → Sync
new_sync now group blob clock user = record {
  group_id = group;
  encrypted_blob = blob;
  vector_clock = clock;
  updated_by = user;
  updated_at = now;
}

-- `INSERT … ON CONFLICT (group_id) DO UPDATE`
abbrev pub upsert_sync : Sync → List Sync → List Sync
upsert_sync new [] = new ∷ []
upsert_sync new (r ∷ rows) =
    if r.group_id == new.group_id then new ∷ rows else r ∷ upsert_sync new rows

-- whether the upload is refused as a conflict: the blob does not decrypt under the current key, or
-- the clocks conflict
abbrev pub refuses : Bool → Clock → Sync → Bool
refuses readable clock r = if readable then detect_conflict r.vector_clock clock else true

store_sync : ℕ → ℕ → String → Clock → ℕ → Option Sync → Action SyncResult
store_sync now group blob clock user existing = do
  let merged = tick user (merge_clocks (clock_of existing) clock)
  modify λ db. record db { syncs = upsert_sync (new_sync now group blob merged user) db.syncs }
  pure (stored merged now)

decide_sync : ℕ → ℕ → String → Clock → ℕ → Bool → Option Sync → Action SyncResult
unfolding store_sync
decide_sync now group blob clock user readable none =
    if readable then store_sync now group blob clock user none else throw encryption
decide_sync now group blob clock user readable (some r) =
    if refuses readable clock r
    then pure (conflicting r.vector_clock clock)
    else store_sync now group blob clock user (some r)

module _ (c : Aead) (now : ℕ) where
  sync_body : ℕ → String → Clock → ℕ → Action SyncResult
  unfolding decide_sync
  sync_body group blob clock user = do
    g ← or_throw (← gets (find_group group)) not_found
    existing ← gets (find_sync group)
    decide_sync now group blob clock user (is_some (decrypt_group_blob c g.encryption_key blob))
        existing

  unfoldable pub sync_group_blob : ℕ → String → Clock → ℕ → Action SyncResult
  unfolding transaction sync_body
  sync_group_blob group blob clock user = do
    throw_if (str_eq blob "") validation
    transaction (sync_body group blob clock user)
