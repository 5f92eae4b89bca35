-- ===== src/LogChain/Entries.antt =====
-- `createGroupLogEntry` and `computeLogHash` of packages/shared/src/engine/logManager.ts. SHA-512
-- is a parameter.
use Prim.Native.String.{String}
use text.Mathlib.Text.{◌==◌ as str_eq}
use coldfi.Prelude.{ℕ, Option, none, some, List, if◌then◌else◌}
use coldfi.LogChain.Canonical.{Value, str, object, no_member, member, canonical_stringify}

pub record LogContent : Type 0 where
  pub id : String
  pub group_id : String
  pub event_type : String
  pub actor_id : String
  pub target_id : Option String
  pub metadata : Value
  pub timestamp : String
  pub previous_log_hash : String

-- `GroupLogEntry`
pub record LogEntry : Type 0 where
  pub content : LogContent
  pub hash : String

pub record CreateLogEntryInput : Type 0 where
  pub id : String
  pub group_id : String
  pub event_type : String
  pub actor_id : String
  pub target_id : Option String
  pub metadata : Option Value
  pub timestamp : Option String
  pub previous_log_hash : Option String

-- `text || fallback`
abbrev pub or_else : Option String → String → String
or_else none fallback = fallback
or_else (some s) fallback = if str_eq s "" then fallback else s

abbrev pub metadata_or_empty : Option Value → Value
metadata_or_empty none = object no_member
metadata_or_empty (some v) = v

-- the object that is hashed
abbrev pub hashed_object : LogContent → Value
hashed_object c = object (
    member "id" (str c.id) (
      member "groupId" (str c.group_id) (
        member "eventType" (str c.event_type) (
          member "actorId" (str c.actor_id) (
            member "targetId" (str (or_else c.target_id "")) (
              member "metadata" c.metadata (
                member "timestamp" (str c.timestamp)
                  (member "previousLogHash" (str c.previous_log_hash) no_member))))))))

module _ (sha512 : List ℕ → String) where
  unfoldable pub compute_log_hash : LogContent → String
  unfolding canonical_stringify
  compute_log_hash c = sha512 (canonical_stringify (hashed_object c))

  -- `now` is `new Date().toISOString()`.
  abbrev pub content_of : String → CreateLogEntryInput → LogContent
  content_of now input = record {
    id = input.id;
    group_id = input.group_id;
    event_type = input.event_type;
    actor_id = input.actor_id;
    target_id = input.target_id;
    metadata = metadata_or_empty input.metadata;
    timestamp = or_else input.timestamp now;
    previous_log_hash = or_else input.previous_log_hash "";
  }

  unfoldable pub create_group_log_entry : String → CreateLogEntryInput → LogEntry
  unfolding compute_log_hash
  create_group_log_entry now input =
      let content = content_of now input in
      record { content = content; hash = compute_log_hash content }
