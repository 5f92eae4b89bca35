-- ===== src/LogChain/Tests.antt =====
-- A log of two entries, one that is forged, and one that goes round in a circle.
use Prim.Native.String.{String}
use coldfi.Prelude.{ℕ, ◌≡◌, refl, none, some, List, [], ◌∷◌}
use coldfi.LogChain.Canonical.{
  canonical_stringify, object, num, str, null, array, element, no_element, member, no_member,
}
use coldfi.LogChain.Entries.{LogEntry, CreateLogEntryInput, create_group_log_entry}
use coldfi.LogChain.Chain.{LogError, verify_log_chain, heads}
use coldfi.LogChain.Intact.{IsIntact}
use coldfi.LogChain.Total.{verify_log_chain-IsIntact, verify_log_chain_total}
use coldfi.LogChain.Forged.{verify_log_chain-forged}
use coldfi.Account.Emails.{codes}

keys_in_order :
    canonical_stringify (
      object (
        member "b"
          (num "1")
          (member "a" (array (element (str "x\"") (element null no_element))) no_member)))
    ≡ codes "{\"a\":[\"x\\\"\",null],\"b\":1}"
unfolding canonical_stringify
keys_in_order = refl

-- for the tests, the hash is one letter for each code point
abbrev letters : List ℕ → String
letters [] = "!"
letters (c ∷ cs) = String.◌∷◌ "x" (letters cs)

abbrev input : CreateLogEntryInput
input = record {
  id = "1";
  group_id = "g";
  event_type = "expense_added";
  actor_id = "ana";
  target_id = none;
  metadata = none;
  timestamp = none;
  previous_log_hash = none;
}

abbrev first : LogEntry
first = create_group_log_entry letters "noon" input

abbrev second : LogEntry
second =
    create_group_log_entry letters "noon"
      (record input { id = "2"; previous_log_hash = some first.hash })

-- the hash of the first entry, and another content
abbrev forged : LogEntry
forged = record first { content = record first.content { actor_id = "eve" } }

verify_log_chain-IsIntact_example :
    (h : LogEntry) × (heads (first ∷ second ∷ []) ≡ h ∷ [])
    × IsIntact letters (first ∷ second ∷ []) h
unfolding verify_log_chain create_group_log_entry
verify_log_chain-IsIntact_example = verify_log_chain-IsIntact letters first (second ∷ []) refl

verify_log_chain-forged_example :
    verify_log_chain letters (forged ∷ first ∷ second ∷ [])
    ≡ verify_log_chain letters (first ∷ second ∷ [])
unfolding create_group_log_entry
verify_log_chain-forged_example =
    verify_log_chain-forged letters forged first (second ∷ []) {g = first} refl refl refl

verify_log_chain_total_example :
    (errors : List LogError) × (verify_log_chain letters (forged ∷ second ∷ []) ≡ some errors)
verify_log_chain_total_example = verify_log_chain_total letters (forged ∷ second ∷ [])
