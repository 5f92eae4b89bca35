-- ===== src/LogChain/Chain.antt =====
-- `verifyLogChain` of packages/shared/src/engine/logManager.ts.
use Prim.Native.String.{String}
use text.Mathlib.Text.{◌==◌ as str_eq}
use coldfi.Prelude.{
  ℕ, zero, suc, Bool, true, false, not, ◌&&◌, Option, none, some, List, [], ◌∷◌, ◌++◌, map, select,
  any, length, if◌then◌else◌,
}
use coldfi.LogChain.Entries.{LogEntry, compute_log_hash}

-- The texts of an error by what they are about.
pub data LogError : Type 0 where
  no_head : LogError
  forked : List String → LogError
  circular : String → LogError
  hash_mismatch : String → LogError
  missing_predecessor : String → String → LogError
  link_mismatch : String → LogError

-- `byHash.get(hash)`: of two entries with one hash, the later one
abbrev pub by_hash : List LogEntry → String → Option LogEntry
by_hash [] hash = none
by_hash (e ∷ es) hash = elim (by_hash es hash) [
  | some f ↦ some f
  | none ↦ if str_eq e.hash hash then some e else none
]

-- `successors.has(hash)`; an empty previous hash is not added
abbrev pub is_previous : List LogEntry → String → Bool
is_previous es hash =
    any
      (λ e. not (str_eq e.content.previous_log_hash "") && str_eq e.content.previous_log_hash hash)
      es

abbrev pub heads : List LogEntry → List LogEntry
heads es = select (λ e. not (is_previous es e.hash)) es

abbrev pub has_visited : List String → String → Bool
has_visited visited hash = any (λ v. str_eq v hash) visited

-- what the `while` loop collects; `stopped` where it returns at a circular reference
pub record Walk : Type 0 where
  pub errors : List LogError
  pub chain : List LogEntry
  pub stopped : Bool

abbrev pub one_step : LogEntry → List LogError → Walk
one_step e errors = record { errors = errors; chain = e ∷ []; stopped = false }

abbrev pub push_entry : LogEntry → List LogError → Option Walk → Option Walk
push_entry e errors none = none
push_entry e errors (some w) = some record w { errors = errors ++ w.errors; chain = e ∷ w.chain }

abbrev pub link_errors : List LogEntry → List LogError
link_errors [] = []
link_errors (e ∷ []) = []
link_errors (e ∷ f ∷ es) =
    let rest = link_errors (f ∷ es) in
    if str_eq e.content.previous_log_hash f.hash then rest else link_mismatch f.content.id ∷ rest

abbrev pub all_errors : Option Walk → Option (List LogError)
all_errors none = none
all_errors (some w) = some (if w.stopped then w.errors else w.errors ++ link_errors w.chain)

module _ (sha512 : List ℕ → String) where
  abbrev pub own_errors : LogEntry → List LogError
  own_errors e =
      if str_eq e.hash (compute_log_hash sha512 e.content)
      then []
      else hash_mismatch e.content.id ∷ []

  module _ (lookup_hash : String → Option LogEntry) where
    -- The `while` loop, back from an entry; `none` when the fuel is used up.
    unfoldable pub walk : ℕ → List String → LogEntry → Option Walk
    walk zero visited e = none
    walk (suc fuel) visited e =
        let next : Option Walk = elim (lookup_hash e.content.previous_log_hash) [
          | none ↦ some (
              one_step e
                (own_errors e ++ missing_predecessor e.content.id e.content.previous_log_hash ∷ []))
          | some p ↦ push_entry e (own_errors e) (walk fuel (e.hash ∷ visited) p)
        ] in
        let go_on =
          if str_eq e.content.previous_log_hash ""
          then some (one_step e (own_errors e))
          else next in
        if has_visited visited e.hash
        then some record { errors = circular e.content.id ∷ []; chain = []; stopped = true }
        else go_on

  -- with the heads, from the test of their number on
  unfoldable pub verify_heads :
      ℕ → (String → Option LogEntry) → List LogEntry → Option (List LogError)
  verify_heads fuel lookup_hash [] = some (no_head ∷ [])
  verify_heads fuel lookup_hash (h ∷ []) = all_errors (walk lookup_hash fuel [] h)
  verify_heads fuel lookup_hash (h ∷ k ∷ hs) =
      some (forked (map (λ (e : LogEntry). e.content.id) (h ∷ k ∷ hs)) ∷ [])

  -- One unit of fuel per entry, and one to find a circle. `valid` is that there are no errors.
  unfoldable pub verify_log_chain : List LogEntry → Option (List LogError)
  unfolding walk verify_heads
  verify_log_chain [] = some []
  verify_log_chain (e ∷ es) =
      verify_heads (suc (length (e ∷ es))) (by_hash (e ∷ es)) (heads (e ∷ es))
