-- ===== src/LogChain/Total.antt =====
-- `verifyLogChain` ends, and a log that it accepts is intact from its head on.
use Prim.Native.String.{String}
use mathlib.Core.Option.{some-injective}
use text.Mathlib.Text.{◌==◌ as str_eq}
use text.Mathlib.TextPositions.{eq_refl}
use coldfi.Prelude.{
  ℕ, zero, suc, ◌<◌, ◌≤◌, ◌≡◌, refl, sym, ap, ◌∙◌, Bool, true, false, not, some, List, [], ◌∷◌,
  ◌++◌, select, length, arith, Bool-cases, Option-cases, ◌⊎◌, inl, inr,
}
use coldfi.LogChain.Entries.{LogEntry}
use coldfi.LogChain.Chain.{
  LogError, circular, missing_predecessor, Walk, one_step, by_hash, is_previous, heads, has_visited,
  own_errors, link_errors, all_errors, walk, verify_heads, verify_log_chain,
}
use coldfi.LogChain.Intact.{IsIntact, append_nil, walk-IsIntact}

abbrev pub IsIn : LogEntry → List LogEntry → Type 0
IsIn e [] = ⊥
IsIn e (f ∷ es) = (e ≡ f) ⊎ IsIn e es

by_hash-IsIn : (es : List LogEntry) (h : String) (p : LogEntry) → by_hash es h ≡ some p → IsIn p es
by_hash-IsIn [] h p k = cc
by_hash-IsIn (f ∷ es) h p k = elim (Option-cases (by_hash es h)) [
  | inr (g, found) ↦
      let same : some g ≡ some p = ground arith in inr (by_hash-IsIn es h p (found ∙ same))
  | inl nothing ↦ elim (Bool-cases (str_eq f.hash h)) [
    | inl t ↦ let same : some f ≡ some p = ground arith in inl (sym (some-injective f p same))
    | inr n ↦ ground arith
  ]
]

select-IsIn :
    (q : LogEntry → Bool) (es : List LogEntry) (e : LogEntry) → IsIn e (select q es) → IsIn e es
select-IsIn q [] e h = h
select-IsIn q (f ∷ es) e h = elim (Bool-cases (q f)) [
  | inl t ↦ elim (rw t at h) [ inl same ↦ inl same | inr rest ↦ inr (select-IsIn q es e rest) ]
  | inr n ↦ inr (select-IsIn q es e (rw n at h))
]

-- the entries whose hash has not been visited
abbrev unvisited : List String → List LogEntry → ℕ
unvisited visited es = length (select (λ e. not (has_visited visited e.hash)) es)

unvisited-le :
    (visited : List String) (h : String) (es : List LogEntry)
    → unvisited (h ∷ visited) es ≤ unvisited visited es
unvisited-le visited h [] = omega arith
unvisited-le visited h (e ∷ es) = let rest = unvisited-le visited h es in ground arith

unvisited-lt :
    (visited : List String) (es : List LogEntry) (e : LogEntry)
    → IsIn e es
    → has_visited visited e.hash ≡ false
    → unvisited (e.hash ∷ visited) es < unvisited visited es
unvisited-lt visited [] e h new = absurd h
unvisited-lt visited (f ∷ es) e (inl same) new =
    let rest = unvisited-le visited e.hash es in
    let own : str_eq e.hash f.hash ≡ true =
      ap (λ x. str_eq e.hash x.hash) (sym same) ∙ eq_refl e.hash in
    let fresh : has_visited visited f.hash ≡ false =
      ap (λ x. has_visited visited x.hash) (sym same) ∙ new in
    ground arith
unvisited-lt visited (f ∷ es) e (inr there) new =
    let rest = unvisited-lt visited es e there new in ground arith

unvisited-length : (es : List LogEntry) → unvisited [] es ≤ length es
unvisited-length [] = omega arith
unvisited-length (e ∷ es) = let rest = unvisited-length es in omega (arith, rest)

module _ (sha512 : List ℕ → String) where
  pub walk_total :
      (es : List LogEntry) (fuel : ℕ) (visited : List String) (e : LogEntry)
      → IsIn e es
      → unvisited visited es < fuel
      → (w : Walk) × (walk sha512 (by_hash es) fuel visited e ≡ some w)
  unfolding walk
  walk_total es zero visited e h enough = absurd (omega arith)
  walk_total es (suc fuel) visited e h enough = elim (Bool-cases (has_visited visited e.hash)) [
    | inl again ↦
        (record { errors = circular e.content.id ∷ []; chain = []; stopped = true }, ground arith)
    | inr new ↦ elim (Bool-cases (str_eq e.content.previous_log_hash "")) [
      | inl first ↦ (one_step e (own_errors sha512 e), ground arith)
      | inr more ↦ elim (Option-cases (by_hash es e.content.previous_log_hash)) [
        | inl gone ↦ (
          one_step e (
              own_errors sha512 e
              ++ missing_predecessor e.content.id e.content.previous_log_hash ∷ []),
          ground arith,
        )
        | inr (p, found) ↦
            let fewer = unvisited-lt visited es e h new in
            let (v, rest) =
              walk_total es fuel (e.hash ∷ visited) p
                (by_hash-IsIn es e.content.previous_log_hash p found) (omega arith) in
            (
              record v { errors = own_errors sha512 e ++ v.errors; chain = e ∷ v.chain },
              ground arith,
            )
      ]
    ]
  ]

  -- `verifyLogChain` ends on every list of entries, circles included: one unit of fuel per entry
  -- and one more are enough.
  pub verify_log_chain_total :
      (es : List LogEntry) → (errors : List LogError) × (verify_log_chain sha512 es ≡ some errors)
  unfolding verify_log_chain verify_heads
  verify_log_chain_total [] = ([], refl)
  verify_log_chain_total (e ∷ es) =
      ends (heads (e ∷ es))
        (λ h i. select-IsIn (λ x. not (is_previous (e ∷ es) x.hash)) (e ∷ es) h i)
    where
      ends :
          (hs : List LogEntry)
          → ((h : LogEntry) → IsIn h hs → IsIn h (e ∷ es))
          → (errors : List LogError) × (verify_heads sha512
                (suc (length (e ∷ es)))
                (by_hash (e ∷ es))
                hs
              ≡ some errors)
      ends [] from = (_, refl)
      ends (h ∷ []) from =
          let enough = unvisited-length (e ∷ es) in
          let (w, k) =
            walk_total (e ∷ es) (suc (length (e ∷ es))) [] h (from h (inl refl))
              (omega (arith, enough)) in
          (_, ap all_errors k)
      ends (h ∷ k ∷ hs) from = (_, refl)

  no_errors : (w : Walk) → all_errors (some w) ≡ some [] → w.errors ≡ []
  no_errors w h = elim (Bool-cases w.stopped) [
    | inl t ↦ let same : some w.errors ≡ some [] = ground arith in some-injective w.errors [] same
    | inr n ↦
        let same : some (w.errors ++ link_errors w.chain) ≡ some [] = ground arith in
        (append_nil w.errors (link_errors w.chain)
          (some-injective (w.errors ++ link_errors w.chain) [] same)).0
  ]

  verify_heads-IsIntact :
      (fuel : ℕ) (es hs : List LogEntry)
      → verify_heads sha512 fuel (by_hash es) hs ≡ some []
      → (h : LogEntry) × (hs ≡ h ∷ []) × IsIntact sha512 es h
  unfolding verify_heads
  verify_heads-IsIntact fuel es [] valid = ground arith
  verify_heads-IsIntact fuel es (h ∷ k ∷ hs) valid = ground arith
  verify_heads-IsIntact fuel es (h ∷ []) valid =
      elim (Option-cases (walk sha512 (by_hash es) fuel [] h)) [
        | inl out ↦ ground arith
        | inr (w, k) ↦ (
          h,
          refl,
          walk-IsIntact sha512 es fuel [] h w k (no_errors w (ap all_errors (sym k) ∙ valid)),
        )
      ]

  -- If `verifyLogChain` finds no error in a log with entries, then the log has one head, and each
  -- entry from it back to one without a predecessor has the hash of its own content and names the
  -- hash of the next.
  pub verify_log_chain-IsIntact :
      (e : LogEntry) (es : List LogEntry)
      → verify_log_chain sha512 (e ∷ es) ≡ some []
      → (h : LogEntry) × (heads (e ∷ es) ≡ h ∷ []) × IsIntact sha512 (e ∷ es) h
  unfolding verify_log_chain
  verify_log_chain-IsIntact e es valid =
      verify_heads-IsIntact (suc (length (e ∷ es))) (e ∷ es) (heads (e ∷ es)) valid
