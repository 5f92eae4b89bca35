-- ===== src/LogChain/Forged.antt =====
-- What `verifyLogChain` does not look at.
use Prim.Native.String.{String}
use mathlib.Core.Path.{fun_ext}
use text.Mathlib.Text.{◌==◌ as str_eq}
use text.Mathlib.TextEquality.{eq_iff}
use coldfi.Prelude.{
  ℕ, zero, suc, ◌≡◌, sym, ap, ◌∙◌, true, false, not, Option, none, some, List, [], ◌∷◌, select,
  length, arith, Bool-cases, Option-cases, inl, inr,
}
use coldfi.LogChain.Entries.{LogEntry}
use coldfi.LogChain.Chain.{
  LogError, Walk, by_hash, is_previous, heads, has_visited, own_errors, walk, push_entry,
  verify_heads, verify_log_chain, all_errors,
}
use coldfi.LogChain.Total.{verify_log_chain_total}

walk-link :
    (sha512 : List ℕ → String) (l : String → Option LogEntry) (fuel : ℕ) (visited : List String)
    (e p : LogEntry)
    → has_visited visited e.hash ≡ false
    → str_eq e.content.previous_log_hash "" ≡ false
    → l e.content.previous_log_hash ≡ some p
    → walk sha512 l (suc fuel) visited e
      ≡ push_entry e (own_errors sha512 e) (walk sha512 l fuel (e.hash ∷ visited) p)
unfolding walk
walk-link sha512 l fuel visited e p new more found = ground arith

-- More fuel than enough changes nothing.
walk-suc :
    (sha512 : List ℕ → String) (l : String → Option LogEntry) (fuel : ℕ) (visited : List String)
    (e : LogEntry) (w : Walk)
    → walk sha512 l fuel visited e ≡ some w
    → walk sha512 l (suc fuel) visited e ≡ some w
unfolding walk
walk-suc sha512 l zero visited e w h = cc
walk-suc sha512 l (suc fuel) visited e w h = elim (Bool-cases (has_visited visited e.hash)) [
  | inl again ↦ ground arith
  | inr new ↦ elim (Bool-cases (str_eq e.content.previous_log_hash "")) [
    | inl first ↦ ground arith
    | inr more ↦ elim (Option-cases (l e.content.previous_log_hash)) [
      | inl gone ↦ ground arith
      | inr (p, found) ↦ elim (Option-cases (walk sha512 l fuel (e.hash ∷ visited) p)) [
        | inl out ↦ ground arith
        | inr (v, rest) ↦
            let same = walk-suc sha512 l fuel (e.hash ∷ visited) p v rest in
            walk-link sha512 l (suc fuel) visited e p new more found
            ∙ ap (push_entry e (own_errors sha512 e)) (same ∙ sym rest)
            ∙ sym (walk-link sha512 l fuel visited e p new more found)
            ∙ h
      ]
    ]
  ]
]

verify_heads-suc :
    (sha512 : List ℕ → String) (fuel : ℕ) (l : String → Option LogEntry) (hs : List LogEntry)
    (errors : List LogError)
    → verify_heads sha512 fuel l hs ≡ some errors
    → verify_heads sha512 (suc fuel) l hs ≡ some errors
unfolding verify_heads
verify_heads-suc sha512 fuel l [] errors h = h
verify_heads-suc sha512 fuel l (h' ∷ k ∷ hs) errors h = h
verify_heads-suc sha512 fuel l (e ∷ []) errors h = elim (Option-cases (walk sha512 l fuel [] e)) [
  | inl out ↦ let stuck : none ≡ some errors = sym (ap all_errors out) ∙ h in cc
  | inr (w, k) ↦ ap all_errors (walk-suc sha512 l fuel [] e w k) ∙ sym (ap all_errors k) ∙ h
]

module _ (f : LogEntry) (es : List LogEntry) (g : LogEntry)
    (twin : by_hash es f.hash ≡ some g) where
  same_lookup : by_hash (f ∷ es) ≡ by_hash es
  same_lookup = fun_ext (λ h. elim (Option-cases (by_hash es h)) [
    | inr (k, found) ↦ ground arith
    | inl nothing ↦ elim (Bool-cases (str_eq f.hash h)) [
      | inr other ↦ ground arith
      | inl hit ↦
          let clash : some g ≡ none =
            sym twin ∙ ap (by_hash es) ((eq_iff f.hash h).0 hit) ∙ nothing in
          cc
    ]
  ])

  module _ (last : str_eq f.content.previous_log_hash "" ≡ true) where
    same_previous : (h : String) → is_previous (f ∷ es) h ≡ is_previous es h
    same_previous h = ground arith

    same_select :
        (fs : List LogEntry)
        → select (λ e. not (is_previous (f ∷ es) e.hash)) fs
          ≡ select (λ e. not (is_previous es e.hash)) fs
    same_select fs =
        ap (λ q. select q fs) (fun_ext (λ (e : LogEntry). ap not (same_previous e.hash)))

    same_heads : is_previous es f.hash ≡ true → heads (f ∷ es) ≡ heads es
    same_heads has_next =
        let follows : is_previous (f ∷ es) f.hash ≡ true = same_previous f.hash ∙ has_next in
        rw follows (same_select es)

-- Let the log have an entry `g` with the hash of `f`, and one that names that hash as its previous
-- one. Then `f` put in front, with any content that names no predecessor, changes nothing of what
-- `verifyLogChain` reports: neither the hash of `f` nor its place in the chain is checked.
pub verify_log_chain-forged :
    (sha512 : List ℕ → String) (f e : LogEntry) (es : List LogEntry) {g : LogEntry}
    → by_hash (e ∷ es) f.hash ≡ some g
    → is_previous (e ∷ es) f.hash ≡ true
    → str_eq f.content.previous_log_hash "" ≡ true
    → verify_log_chain sha512 (f ∷ e ∷ es) ≡ verify_log_chain sha512 (e ∷ es)
unfolding verify_log_chain
verify_log_chain-forged sha512 f e es {g} twin has_next last =
    let n = length (e ∷ es) in
    let (errors, ends) = verify_log_chain_total sha512 (e ∷ es) in
    ap (λ l. verify_heads sha512 (suc (suc n)) l (heads (f ∷ e ∷ es)))
      (same_lookup f (e ∷ es) g twin)
    ∙ ap (verify_heads sha512 (suc (suc n)) (by_hash (e ∷ es)))
        (same_heads f (e ∷ es) g twin last has_next)
    ∙ verify_heads-suc sha512 (suc n) (by_hash (e ∷ es)) (heads (e ∷ es)) errors ends
    ∙ sym ends
