-- ===== src/LogChain/Intact.antt =====
-- What a log that verifies is, and that the verification ends.
use Prim.Native.String.{String}
use text.Mathlib.Text.{◌==◌ as str_eq}
use mathlib.Core.Option.{some-injective}
use coldfi.Prelude.{
  ℕ, zero, suc, ◌≡◌, refl, sym, ap, ◌∙◌, true, some, List, [], ◌∷◌, ◌++◌, arith, Bool-cases,
  Option-cases, inl, inr,
}
use coldfi.LogChain.Entries.{LogEntry, compute_log_hash}
use coldfi.LogChain.Chain.{
  LogError, circular, missing_predecessor, Walk, one_step, by_hash, has_visited, own_errors, walk,
}

-- An entry whose hash is that of its content, and so back to an entry without a predecessor.
pub data IsIntact (sha512 : List ℕ → String) (es : List LogEntry) : LogEntry → Type 0 where
  root :
      {e : LogEntry}
      → str_eq e.hash (compute_log_hash sha512 e.content) ≡ true
      → str_eq e.content.previous_log_hash "" ≡ true
      → IsIntact sha512 es e
  link :
      {e p : LogEntry}
      → str_eq e.hash (compute_log_hash sha512 e.content) ≡ true
      → by_hash es e.content.previous_log_hash ≡ some p
      → IsIntact sha512 es p
      → IsIntact sha512 es e

pub by_hash-hash :
    (es : List LogEntry) (h : String) (e : LogEntry)
    → by_hash es h ≡ some e
    → str_eq e.hash h ≡ true
by_hash-hash [] h e k = cc
by_hash-hash (f ∷ es) h e k = elim (Option-cases (by_hash es h)) [
  | inr (g, found) ↦ let same : some g ≡ some e = ground arith in by_hash-hash es h e (found ∙ same)
  | inl nothing ↦ elim (Bool-cases (str_eq f.hash h)) [
    | inl t ↦
        let same : some f ≡ some e = ground arith in
        ap (λ x. str_eq x.hash h) (sym (some-injective f e same)) ∙ t
    | inr n ↦ ground arith
  ]
]

pub append_nil : (xs ys : List LogError) → xs ++ ys ≡ [] → (xs ≡ []) × (ys ≡ [])
append_nil [] ys h = (refl, h)
append_nil (x ∷ xs) ys h = cc

module _ (sha512 : List ℕ → String) where
  own_errors-nil :
      (e : LogEntry)
      → own_errors sha512 e ≡ []
      → str_eq e.hash (compute_log_hash sha512 e.content) ≡ true
  own_errors-nil e h = ground arith

  pub walk-IsIntact :
      (es : List LogEntry) (fuel : ℕ) (visited : List String) (e : LogEntry) (w : Walk)
      → walk sha512 (by_hash es) fuel visited e ≡ some w
      → w.errors ≡ []
      → IsIntact sha512 es e
  unfolding walk
  walk-IsIntact es zero visited e w h n = cc
  walk-IsIntact es (suc fuel) visited e w h n = elim (Bool-cases (has_visited visited e.hash)) [
    | inl again ↦
        let circle : Walk = record {
          errors = circular e.content.id ∷ [];
          chain = [];
          stopped = true;
        } in
        let runs : walk sha512 (by_hash es) (suc fuel) visited e ≡ some circle = ground arith in
        let same = ap (λ x. x.errors) (some-injective circle w (sym runs ∙ h)) ∙ n in cc
    | inr new ↦ elim (Bool-cases (str_eq e.content.previous_log_hash "")) [
      | inl first ↦
          let runs : walk sha512 (by_hash es) (suc fuel) visited e
              ≡ some (one_step e (own_errors sha512 e)) =
            ground arith in
          let same = some-injective (one_step e (own_errors sha512 e)) w (sym runs ∙ h) in
          root (own_errors-nil e (ap (λ x. x.errors) same ∙ n)) first
      | inr more ↦ elim (Option-cases (by_hash es e.content.previous_log_hash)) [
        | inl gone ↦
            let gap = missing_predecessor e.content.id e.content.previous_log_hash in
            let runs : walk sha512 (by_hash es) (suc fuel) visited e
                ≡ some (one_step e (own_errors sha512 e ++ gap ∷ [])) =
              ground arith in
            let same =
              some-injective (one_step e (own_errors sha512 e ++ gap ∷ [])) w (sym runs ∙ h) in
            let (own, others) =
              append_nil (own_errors sha512 e) (gap ∷ []) (ap (λ x. x.errors) same ∙ n) in
            cc
        | inr (p, found) ↦
            elim (Option-cases (walk sha512 (by_hash es) fuel (e.hash ∷ visited) p)) [
              | inl out ↦ ground arith
              | inr (v, rest) ↦
                  let runs : walk sha512 (by_hash es) (suc fuel) visited e
                      ≡ some (record v {
                        errors = own_errors sha512 e ++ v.errors;
                        chain = e ∷ v.chain;
                      }) =
                    ground arith in
                  let same =
                    some-injective
                      (record v { errors = own_errors sha512 e ++ v.errors; chain = e ∷ v.chain }) w
                      (sym runs ∙ h) in
                  let (own, others) =
                    append_nil (own_errors sha512 e) v.errors (ap (λ x. x.errors) same ∙ n) in
                  link (own_errors-nil e own) found
                    (walk-IsIntact es fuel (e.hash ∷ visited) p v rest others)
            ]
      ]
    ]
  ]
