-- ===== src/Splits/Equal.antt =====
-- Equal splits: when they are exact.
use native.Mathlib.Nat.{mul-le-mul_left, le_of_mul-le-mul_left, div-mul-le_self, mul_comm}
use coldfi.Prelude.{
  ℕ, suc, ◌+◌, ◌-◌, ◌*◌, ◌/◌, ◌%◌, ◌≤◌, ◌<◌, ◌==◌, ◌≡◌, refl, sym, ap, ◌∙◌, none, List, [], ◌∷◌,
  All, length, arith, ℤ, pos, ◌+ℤ◌, ◌≤ℤ◌, int_laws, parts_of_eq, Bool-cases, inl, inr,
}
use coldfi.Splits.Fraction.{Fraction, whole, times, at_least_zero, nearest_cent, ◌*ℤ◌}
use coldfi.Splits.Types.{CalculateSplitsOptions, ratio, positive, put_value, sum_amounts}
use coldfi.Splits.Ratios.{
  Shares, equal_from, one_over, equal_ratios_for, build_equal_ratios, ratio_loop,
  calculate_ratio_splits,
}
use coldfi.Splits.Rows.{sum_others, correct_same, positive_same}
use coldfi.Splits.Covered.{ratio_loop-IsSplit, ratio_loop-allocated}
use coldfi.Splits.Shared.{zero_add}
use coldfi.Splits.Somebody.{NonEmpty, equal_from-NonEmpty}
use coldfi.Splits.Engine.{calculate_splits}

abbrev IsEqual : Fraction → Shares → Type 0
IsEqual v = All (λ e. e.1 ≡ v)

put_value-IsEqual :
    (id : ℕ) (v : Fraction) (es : Shares)
    → IsEqual v es
    → IsEqual v (put_value id v es) × (length (put_value id v es) ≤ suc (length es))
put_value-IsEqual id v [] h = ((refl, tt), omega arith)
put_value-IsEqual id v ((k, w) ∷ es) (h, hs) = elim (Bool-cases (k == id)) [
  | inl t ↦ rw t ((refl, hs), omega arith)
  | inr f ↦ let rest = put_value-IsEqual id v es hs in rw f ((h, rest.0), omega (arith, rest))
]

equal_from-IsEqual :
    (v : Fraction) (ids : List ℕ) (es : Shares)
    → IsEqual v es
    → IsEqual v (equal_from v ids es) × (length (equal_from v ids es) ≤ length ids + length es)
equal_from-IsEqual v [] es h = (h, omega arith)
equal_from-IsEqual v (id ∷ ids) es h =
    let put = put_value-IsEqual id v es h in
    let rest = equal_from-IsEqual v ids (put_value id v es) put.0 in
    (rest.0, omega (arith, put, rest))

-- the share of each but the last
abbrev cents_each : ℕ → ℕ → ℕ
cents_each total n = (2 * total + 1000 * n) / (2000 * n)

pos_times : (a b : ℕ) → pos a *ℤ pos b ≡ pos (a * b)
pos_times a b = ground arith

nearest_cent-pos :
    (a d : ℕ)
    → nearest_cent (record { num = pos a; den = d }) ≡ pos ((a * 2 + 1000 * d) / (2000 * d))
unfolding nearest_cent
nearest_cent-pos a d = ground (arith, pos_times a 2)

unit : (total n : ℕ) → (total * 1 * 2 + 1000 * (1 * n)) / (2000 * (1 * n)) ≡ cents_each total n
unit total n =
    let up : total * 1 * 2 + 1000 * (1 * n) ≡ 2 * total + 1000 * n = omega arith in
    let down : 2000 * (1 * n) ≡ 2000 * n = omega arith in rw (up, down)

share_amount :
    (total n : ℕ)
    → positive (nearest_cent (times (whole (pos total)) (at_least_zero (one_over n))) *ℤ pos 1000)
      ≡ pos (1000 * cents_each total n)
share_amount total n =
    let q = (total * 1 * 2 + 1000 * (1 * n)) / (2000 * (1 * n)) in
    let same : q * 1000 ≡ 1000 * cents_each total n =
      ap (λ x. x * 1000) (unit total n) ∙ mul_comm (cents_each total n) 1000 in
    rw (pos_times total 1, nearest_cent-pos (total * 1) (1 * n), pos_times q 1000)
      (positive_same (pos (q * 1000)) refl ∙ ap pos same)

add_within : (a x : ℤ) (b c : ℕ) → a ≡ pos b → x ≤ℤ pos (c * b) → a +ℤ x ≤ℤ pos (suc c * b)
add_within a x b c e h = let parts = parts_of_eq e in omega (int_laws, parts)

ratio_loop-others :
    (total n : ℕ) (allocated : ℤ) (id : ℕ) (v : Fraction) (es : Shares)
    → v ≡ one_over n
    → IsEqual (one_over n) es
    → sum_others (ratio_loop (pos total) allocated ((id, v) ∷ es)).results
      ≤ℤ pos (length es * (1000 * cents_each total n))
unfolding ratio_loop
ratio_loop-others total n allocated id v [] e h = omega arith
ratio_loop-others total n allocated id v ((id', v') ∷ es) e (h, hs) =
    let a = positive (nearest_cent (times (whole (pos total)) (at_least_zero v)) *ℤ pos 1000) in
    let same : a ≡ pos (1000 * cents_each total n) =
      ap (λ x. positive (nearest_cent (times (whole (pos total)) (at_least_zero x)) *ℤ pos 1000)) e
      ∙ share_amount total n in
    add_within a _ (1000 * cents_each total n) (length es) same
      (ratio_loop-others total n (allocated +ℤ a) id' v' es h hs)

fits :
    (total n k q : ℕ)
    → suc k ≤ n
    → 500 * (n * k) ≤ total
    → q * (2000 * n) ≤ 2 * total + 1000 * n
    → k * (1000 * q) ≤ total
fits total n k q h g low =
    let by_k = mul-le-mul_left k low in
    let by_total = mul-le-mul_left total h in
    let scaled : n * (k * (1000 * q)) ≤ n * total = omega (arith, by_k, by_total) in
    le_of_mul-le-mul_left scaled (omega arith)

shares_fit :
    (total n k : ℕ) → suc k ≤ n → 500 * (n * k) ≤ total → k * (1000 * cents_each total n) ≤ total
shares_fit total n k h g =
    fits total n k (cents_each total n) h g (div-mul-le_self (2 * total + 1000 * n) (2000 * n))

module _ (total n : ℕ) (t : total % 1000 ≡ 0) (enough : 500 * (n * (n - 1)) ≤ total) where
  loop_exact :
      (es : Shares)
      → IsEqual (one_over n) es
      → length es ≤ n
      → 0 < length es
      → sum_amounts (ratio_loop (pos total) (pos 0) es).results ≡ pos total
  loop_exact [] h l p = absurd (omega arith)
  loop_exact ((id, v) ∷ es) (h, hs) l p =
      let others = ratio_loop-others total n (pos 0) id v es h hs in
      let less : n * length es ≤ n * (n - 1) = mul-le-mul_left n (omega arith) in
      let fit = shares_fit total n (length es) l (omega (arith, less, enough)) in
      let (rows, le, either) =
        ratio_loop-IsSplit (pos total) (pos 0) id v es (omega arith) (omega arith) in
      elim either [
        | inl e ↦
            sym (zero_add (sum_amounts (ratio_loop (pos total) (pos 0) ((id, v) ∷ es)).results)) ∙ e
        | inr e ↦ let parts = parts_of_eq e in omega (int_laws, others, fit, le, parts)
      ]

-- `equalRatiosFor` gives an equal share to at most as many as there are ids.
equal_ratios_for-IsEqual :
    (m : ℕ) (ms : List ℕ)
    → IsEqual (one_over (length (m ∷ ms))) (equal_ratios_for (m ∷ ms))
      × (length (equal_ratios_for (m ∷ ms)) ≤ length (m ∷ ms))
      × (0 < length (equal_ratios_for (m ∷ ms)))
unfolding equal_ratios_for
equal_ratios_for-IsEqual m ms =
    let share = one_over (length (m ∷ ms)) in
    let (all, few) = equal_from-IsEqual share ms ((m, share) ∷ []) (refl, tt) in
    (
      all,
      omega (arith, few),
      some_left (equal_from share ms ((m, share) ∷ []))
          (equal_from-NonEmpty share ms ((m, share) ∷ []) tt),
    )
  where
    some_left : (es : Shares) → NonEmpty es → 0 < length es
    some_left [] h = absurd h
    some_left (e ∷ es) h = omega arith

ratio_exact :
    (total m : ℕ) (ms : List ℕ)
    → total % 1000 ≡ 0
    → 500 * (length (m ∷ ms) * (length (m ∷ ms) - 1)) ≤ total
    → sum_amounts (calculate_ratio_splits (pos total) (m ∷ ms) none).splits ≡ pos total
unfolding calculate_ratio_splits build_equal_ratios
ratio_exact total m ms t enough =
    let es = equal_ratios_for (m ∷ ms) in
    let l = ratio_loop (pos total) (pos 0) es in
    let (all, few, some_) = equal_ratios_for-IsEqual m ms in
    let sum = loop_exact total (length (m ∷ ms)) t enough es all few some_ in
    let ends =
      ratio_loop-allocated (pos total) (pos 0) es ∙ zero_add (sum_amounts l.results) ∙ sum in
    ap sum_amounts (correct_same (pos total) l.allocated l.results ends) ∙ sum

-- If an expense is split by ratios and none are given, its total is positive and in whole cents,
-- and it is at least n (n - 1) / 2 cents for n member ids, then the splits make the total exactly.
pub calculate_splits_equal :
    (o : CalculateSplitsOptions) (total m : ℕ) (ms : List ℕ)
    → o.split_mode ≡ ratio
    → o.ratios ≡ none
    → o.member_ids ≡ m ∷ ms
    → o.total_amount ≡ pos total
    → 0 < total
    → total % 1000 ≡ 0
    → 500 * (length (m ∷ ms) * (length (m ∷ ms) - 1)) ≤ total
    → sum_amounts (calculate_splits o).splits ≡ pos total
unfolding calculate_splits
calculate_splits_equal o total m ms mode none_given ids amount up t enough =
    let runs : calculate_splits o ≡ calculate_ratio_splits (pos total) (m ∷ ms) none =
      rw (mode, ids, amount, none_given) (ground arith) in
    ap (λ r. sum_amounts r.splits) runs ∙ ratio_exact total m ms t enough
