-- ===== src/Splits/Modes.antt =====
-- The modes of fixed amounts and of items.
use mathlib.Core.Path.{subst}
use coldfi.Prelude.{
  ℕ, ◌*◌, ◌≡◌, refl, sym, ◌∙◌, Option, none, some, List, ◌∷◌, ltb, arith, ℤ, pos, negsuc, ◌-ℤ◌,
  ◌≤ℤ◌, ◌<ℤ◌, leb_ℤ, neg_part, Bool-cases, ◌==◌, inl, inr,
}
use coldfi.Money.{IsWhole}
use coldfi.Splits.Fraction.{abs_ℤ, ◌*ℤ◌, whole, times, nearest_cent}
use coldfi.Splits.Types.{
  ItemizedItem, SplitResult, correct, sum_amounts, positive, or_value, value_of,
}
use coldfi.Splits.Fixed.{
  calculate_fixed_splits, specified_total, safe_fixed, scale_factor, fixed_loop, amounts_loop,
}
use coldfi.Splits.Items.{
  amount_of, item_amounts, calculate_itemized_splits, items_loop, items_total,
}
use coldfi.Splits.Shared.{Covers, IsShared, zero_add, calculate_ratio_splits-IsShared}
use coldfi.Splits.Rows.{correct_same}
use coldfi.Splits.Covered.{IsSplit, amounts_loop-allocated, amounts_loop-le, amounts_loop-IsSplit}

-- a product of two that are not negative
times_positive : (a b : ℤ) → neg_part a ≡ 0 → neg_part b ≡ 0 → neg_part (a *ℤ b) ≡ 0
times_positive (pos n) (pos k) h g = ground arith
times_positive (pos n) (negsuc k) h g = absurd (omega arith)
times_positive (negsuc n) b h g = absurd (omega arith)

nearest_cent-positive :
    (n : ℤ) (d : ℕ) → neg_part n ≡ 0 → neg_part (nearest_cent (record { num = n; den = d })) ≡ 0
unfolding nearest_cent
nearest_cent-positive (pos n) d h = ground arith
nearest_cent-positive (negsuc n) d h = absurd (omega arith)

safe_fixed-positive : (fixed : List (ℕ × ℤ)) (id : ℕ) → neg_part (safe_fixed fixed id) ≡ 0
safe_fixed-positive fixed id = kept (or_value (value_of id fixed) (pos 0))
  where
    kept : (a : ℤ) → neg_part (positive a) ≡ 0
    kept (pos n) = ground arith
    kept (negsuc n) = ground arith

scale_factor-positive :
    (specified total : ℤ)
    → pos 0 <ℤ specified
    → pos 0 <ℤ total
    → neg_part (scale_factor specified total).num ≡ 0
scale_factor-positive (pos s) (pos n) h k = elim (Bool-cases (ltb (abs_ℤ (pos s -ℤ pos n)) 1000)) [
  | inl t ↦ rw t refl
  | inr f ↦ rw f (times_positive (pos n) (pos 1) refl refl)
]
scale_factor-positive (pos s) (negsuc n) h k = absurd (omega arith)
scale_factor-positive (negsuc s) total h k = absurd (omega arith)

ended :
    (total allocated : ℤ) (rs : List SplitResult)
    → allocated ≡ total
    → IsSplit total (pos 0) rs
    → IsShared total (correct total allocated rs)
ended total allocated rs same (rows, le, either) =
    let zero = zero_add (sum_amounts rs) in
    rw (correct_same total allocated rs same) (
      (rows, subst (λ x. total ≤ℤ x) zero le),
      elim either [ inl e ↦ inl (sym zero ∙ e) | inr e ↦ inr e ],
    )

module _ (total : ℤ) (t : IsWhole total) (up : pos 0 <ℤ total) (m : ℕ) (ms : List ℕ) where
  pub calculate_fixed_splits-IsShared :
      (fixed : Option (List (ℕ × ℤ)))
      → IsShared total (calculate_fixed_splits total (m ∷ ms) fixed).splits
  unfolding calculate_fixed_splits fixed_loop
  calculate_fixed_splits-IsShared none = calculate_ratio_splits-IsShared total t m ms none
  calculate_fixed_splits-IsShared (some fixed) =
      let specified = specified_total fixed (m ∷ ms) in
      let scale = scale_factor specified total in
      let share = λ (id : ℕ). times (whole (safe_fixed fixed id)) scale in
      let rs = (amounts_loop share total (pos 0) (m ∷ ms)).results in
      elim (Bool-cases (leb_ℤ specified (pos 0))) [
        | inl f ↦ rw f (calculate_ratio_splits-IsShared total t m ms none)
        | inr s ↦
            let some_ : pos 0 <ℤ specified = ground arith in
            rw s (
              ended total _ rs (amounts_loop-allocated share total t (pos 0) m ms (omega arith)) (
                amounts_loop-IsSplit share total t (pos 0) m ms (omega arith) (λ id.
                  nearest_cent-positive (safe_fixed fixed id *ℤ scale.num) (1 * scale.den) (
                    times_positive (safe_fixed fixed id) scale.num (safe_fixed-positive fixed id)
                      (scale_factor-positive specified total some_ up)))))
      ]

  pub calculate_itemized_splits-Covers :
      (items : List ItemizedItem)
      → Covers total (calculate_itemized_splits total (m ∷ ms) items).splits
  unfolding calculate_itemized_splits items_loop
  calculate_itemized_splits-Covers items =
      let share = amount_of (item_amounts total (m ∷ ms) items) in
      let l = amounts_loop share total (pos 0) (m ∷ ms) in
      elim (Bool-cases (abs_ℤ (items_total items) == 0)) [
        | inl z ↦ rw z (calculate_ratio_splits-IsShared total t m ms none).0
        | inr n ↦
            let same = amounts_loop-allocated share total t (pos 0) m ms (omega arith) in
            let (rows, le) = amounts_loop-le share total t (pos 0) m ms (omega arith) in
            rw (n, correct_same total l.allocated l.results same)
              (rows, subst (λ x. total ≤ℤ x) (zero_add (sum_amounts l.results)) le)
      ]
