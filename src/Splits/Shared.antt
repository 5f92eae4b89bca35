-- ===== src/Splits/Shared.antt =====
-- What a split promises, and that `calculateRatioSplits` keeps it.
use mathlib.Core.Path.{subst}
use coldfi.Prelude.{
  ℕ, ◌≡◌, sym, ◌∙◌, Option, List, [], ◌∷◌, All, arith, ℤ, pos, ◌+ℤ◌, ◌≤ℤ◌, int_laws, ◌⊎◌, inl, inr,
}
use coldfi.Money.{IsWhole}
use coldfi.Splits.Types.{SplitResult, correct, sum_amounts}
use coldfi.Splits.Ratios.{Shares, build_equal_ratios, ratio_loop, calculate_ratio_splits}
use coldfi.Splits.Somebody.{NonEmpty, build_equal_ratios-NonEmpty}
use coldfi.Splits.Rows.{IsRow, sum_others, sum_amounts-IsWhole, correct_same, correct_over}
use coldfi.Splits.Covered.{IsSplit, ratio_loop-IsSplit, ratio_loop-allocated}

-- What a result promises: whole cents, none below 0, at least the total in all.
abbrev pub Covers : ℤ → List SplitResult → Type 0
Covers total rs = All IsRow rs × (total ≤ℤ sum_amounts rs)

-- and the total exactly, unless all but the last make more by themselves
abbrev pub IsShared : ℤ → List SplitResult → Type 0
IsShared total rs = Covers total rs × ((sum_amounts rs ≡ total) ⊎ (sum_amounts rs ≡ sum_others rs))

pub zero_add : (a : ℤ) → pos 0 +ℤ a ≡ a
zero_add a = omega int_laws

correct-IsShared :
    (total allocated : ℤ) (rs : List SplitResult)
    → IsWhole total
    → allocated ≡ pos 0 +ℤ sum_amounts rs
    → IsSplit total (pos 0) rs
    → IsShared total (correct total allocated rs)
correct-IsShared total allocated rs t same (rows, le, inl e) =
    rw (correct_same total allocated rs (same ∙ e)) (
      (rows, subst (λ x. total ≤ℤ x) (zero_add (sum_amounts rs)) le),
      inl (sym (zero_add (sum_amounts rs)) ∙ e),
    )
correct-IsShared total allocated rs t same (rows, le, inr e) =
    let sum = same ∙ zero_add (sum_amounts rs) in
    let w = subst (λ x. IsWhole x) (sym sum) (sum_amounts-IsWhole rs rows) in
    let over = subst (λ x. total ≤ℤ x) (sym same) le in
    let (r, l, o) = correct_over total allocated rs t w over rows sum e in ((r, l), inr o)

module _ (total : ℤ) (t : IsWhole total) (m : ℕ) (ms : List ℕ) where
  pub calculate_ratio_splits-IsShared :
      (ratios : Option Shares)
      → IsShared total (calculate_ratio_splits total (m ∷ ms) ratios).splits
  unfolding calculate_ratio_splits
  calculate_ratio_splits-IsShared ratios =
      shared (build_equal_ratios (m ∷ ms) ratios) (build_equal_ratios-NonEmpty m ms ratios)
    where
      shared :
          (es : Shares)
          → NonEmpty es
          → IsShared total (
              correct total
                (ratio_loop total (pos 0) es).allocated
                (ratio_loop total (pos 0) es).results)
      shared [] h = absurd h
      shared ((id, raw) ∷ es) h =
          let l = ratio_loop total (pos 0) ((id, raw) ∷ es) in
          correct-IsShared total l.allocated l.results t
            (ratio_loop-allocated total (pos 0) ((id, raw) ∷ es))
            (ratio_loop-IsSplit total (pos 0) id raw es t (omega arith))
