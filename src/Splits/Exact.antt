-- ===== src/Splits/Exact.antt =====
-- `calculateSplits`: every mode shares out the total in whole cents.
use coldfi.Prelude.{
  ℕ, ◌≡◌, ◌≢◌, refl, Option, none, some, List, [], ◌∷◌, arith, ℤ, pos, ◌≤ℤ◌, ◌<ℤ◌, int_laws,
  parts_of_eq, ◌⊎◌, inl, inr, All,
}
use coldfi.Money.{IsWhole}
use coldfi.Splits.Types.{
  CalculateSplitsOptions, SplitMode, ratio, fixed, other_mode, ItemizedItem, SplitResult,
  sum_amounts,
}
use coldfi.Splits.Ratios.{Shares}
use coldfi.Splits.Rows.{IsRow, sum_others, sum_others-le}
use coldfi.Splits.Shared.{Covers, IsShared, calculate_ratio_splits-IsShared}
use coldfi.Splits.Modes.{calculate_fixed_splits-IsShared, calculate_itemized_splits-Covers}
use coldfi.Splits.Engine.{calculate_splits, by_mode, split_items}

decided :
    (total : ℤ) (rs : List SplitResult)
    → All IsRow rs
    → total ≤ℤ sum_amounts rs
    → (sum_amounts rs ≡ total) ⊎ (sum_amounts rs ≡ sum_others rs)
    → (sum_others rs ≤ℤ total → sum_amounts rs ≡ total)
      × (total <ℤ sum_others rs → sum_amounts rs ≡ sum_others rs)
decided total rs rows le (inl e) =
    let part = sum_others-le rs rows in
    let parts = parts_of_eq e in (λ h. e, λ h. absurd (omega (arith, part, parts)))
decided total rs rows le (inr e) =
    let parts = parts_of_eq e in (λ h. omega (int_laws, parts), λ h. e)

-- with members and a positive total the result is that of the mode
runs :
    (o : CalculateSplitsOptions) (m : ℕ) (ms : List ℕ)
    → o.member_ids ≡ m ∷ ms
    → pos 0 <ℤ o.total_amount
    → calculate_splits o ≡ by_mode o.split_mode o
unfolding calculate_splits
runs o m ms e up = rw e (ground arith)

module _ (total : ℤ) (t : IsWhole total) (up : pos 0 <ℤ total) (m : ℕ) (ms : List ℕ) where
  split_items-Covers :
      (ratios : Option Shares) (items : Option (List ItemizedItem))
      → Covers total (split_items total (m ∷ ms) ratios items).splits
  split_items-Covers ratios none = (calculate_ratio_splits-IsShared total t m ms ratios).0
  split_items-Covers ratios (some []) = (calculate_ratio_splits-IsShared total t m ms ratios).0
  split_items-Covers ratios (some (i ∷ is)) =
      calculate_itemized_splits-Covers total t up m ms (i ∷ is)

module _ (o : CalculateSplitsOptions) {m : ℕ} {ms : List ℕ} where
  by_mode-Covers :
      (mode : SplitMode)
      → IsWhole o.total_amount
      → pos 0 <ℤ o.total_amount
      → o.member_ids ≡ m ∷ ms
      → Covers o.total_amount (by_mode mode o).splits
  by_mode-Covers ratio t up e =
      rw e (calculate_ratio_splits-IsShared o.total_amount t m ms o.ratios).0
  by_mode-Covers fixed t up e =
      rw e (calculate_fixed_splits-IsShared o.total_amount t up m ms o.fixed_amounts).0
  by_mode-Covers other_mode t up e =
      rw e (split_items-Covers o.total_amount t up m ms o.ratios o.itemized_items)

  -- If there is a member and the total is positive and in whole cents, then in every mode each
  -- split is a whole number of cents, none is negative, and together they make at least the total.
  pub calculate_splits-Covers :
      IsWhole o.total_amount
      → pos 0 <ℤ o.total_amount
      → o.member_ids ≡ m ∷ ms
      → All IsRow (calculate_splits o).splits
        × (o.total_amount ≤ℤ sum_amounts (calculate_splits o).splits)
  calculate_splits-Covers t up e = rw (runs o m ms e up) (by_mode-Covers o.split_mode t up e)

  by_mode-IsShared :
      (mode : SplitMode)
      → mode ≢ other_mode
      → IsWhole o.total_amount
      → pos 0 <ℤ o.total_amount
      → o.member_ids ≡ m ∷ ms
      → IsShared o.total_amount (by_mode mode o).splits
  by_mode-IsShared ratio n t up e =
      rw e (calculate_ratio_splits-IsShared o.total_amount t m ms o.ratios)
  by_mode-IsShared fixed n t up e =
      rw e (calculate_fixed_splits-IsShared o.total_amount t up m ms o.fixed_amounts)
  by_mode-IsShared other_mode n t up e = absurd (n refl)

  -- If there is a member, the total is positive and in whole cents and the mode is by ratio or by
  -- fixed amounts, then the splits make the total exactly whenever all but the last make at most
  -- the total; and otherwise the last is 0, so that together they make too much.
  pub calculate_splits-sum :
      o.split_mode ≢ other_mode
      → IsWhole o.total_amount
      → pos 0 <ℤ o.total_amount
      → o.member_ids ≡ m ∷ ms
      → (sum_others (calculate_splits o).splits ≤ℤ o.total_amount
          → sum_amounts (calculate_splits o).splits ≡ o.total_amount)
        × (o.total_amount <ℤ sum_others (calculate_splits o).splits
            → sum_amounts (calculate_splits o).splits ≡ sum_others (calculate_splits o).splits)
  calculate_splits-sum n t up e =
      let rs = (by_mode o.split_mode o).splits in
      let ((rows, le), either) = by_mode-IsShared o.split_mode n t up e in
      rw (runs o m ms e up) (decided o.total_amount rs rows le either)
