-- ===== src/Splits/Tests.antt =====
-- Splits of concrete expenses.
use coldfi.Prelude.{
  ℕ, ◌≡◌, ◌≢◌, refl, none, some, List, [], ◌∷◌, map, All, arith, ℤ, pos, negsuc, ◌≤ℤ◌, ◌<ℤ◌, ◌+ℤ◌,
  ◌-ℤ◌,
}
use coldfi.Splits.Fraction.{nearest_cent}
use coldfi.Splits.Types.{
  CalculateSplitsOptions, SplitResult, ratio, fixed, other_mode, exact, sum_amounts, correct,
}
use coldfi.Money.{round_cents}
use coldfi.Splits.Ratios.{equal_ratios_for, build_equal_ratios, calculate_ratio_splits}
use coldfi.Splits.Fixed.{calculate_fixed_splits}
use coldfi.Splits.Items.{calculate_itemized_splits}
use coldfi.Splits.Engine.{calculate_splits}
use coldfi.Splits.Rows.{IsRow, sum_others}
use coldfi.Splits.Exact.{calculate_splits-Covers, calculate_splits-sum}
use coldfi.Splits.Equal.{calculate_splits_equal}

abbrev amounts : List SplitResult → List ℤ
amounts = map (λ r. r.amount)

abbrev options : ℤ → List ℕ → CalculateSplitsOptions
options total ids = record {
  total_amount = total;
  split_mode = ratio;
  member_ids = ids;
  ratios = none;
  fixed_amounts = none;
  itemized_items = none;
}

-- 100.00 among three
abbrev dinner : CalculateSplitsOptions
dinner = options (pos 10_000_000) (1 ∷ 2 ∷ 3 ∷ [])

-- 0.05 by amounts, one of them negative
abbrev by_amounts : CalculateSplitsOptions
by_amounts = record (options (pos 5000) (1 ∷ 2 ∷ 3 ∷ [])) {
  split_mode = fixed;
  fixed_amounts = some ((1, pos 3000) ∷ (2, negsuc 10) ∷ (3, pos 4000) ∷ []);
}

-- a shared item, and one by exact amounts
abbrev by_items : CalculateSplitsOptions
by_items = record (options (pos 5000) (1 ∷ 2 ∷ 3 ∷ [])) {
  split_mode = other_mode;
  itemized_items = some (
      record {
        amount = pos 3000;
        assigned_to = 1 ∷ 2 ∷ [];
        split_mode = none;
        split_amounts = none;
      }
      ∷ record {
        amount = pos 2000;
        assigned_to = 1 ∷ 3 ∷ [];
        split_mode = some exact;
        split_amounts = some ((1, pos 500) ∷ (3, pos 1500) ∷ []);
      }
      ∷ []);
}

dinner-amounts :
    amounts (calculate_splits dinner).splits ≡ pos 3_333_000 ∷ pos 3_333_000 ∷ pos 3_334_000 ∷ []
unfolding calculate_splits nearest_cent calculate_ratio_splits correct ◌-ℤ◌ build_equal_ratios
    equal_ratios_for ◌+ℤ◌ round_cents
dinner-amounts = refl

-- 0.02 among four: 0.03 are shared out
few_cents :
    amounts (calculate_splits (options (pos 2000) (1 ∷ 2 ∷ 3 ∷ 4 ∷ []))).splits
    ≡ pos 1000 ∷ pos 1000 ∷ pos 1000 ∷ pos 0 ∷ []
unfolding calculate_splits nearest_cent calculate_ratio_splits correct ◌-ℤ◌ build_equal_ratios
    equal_ratios_for ◌+ℤ◌ round_cents
few_cents = refl

by_amounts-amounts : amounts (calculate_splits by_amounts).splits ≡ pos 2000 ∷ pos 0 ∷ pos 3000 ∷ []
unfolding calculate_splits calculate_fixed_splits ◌+ℤ◌ correct ◌-ℤ◌ nearest_cent round_cents
by_amounts-amounts = refl

by_items-amounts : amounts (calculate_splits by_items).splits ≡ pos 2000 ∷ pos 2000 ∷ pos 1000 ∷ []
unfolding calculate_splits calculate_itemized_splits ◌+ℤ◌ correct ◌-ℤ◌ nearest_cent round_cents
by_items-amounts = refl

calculate_splits-Covers_example :
    All IsRow (calculate_splits by_items).splits
    × (pos 5000 ≤ℤ sum_amounts (calculate_splits by_items).splits)
calculate_splits-Covers_example = calculate_splits-Covers by_items (refl, refl) (omega arith) refl

by_amounts-ne : by_amounts.split_mode ≢ other_mode
by_amounts-ne h = cc

calculate_splits-sum_example :
    (sum_others (calculate_splits by_amounts).splits ≤ℤ pos 5000
      → sum_amounts (calculate_splits by_amounts).splits ≡ pos 5000)
    × (pos 5000 <ℤ sum_others (calculate_splits by_amounts).splits
        → sum_amounts (calculate_splits by_amounts).splits
          ≡ sum_others (calculate_splits by_amounts).splits)
calculate_splits-sum_example =
    calculate_splits-sum by_amounts by_amounts-ne (refl, refl) (omega arith) refl

calculate_splits_equal_example : sum_amounts (calculate_splits dinner).splits ≡ pos 10_000_000
calculate_splits_equal_example =
    calculate_splits_equal dinner 10_000_000 1 (2 ∷ 3 ∷ []) refl refl refl refl (omega arith) refl
      (omega arith)
