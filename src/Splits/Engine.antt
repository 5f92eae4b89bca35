-- ===== src/Splits/Engine.antt =====
-- `calculateSplits` of packages/shared/src/engine/splitCalculator.ts.
use coldfi.Prelude.{ℕ, Option, none, some, List, [], ◌∷◌, ℤ, pos, ltb_ℤ, if◌then◌else◌}
use coldfi.Splits.Types.{
  negative_total, CalculateSplitsResult, SplitMode, ratio, fixed, other_mode,
  CalculateSplitsOptions, ItemizedItem,
}
use coldfi.Splits.Ratios.{Shares, calculate_ratio_splits}
use coldfi.Splits.Fixed.{calculate_fixed_splits}
use coldfi.Splits.Items.{calculate_itemized_splits}

abbrev pub nothing_to_split : ℤ → CalculateSplitsResult
nothing_to_split total = record {
  splits = [];
  warnings = if ltb_ℤ total (pos 0) then negative_total total ∷ [] else [];
}

-- the `default` of the switch
abbrev pub split_items :
    ℤ → List ℕ → Option Shares → Option (List ItemizedItem) → CalculateSplitsResult
split_items total member_ids ratios none = calculate_ratio_splits total member_ids ratios
split_items total member_ids ratios (some []) = calculate_ratio_splits total member_ids ratios
split_items total member_ids ratios (some (i ∷ is)) =
    calculate_itemized_splits total member_ids (i ∷ is)

abbrev pub by_mode : SplitMode → CalculateSplitsOptions → CalculateSplitsResult
by_mode ratio o = calculate_ratio_splits o.total_amount o.member_ids o.ratios
by_mode fixed o = calculate_fixed_splits o.total_amount o.member_ids o.fixed_amounts
by_mode other_mode o = split_items o.total_amount o.member_ids o.ratios o.itemized_items

abbrev pub unless_empty : List ℕ → ℤ → CalculateSplitsResult → CalculateSplitsResult
unless_empty [] total split = nothing_to_split total
unless_empty (m ∷ ms) total split = if ltb_ℤ (pos 0) total then split else nothing_to_split total

unfoldable pub calculate_splits : CalculateSplitsOptions → CalculateSplitsResult
calculate_splits o = unless_empty o.member_ids o.total_amount (by_mode o.split_mode o)
