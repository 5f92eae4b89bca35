-- ===== src/Splits/Items.antt =====
-- `calculateItemizedSplits` of packages/shared/src/engine/splitCalculator.ts.
use coldfi.Prelude.{
  ℕ, ◌==◌, Option, none, some, List, [], ◌∷◌, select, length, ℤ, pos, ◌+ℤ◌, leb_ℤ, if◌then◌else◌,
}
use coldfi.Clock.{includes}
use coldfi.Splits.Fraction.{Fraction, abs_ℤ, whole, plus, times, over}
use coldfi.Splits.Types.{
  items_scaled, CalculateSplitsResult, ItemMode, equal, exact, percentage, ItemizedItem, Loop,
  value_of, put_value, or_value, positive, finish,
}
use coldfi.Splits.Ratios.{Shares, equal_from, calculate_ratio_splits}
use coldfi.Splits.Fixed.{scale_factor, amounts_loop, scaled_warning}

abbrev pub items_total : List ItemizedItem → ℤ
items_total [] = pos 0
items_total (i ∷ is) = i.amount +ℤ items_total is

-- `amounts[id] ?? 0`
abbrev pub amount_of : Shares → ℕ → Fraction
amount_of amounts id = or_value (value_of id amounts) (whole (pos 0))

-- `amounts[id] = (amounts[id] ?? 0) + share`
abbrev pub add_share : ℕ → Fraction → Shares → Shares
add_share id share amounts = put_value id (plus (amount_of amounts id) share) amounts

abbrev pub add_each : Fraction → List ℕ → Shares → Shares
add_each share [] amounts = amounts
add_each share (id ∷ ids) amounts = add_each share ids (add_share id share amounts)

-- `distributeEqual`; with no targets nothing is added
abbrev pub distribute_equal : Fraction → List ℕ → Shares → Shares
distribute_equal scaled targets = add_each (over scaled (whole (pos (length targets)))) targets

abbrev pub valid_or_all : List ℕ → List ℕ → List ℕ
valid_or_all [] member_ids = member_ids
valid_or_all (v ∷ vs) member_ids = v ∷ vs

-- `splitAmounts[id] ?? 0`
abbrev pub specified_of : List (ℕ × ℤ) → ℕ → ℤ
specified_of given id = or_value (value_of id given) (pos 0)

abbrev pub specified_sum : List (ℕ × ℤ) → List ℕ → ℤ
specified_sum given [] = pos 0
specified_sum given (id ∷ ids) = specified_of given id +ℤ specified_sum given ids

-- the loops over `validAssignees` of the modes 'exact' and 'percentage'
abbrev pub add_exact : Fraction → List (ℕ × ℤ) → List ℕ → Shares → Shares
add_exact item_scale given [] amounts = amounts
add_exact item_scale given (id ∷ ids) amounts =
    let raw = positive (specified_of given id) in
    add_exact item_scale given ids (add_share id (times (whole raw) item_scale) amounts)

abbrev pub add_percentages : Fraction → ℤ → List (ℕ × ℤ) → List ℕ → Shares → Shares
add_percentages scaled total_pct given [] amounts = amounts
add_percentages scaled total_pct given (id ∷ ids) amounts =
    let pct = positive (specified_of given id) in
    let share = over (times scaled (whole pct)) (whole total_pct) in
    add_percentages scaled total_pct given ids (add_share id share amounts)

-- the branches of an item without amounts of its own
abbrev pub add_plain : Fraction → List ℕ → List ℕ → Shares → Shares
add_plain scaled member_ids [] = distribute_equal scaled member_ids
add_plain scaled member_ids (v ∷ []) = add_share v scaled
add_plain scaled member_ids (v ∷ w ∷ vs) = distribute_equal scaled (v ∷ w ∷ vs)

abbrev pub add_given : ItemMode → Fraction → List ℕ → List (ℕ × ℤ) → List ℕ → Shares → Shares
add_given equal scaled member_ids given valid amounts = add_plain scaled member_ids valid amounts
add_given exact scaled member_ids given valid amounts =
    let specified = specified_sum given valid in
    if leb_ℤ specified (pos 0)
    then distribute_equal scaled (valid_or_all valid member_ids) amounts
    else add_exact (over scaled (whole specified)) given valid amounts
add_given percentage scaled member_ids given valid amounts =
    let total_pct = specified_sum given valid in
    if leb_ℤ total_pct (pos 0)
    then distribute_equal scaled (valid_or_all valid member_ids) amounts
    else add_percentages scaled total_pct given valid amounts

abbrev pub add_by_mode :
    Option ItemMode → Option (List (ℕ × ℤ)) → Fraction → List ℕ → List ℕ → Shares → Shares
add_by_mode none given scaled member_ids valid amounts = add_plain scaled member_ids valid amounts
add_by_mode (some mode) none scaled member_ids valid amounts =
    add_plain scaled member_ids valid amounts
add_by_mode (some mode) (some given) scaled member_ids valid amounts =
    add_given mode scaled member_ids given valid amounts

-- one round of the loop over the items
unfoldable pub add_item : Fraction → List ℕ → ItemizedItem → Shares → Shares
add_item scale member_ids item amounts =
    let valid = select (λ id. includes member_ids id) item.assigned_to in
    add_by_mode item.split_mode item.split_amounts (times (whole item.amount) scale) member_ids
      valid amounts

unfoldable pub add_items : Fraction → List ℕ → List ItemizedItem → Shares → Shares
unfolding add_item
add_items scale member_ids [] amounts = amounts
add_items scale member_ids (item ∷ items) amounts =
    add_items scale member_ids items (add_item scale member_ids item amounts)

-- `amounts` after the loop over the items
unfoldable pub item_amounts : ℤ → List ℕ → List ItemizedItem → Shares
unfolding add_items
item_amounts total member_ids items =
    add_items (scale_factor (items_total items) total) member_ids items
      (equal_from (whole (pos 0)) member_ids [])

unfoldable pub items_loop : ℤ → List ℕ → List ItemizedItem → Loop
unfolding amounts_loop item_amounts
items_loop total member_ids items =
    amounts_loop (amount_of (item_amounts total member_ids items)) total (pos 0) member_ids

unfoldable pub calculate_itemized_splits : ℤ → List ℕ → List ItemizedItem → CalculateSplitsResult
unfolding items_loop
calculate_itemized_splits total member_ids items =
    let sum = items_total items in
    let scale = scale_factor sum total in
    if abs_ℤ sum == 0
    then calculate_ratio_splits total member_ids none
    else finish total (scaled_warning (items_scaled sum scale) scale)
        (items_loop total member_ids items)
