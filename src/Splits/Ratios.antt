-- ===== src/Splits/Ratios.antt =====
-- `calculateRatioSplits`, `buildEqualRatios` and `equalRatiosFor` of
-- packages/shared/src/engine/splitCalculator.ts.
use coldfi.Prelude.{
  ℕ, ltb, Bool, not, Option, none, some, List, [], ◌∷◌, ◌++◌, map, select, length, is_none, ℤ, pos,
  ◌+ℤ◌, if◌then◌else◌,
}
use coldfi.Clock.{includes}
use coldfi.Splits.Fraction.{
  Fraction, whole, times, over, is_positive, is_negative, at_least_zero, is_off_one, total_of,
}
use coldfi.Splits.Types.{
  SplitWarning, ratios_normalized, negative_ratio, SplitResult, CalculateSplitsResult, Loop,
  value_of, put_value, positive, row_amount, finish,
}

abbrev pub Shares : Type 0
Shares = List (ℕ × Fraction)

-- `Object.values` and `Object.keys`
abbrev pub ratios_of : Shares → List Fraction
ratios_of = map (λ e. e.1)

abbrev pub ids_of : Shares → List ℕ
ids_of = map (λ e. e.0)

abbrev pub equal_from : Fraction → List ℕ → Shares → Shares
equal_from share [] result = result
equal_from share (id ∷ ids) result = equal_from share ids (put_value id share result)

abbrev pub one_over : ℕ → Fraction
one_over n = record { num = pos 1; den = n }

unfoldable pub equal_ratios_for : List ℕ → Shares
equal_ratios_for member_ids = equal_from (one_over (length member_ids)) member_ids []

-- `id in result`
abbrev pub is_in : ℕ → Shares → Bool
is_in id shares = not (is_none (value_of id shares))

-- the entries of members
abbrev pub filtered : List ℕ → Shares → Shares
filtered member_ids = select (λ e. includes member_ids e.0)

abbrev pub fill : Fraction → List ℕ → Shares → Shares
fill weight [] result = result
fill weight (id ∷ ids) result =
    fill weight ids (if is_in id result then result else put_value id weight result)

abbrev pub divide_by : Fraction → Shares → Shares
divide_by total = map (λ e. (e.0, over e.1 total))

abbrev pub with_average : List ℕ → Shares → Shares
with_average member_ids given =
    let average = over (total_of (ratios_of given)) (whole (pos (length given))) in
    let result = fill average member_ids given in divide_by (total_of (ratios_of result)) result

-- the branch where ratios are given
unfoldable pub ratios_from : List ℕ → Shares → Shares
ratios_from member_ids given =
    let total = total_of (ratios_of given) in
    let missing = select (λ id. not (is_in id given)) member_ids in
    if ltb 0 (length missing)
    then (if is_positive total then with_average member_ids given else equal_ratios_for member_ids)
    else if is_positive total
    then (if is_off_one total then divide_by total given else given)
    else equal_ratios_for member_ids

unfoldable pub build_equal_ratios : List ℕ → Option Shares → Shares
build_equal_ratios [] ratios = []
build_equal_ratios (m ∷ ms) none = equal_ratios_for (m ∷ ms)
build_equal_ratios (m ∷ ms) (some []) = equal_ratios_for (m ∷ ms)
build_equal_ratios (m ∷ ms) (some (e ∷ es)) = ratios_from (m ∷ ms) (filtered (m ∷ ms) (e ∷ es))

abbrev pub ratio_warnings : Option Shares → List SplitWarning
ratio_warnings none = []
ratio_warnings (some []) = []
ratio_warnings (some (e ∷ es)) =
    let total = total_of (ratios_of (e ∷ es)) in
    if is_off_one total then ratios_normalized total ∷ [] else []

abbrev pub clamp_warning : ℕ → Fraction → List SplitWarning
clamp_warning id raw = if is_negative raw then negative_ratio id ∷ [] else []

-- one row in front of the rows of the rest
abbrev pub push_row : SplitResult → List SplitWarning → Loop → Loop
push_row r warnings l = record l { results = r ∷ l.results; warnings = warnings ++ l.warnings }

abbrev pub ratio_row : ℤ → ℤ → ℕ → Fraction → List ℕ → SplitResult
ratio_row total allocated id raw rest =
    let ratio = at_least_zero raw in
    record {
      member_id = id;
      amount = positive (row_amount total allocated rest (times (whole total) ratio));
      ratio = ratio;
    }

unfoldable pub ratio_loop : ℤ → ℤ → Shares → Loop
ratio_loop total allocated [] = record { allocated = allocated; results = []; warnings = [] }
ratio_loop total allocated ((id, raw) ∷ entries) =
    let row = ratio_row total allocated id raw (ids_of entries) in
    push_row row (clamp_warning id raw) (ratio_loop total (allocated +ℤ row.amount) entries)

unfoldable pub calculate_ratio_splits : ℤ → List ℕ → Option Shares → CalculateSplitsResult
unfolding ratio_loop
calculate_ratio_splits total member_ids ratios =
    finish total (ratio_warnings ratios)
      (ratio_loop total (pos 0) (build_equal_ratios member_ids ratios))
