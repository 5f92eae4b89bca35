-- ===== src/Splits/Fixed.antt =====
-- `calculateFixedSplits` of packages/shared/src/engine/splitCalculator.ts.
use coldfi.Prelude.{
  ℕ, ltb, Option, none, some, List, [], ◌∷◌, ◌++◌, ℤ, pos, ◌+ℤ◌, ◌-ℤ◌, ltb_ℤ, leb_ℤ, if◌then◌else◌,
}
use coldfi.Splits.Fraction.{Fraction, abs_ℤ, whole, times, over, is_off_one}
use coldfi.Splits.Types.{
  SplitWarning, fixed_negative, fixed_scaled, SplitResult, CalculateSplitsResult, Loop, value_of,
  or_value, positive, row_amount, finish,
}
use coldfi.Splits.Ratios.{push_row, calculate_ratio_splits}

-- `safeFixed[id]`
abbrev pub safe_fixed : List (ℕ × ℤ) → ℕ → ℤ
safe_fixed fixed id = positive (or_value (value_of id fixed) (pos 0))

abbrev pub clamp_warnings : List (ℕ × ℤ) → List ℕ → List SplitWarning
clamp_warnings fixed [] = []
clamp_warnings fixed (id ∷ ids) =
    let raw = or_value (value_of id fixed) (pos 0) in
    let rest = clamp_warnings fixed ids in
    if ltb_ℤ raw (pos 0) then fixed_negative id raw ∷ rest else rest

abbrev pub specified_total : List (ℕ × ℤ) → List ℕ → ℤ
specified_total fixed [] = pos 0
specified_total fixed (id ∷ ids) = safe_fixed fixed id +ℤ specified_total fixed ids

-- 1 where the two differ by less than 0.01
abbrev pub scale_factor : ℤ → ℤ → Fraction
scale_factor specified total =
    if ltb (abs_ℤ (specified -ℤ total)) 1000
    then whole (pos 1)
    else over (whole total) (whole specified)

abbrev pub amount_row : ℤ → ℕ → ℤ → SplitResult
amount_row total id amount = record {
  member_id = id;
  amount = positive amount;
  ratio = over (whole amount) (whole total);
}

-- A loop that counts each row as it is, and shows none below 0.
unfoldable pub amounts_loop : (ℕ → Fraction) → ℤ → ℤ → List ℕ → Loop
amounts_loop share total allocated [] = record {
  allocated = allocated;
  results = [];
  warnings = [];
}
amounts_loop share total allocated (id ∷ ids) =
    let amount = row_amount total allocated ids (share id) in
    push_row (amount_row total id amount) [] (amounts_loop share total (allocated +ℤ amount) ids)

unfoldable pub fixed_loop : List (ℕ × ℤ) → ℤ → List ℕ → Loop
unfolding amounts_loop
fixed_loop fixed total member_ids =
    let scale = scale_factor (specified_total fixed member_ids) total in
    amounts_loop (λ id. times (whole (safe_fixed fixed id)) scale) total (pos 0) member_ids

abbrev pub scaled_warning : SplitWarning → Fraction → List SplitWarning
scaled_warning warning scale = if is_off_one scale then warning ∷ [] else []

abbrev pub fixed_warnings : List (ℕ × ℤ) → ℤ → List ℕ → List SplitWarning
fixed_warnings fixed total member_ids =
    let specified = specified_total fixed member_ids in
    let scale = scale_factor specified total in
    clamp_warnings fixed member_ids ++ scaled_warning (fixed_scaled specified scale) scale

unfoldable pub calculate_fixed_splits : ℤ → List ℕ → Option (List (ℕ × ℤ)) → CalculateSplitsResult
unfolding fixed_loop
calculate_fixed_splits total member_ids none = calculate_ratio_splits total member_ids none
calculate_fixed_splits total member_ids (some fixed) =
    if leb_ℤ (specified_total fixed member_ids) (pos 0)
    then calculate_ratio_splits total member_ids none
    else finish total (fixed_warnings fixed total member_ids) (fixed_loop fixed total member_ids)
