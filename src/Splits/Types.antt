-- ===== src/Splits/Types.antt =====
-- The data of packages/shared/src/engine/splitCalculator.ts, the rounding of its rows and the
-- correction by single cents that ends each of its three modes. Ids are only compared, so they
-- are numbers; a `Record` is a list of its entries in their order.
use coldfi.Prelude.{
  ℕ, ltb, ◌==◌, Option, none, some, List, [], ◌∷◌, ◌++◌, length, ℤ, pos, negsuc, ◌+ℤ◌, ◌-ℤ◌, ltb_ℤ,
  if◌then◌else◌,
}
use coldfi.Money.{round_cents}
use coldfi.Splits.Fraction.{Fraction, nearest_cent, ◌*ℤ◌, abs_ℤ, whole}

-- The texts of a warning by what they are about, with the values that they show.
pub data SplitWarning : Type 0 where
  negative_total : ℤ → SplitWarning
  ratios_normalized : Fraction → SplitWarning
  negative_ratio : ℕ → SplitWarning
  fixed_negative : ℕ → ℤ → SplitWarning
  fixed_scaled : ℤ → Fraction → SplitWarning
  items_zero : SplitWarning
  items_scaled : ℤ → Fraction → SplitWarning

pub record SplitResult : Type 0 where
  pub member_id : ℕ
  pub amount : ℤ
  pub ratio : Fraction

pub record CalculateSplitsResult : Type 0 where
  pub splits : List SplitResult
  pub warnings : List SplitWarning

-- `item.splitMode`
pub data ItemMode : Type 0 where
  equal exact percentage : ItemMode

pub record ItemizedItem : Type 0 where
  pub amount : ℤ
  pub assigned_to : List ℕ
  pub split_mode : Option ItemMode
  pub split_amounts : Option (List (ℕ × ℤ))

-- `options.splitMode`; the switch has a default for whatever else the caller passes
pub data SplitMode : Type 0 where
  ratio fixed other_mode : SplitMode

pub record CalculateSplitsOptions : Type 0 where
  pub total_amount : ℤ
  pub split_mode : SplitMode
  pub member_ids : List ℕ
  pub ratios : Option (List (ℕ × Fraction))
  pub fixed_amounts : Option (List (ℕ × ℤ))
  pub itemized_items : Option (List ItemizedItem)

module _ {ℓ} {A : Type ℓ} where
  -- `map[id]`
  abbrev pub value_of : ℕ → List (ℕ × A) → Option A
  value_of id [] = none
  value_of id ((k, v) ∷ m) = if k == id then some v else value_of id m

  -- `map[id] = v`
  abbrev pub put_value : ℕ → A → List (ℕ × A) → List (ℕ × A)
  put_value id v [] = (id, v) ∷ []
  put_value id v ((k, w) ∷ m) = if k == id then (k, v) ∷ m else (k, w) ∷ put_value id v m

  -- `map[id] ?? v`
  abbrev pub or_value : Option A → A → A
  or_value none v = v
  or_value (some w) v = w

-- `Math.max(0, amount)`
abbrev pub positive : ℤ → ℤ
positive a = if ltb_ℤ a (pos 0) then pos 0 else a

-- what a loop over the members carries and collects
pub record Loop : Type 0 where
  pub allocated : ℤ
  pub results : List SplitResult
  pub warnings : List SplitWarning

-- `Math.round(rawAmount * 100) / 100`: the last row gets what is left of the total
abbrev pub row_amount : ℤ → ℤ → List ℕ → Fraction → ℤ
row_amount total allocated [] raw = round_cents (total -ℤ allocated)
row_amount total allocated (_ ∷ _) raw = nearest_cent raw *ℤ pos 1000

-- 0.01 more or less, and not below 0
abbrev pub nudge : ℤ → SplitResult → SplitResult
nudge adjustment r = record r { amount = positive (round_cents (r.amount +ℤ adjustment)) }

-- the loop from the last row down, over at most `n` rows
abbrev pub nudge_last : ℕ → ℤ → List SplitResult → List SplitResult
nudge_last n adjustment [] = []
nudge_last n adjustment (r ∷ rs) =
    (if ltb (length rs) n then nudge adjustment r else r) ∷ nudge_last n adjustment rs

-- The block under `Math.abs(allocated - totalAmount) > 0.01`.
unfoldable pub correct : ℤ → ℤ → List SplitResult → List SplitResult
correct total allocated results =
    let diff = nearest_cent (whole (total -ℤ allocated)) in
    let adjustment = if ltb_ℤ (pos 0) diff then pos 1000 else negsuc 999 in
    let corrected = nudge_last (abs_ℤ diff) adjustment results in
    if ltb 1000 (abs_ℤ (allocated -ℤ total)) then corrected else results

-- the result of a mode, from what its loop has collected
abbrev pub finish : ℤ → List SplitWarning → Loop → CalculateSplitsResult
finish total warnings l = record {
  splits = correct total l.allocated l.results;
  warnings = warnings ++ l.warnings;
}

abbrev pub sum_amounts : List SplitResult → ℤ
sum_amounts [] = pos 0
sum_amounts (r ∷ rs) = r.amount +ℤ sum_amounts rs
