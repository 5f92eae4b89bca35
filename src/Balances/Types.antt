-- ===== src/Balances/Types.antt =====
-- What packages/shared/src/engine/balanceCalculator.ts reads of packages/shared/src/types/group.ts,
-- and the amount of a split.
use Prim.Native.String.{String}
use coldfi.Prelude.{ℕ, ◌+◌, ◌*◌, ◌/◌, Bool, Option, none, some, List, ℤ, pos, negsuc}

-- `split.ratio`, as a fraction with a positive denominator
pub record Ratio : Type 0 where
  pub numerator : ℕ
  pub denominator : ℕ

pub record ExpenseSplit : Type 0 where
  pub member_id : ℕ
  pub ratio : Ratio
  pub fixed_amount : Option ℤ
  pub is_paid : Bool

pub record GroupExpense : Type 0 where
  pub id : ℕ
  -- none for what is not a number; an infinite amount is not modelled
  pub amount : Option ℤ
  pub currency : String
  pub paid_by : ℕ
  -- `status === ExpenseStatus.PENDING_APPROVAL`
  pub is_pending : Bool
  pub splits : List ExpenseSplit

pub record DetailedBalance : Type 0 where
  pub user_id : ℕ
  pub net : ℤ
  pub owes_to : List (ℕ × ℤ)
  pub owed_by : List (ℕ × ℤ)

-- The messages of a warning, by what they are about.
pub data BalanceWarning : Type 0 where
  unlinked_settlement : String → BalanceWarning
  settlement_overlap : String → ℕ → BalanceWarning

-- cents of a fraction of an amount of `n` thousandths: to the nearest, ties upwards
abbrev pub nearest_cents : ℕ → Ratio → ℕ
nearest_cents n r = (2 * n * r.numerator + 1000 * r.denominator) / (2000 * r.denominator)

-- `roundToCents(amount * ratio)`, for a positive amount
unfoldable pub ratio_amount : ℤ → Ratio → ℤ
ratio_amount (pos n) r = pos (nearest_cents n r * 1000)
ratio_amount (negsuc n) r = pos 0

-- `getSplitAmount`, on an expense with a positive amount
unfoldable pub get_split_amount : ℤ → ExpenseSplit → ℤ
unfolding ratio_amount
get_split_amount amount split = elim split.fixed_amount [
  | none ↦ ratio_amount amount split.ratio
  | some fixed ↦ fixed
]
