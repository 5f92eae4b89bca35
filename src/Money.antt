-- ===== src/Money.antt =====
-- Amounts of money, and their rounding to cents: `Math.round(value * 100) / 100`, the expression
-- of `roundToCents` in packages/shared/src/engine/balanceCalculator.ts.
--
-- An amount is an integer number of mills, a mill being a thousandth of a cent (1/100000 of the
-- currency's unit). Every amount of the program has two decimals or is rounded to two, and the
-- tests of the engines against 0.001 and 0.01 are whole numbers of mills.
use coldfi.Prelude.{
  ℕ, ◌+◌, ◌*◌, ◌/◌, ◌%◌, ◌≤◌, ◌≡◌, arith, ℤ, pos, negsuc, sub_ℕ, pos_part, neg_part,
}

-- What a JavaScript `number` can be.
pub data Number : Type 0 where
  num : ℤ → Number
  nan infinity : Number

abbrev pub cent : ℕ
cent = 1000

-- `Math.round(value * 100) / 100`: to the nearest cent, ties upwards.
unfoldable pub round_cents : ℤ → ℤ
round_cents (pos n) = pos ((n + 500) / 1000 * 1000)
round_cents (negsuc n) = sub_ℕ 0 ((n + 500) / 1000 * 1000)

-- The rounded value is a whole number of cents, at most half a cent away.
pub round_cents_nearest :
    (v : ℤ)
    → (pos_part (round_cents v) % 1000 ≡ 0)
      × (neg_part (round_cents v) % 1000 ≡ 0)
      × (pos_part v + neg_part (round_cents v) ≤ pos_part (round_cents v) + neg_part v + 500)
      × (pos_part (round_cents v) + neg_part v ≤ pos_part v + neg_part (round_cents v) + 500)
unfolding round_cents
round_cents_nearest (pos n) = omega arith
round_cents_nearest (negsuc n) = ground arith

abbrev pub IsWhole : ℤ → Type 0
IsWhole v = (pos_part v % 1000 ≡ 0) × (neg_part v % 1000 ≡ 0)

-- An amount in whole cents is not changed.
pub round_cents-IsWhole : (v : ℤ) → IsWhole v → round_cents v ≡ v
unfolding round_cents
round_cents-IsWhole (pos n) h = ground arith
round_cents-IsWhole (negsuc n) h = ground arith
