-- ===== src/Splits/Fraction.antt =====
-- Exact fractions for the ratios and the scaled amounts of
-- packages/shared/src/engine/splitCalculator.ts. They are not reduced; every divisor of the code
-- is tested to be positive or not zero before it divides.
use coldfi.Prelude.{
  ℕ, ◌+◌, ◌*◌, ◌/◌, ltb, ◌==◌, Bool, List, [], ◌∷◌, ℤ, pos, negsuc, sub_ℕ, pos_part, neg_part,
  ltb_ℤ, if◌then◌else◌,
}

pub record Fraction : Type 0 where
  pub num : ℤ
  pub den : ℕ

infixl 70 ◌*ℤ◌
abbrev pub ◌*ℤ◌ : ℤ → ℤ → ℤ
a *ℤ b =
    sub_ℕ (pos_part a * pos_part b + neg_part a * neg_part b)
      (pos_part a * neg_part b + neg_part a * pos_part b)

abbrev pub add_ℤ : ℤ → ℤ → ℤ
add_ℤ a b = sub_ℕ (pos_part a + pos_part b) (neg_part a + neg_part b)

-- `Math.abs`
abbrev pub abs_ℤ : ℤ → ℕ
abs_ℤ a = pos_part a + neg_part a

abbrev pub whole : ℤ → Fraction
whole z = record { num = z; den = 1 }

abbrev pub plus : Fraction → Fraction → Fraction
plus a b = record { num = add_ℤ (a.num *ℤ pos b.den) (b.num *ℤ pos a.den); den = a.den * b.den }

abbrev pub times : Fraction → Fraction → Fraction
times a b = record { num = a.num *ℤ b.num; den = a.den * b.den }

abbrev sign : ℤ → ℕ → ℤ
sign (pos n) d = pos d
sign (negsuc n) d = sub_ℕ 0 d

abbrev pub over : Fraction → Fraction → Fraction
over a b = record { num = a.num *ℤ sign b.num b.den; den = a.den * abs_ℤ b.num }

abbrev pub is_positive : Fraction → Bool
is_positive a = ltb_ℤ (pos 0) a.num

abbrev pub is_negative : Fraction → Bool
is_negative a = ltb_ℤ a.num (pos 0)

abbrev pub is_zero : Fraction → Bool
is_zero a = abs_ℤ a.num == 0

-- `Math.max(0, a)`
abbrev pub at_least_zero : Fraction → Fraction
at_least_zero a = if is_negative a then whole (pos 0) else a

-- `Math.abs(a - 1) > 0.001`
abbrev pub is_off_one : Fraction → Bool
is_off_one a = ltb a.den (1000 * abs_ℤ (add_ℤ a.num (sub_ℕ 0 a.den)))

abbrev pub total_of : List Fraction → Fraction
total_of [] = whole (pos 0)
total_of (a ∷ as') = plus a (total_of as')

-- the integer below n / d
abbrev pub floor_div : ℤ → ℕ → ℤ
floor_div (pos n) d = pos (n / d)
floor_div (negsuc n) d = negsuc (n / d)

-- `Math.round(a * 100)`, for an amount in thousandths of a cent
unfoldable pub nearest_cent : Fraction → ℤ
nearest_cent a = floor_div (add_ℤ (a.num *ℤ pos 2) (pos (1000 * a.den))) (2000 * a.den)
