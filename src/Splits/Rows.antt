-- ===== src/Splits/Rows.antt =====
-- The rows of a split: whole cents that are not negative, their sum, and the correction by cents.
use coldfi.Prelude.{
  ℕ, suc, ◌+◌, ◌*◌, ◌%◌, ◌≤◌, ltb, ◌≡◌, refl, sym, ap, false, List, [], ◌∷◌, length, All, arith, ℤ,
  pos, negsuc, ◌+ℤ◌, ◌-ℤ◌, ◌≤ℤ◌, ltb_ℤ, pos_part, neg_part, int_laws, -ℤ_parts, parts_of_eq,
  Bool-cases, inl, inr, if◌then◌else◌,
}
use coldfi.Money.{round_cents, round_cents_nearest, round_cents-IsWhole, IsWhole}
use coldfi.Splits.Fraction.{Fraction, ◌*ℤ◌, abs_ℤ, whole, nearest_cent}
use coldfi.Splits.Types.{SplitResult, positive, row_amount, nudge, nudge_last, correct, sum_amounts}

-- whole cents, not negative
abbrev pub IsCents : ℤ → Type 0
IsCents a = (neg_part a ≡ 0) × (pos_part a % 1000 ≡ 0)

abbrev pub IsRow : SplitResult → Type 0
IsRow r = IsCents r.amount

-- the sum of all amounts but the last
abbrev pub sum_others : List SplitResult → ℤ
sum_others [] = pos 0
sum_others (r ∷ []) = pos 0
sum_others (r ∷ s ∷ rs) = r.amount +ℤ sum_others (s ∷ rs)

pub cents-IsWhole : (k : ℤ) → IsWhole (k *ℤ pos 1000)
cents-IsWhole (pos n) = ground arith
cents-IsWhole (negsuc n) = ground arith

pub positive-IsCents : (a : ℤ) → IsWhole a → IsCents (positive a)
positive-IsCents (pos n) h = ground arith
positive-IsCents (negsuc n) h = ground arith

pub positive_same : (a : ℤ) → neg_part a ≡ 0 → positive a ≡ a
positive_same (pos n) h = ground arith
positive_same (negsuc n) h = absurd (omega arith)

pub positive_none : (n : ℕ) → positive (negsuc n) ≡ pos 0
positive_none n = ground arith

pub le-positive : (a : ℤ) → a ≤ℤ positive a
le-positive (pos n) = ground arith
le-positive (negsuc n) = ground arith

pub row_amount-IsWhole :
    (total allocated : ℤ) (rest : List ℕ) (raw : Fraction)
    → IsWhole (row_amount total allocated rest raw)
row_amount-IsWhole total allocated [] raw =
    let near = round_cents_nearest (total -ℤ allocated) in (near.0, near.1)
row_amount-IsWhole total allocated (_ ∷ _) raw = cents-IsWhole (nearest_cent raw)

pub sub-IsWhole : (a b : ℤ) → IsWhole a → IsWhole b → IsWhole (a -ℤ b)
unfolding ◌-ℤ◌
sub-IsWhole a b h k = ground arith

pub add-IsWhole : (a b : ℤ) → IsWhole a → IsWhole b → IsWhole (a +ℤ b)
unfolding ◌+ℤ◌
add-IsWhole a b h k = ground arith

-- The last row brings the sum to the total.
pub row_amount_last :
    (total allocated : ℤ) (raw : Fraction)
    → IsWhole total
    → IsWhole allocated
    → allocated +ℤ row_amount total allocated [] raw ≡ total
row_amount_last total allocated raw h k =
    let same =
      parts_of_eq (round_cents-IsWhole (total -ℤ allocated) (sub-IsWhole total allocated h k)) in
    omega (int_laws, same)

add_positive : (a b : ℤ) → neg_part a ≡ 0 → neg_part b ≡ 0 → neg_part (a +ℤ b) ≡ 0
unfolding ◌+ℤ◌
add_positive a b h k = ground arith

pub sum_amounts_positive : (rs : List SplitResult) → All IsRow rs → neg_part (sum_amounts rs) ≡ 0
sum_amounts_positive [] h = refl
sum_amounts_positive (r ∷ rs) (h, hs) =
    add_positive r.amount (sum_amounts rs) h.0 (sum_amounts_positive rs hs)

pub sum_others-le : (rs : List SplitResult) → All IsRow rs → sum_others rs ≤ℤ sum_amounts rs
sum_others-le [] h = omega arith
sum_others-le (r ∷ []) (h, hs) = omega (int_laws, h.0)
sum_others-le (r ∷ s ∷ rs) (h, hs) = let rest = sum_others-le (s ∷ rs) hs in omega (int_laws, rest)

pub sum_amounts-IsWhole : (rs : List SplitResult) → All IsRow rs → IsWhole (sum_amounts rs)
sum_amounts-IsWhole [] h = omega arith
sum_amounts-IsWhole (r ∷ rs) (h, hs) =
    add-IsWhole r.amount (sum_amounts rs) (omega arith) (sum_amounts-IsWhole rs hs)

-- one cent less, and not below 0
less : (a : ℤ) → IsCents a → IsCents (positive (round_cents (a +ℤ negsuc 999)))
less a h =
    positive-IsCents (round_cents (a +ℤ negsuc 999))
      (let near = round_cents_nearest (a +ℤ negsuc 999) in (near.0, near.1))

less-le : (a : ℤ) → IsCents a → a ≤ℤ positive (round_cents (a +ℤ negsuc 999)) +ℤ pos 1000
less-le a h =
    let b = a +ℤ negsuc 999 in
    let same : round_cents b ≡ b =
      round_cents-IsWhole b (add-IsWhole a (negsuc 999) (omega arith) (omega arith)) in
    let parts = parts_of_eq same in
    let up = le-positive (round_cents b) in omega (int_laws, parts, up)

less_zero : (a : ℤ) → a ≡ pos 0 → positive (round_cents (a +ℤ negsuc 999)) ≡ pos 0
unfolding ◌+ℤ◌ round_cents
less_zero a h = rw h refl

sum_zero : (a : ℤ) → pos 0 ≡ a +ℤ pos 0 → a ≡ pos 0
sum_zero a h = let parts = parts_of_eq h in omega (int_laws, parts)

cancel : (a b c : ℤ) → a +ℤ b ≡ a +ℤ c → b ≡ c
cancel a b c h = let parts = parts_of_eq h in omega (int_laws, parts)

nudge_last-All :
    (n : ℕ) (rs : List SplitResult) → All IsRow rs → All IsRow (nudge_last n (negsuc 999) rs)
nudge_last-All n [] h = tt
nudge_last-All n (r ∷ rs) (h, hs) = elim (Bool-cases (ltb (length rs) n)) [
  | inl t ↦ rw t (less r.amount h, nudge_last-All n rs hs)
  | inr f ↦ rw f (h, nudge_last-All n rs hs)
]

-- how many rows the loop changes
abbrev reach : ℕ → ℕ → ℕ
reach n len = if ltb len n then len else n

nudge_last-le :
    (n : ℕ) (rs : List SplitResult)
    → All IsRow rs
    → sum_amounts rs
      ≤ℤ sum_amounts (nudge_last n (negsuc 999) rs) +ℤ pos (1000 * reach n (length rs))
nudge_last-le n [] h = omega int_laws
nudge_last-le n (r ∷ rs) (h, hs) =
    let rest = nudge_last-le n rs hs in
    elim (Bool-cases (ltb (length rs) n)) [
      | inl t ↦
          let more : reach n (suc (length rs)) ≡ reach n (length rs) + 1 = ground arith in
          let one = less-le r.amount h in rw t (omega (int_laws, rest, more, one))
      | inr f ↦
          let same : reach n (suc (length rs)) ≡ reach n (length rs) = ground arith in
          rw f (omega (int_laws, rest, same))
    ]

-- A last row of 0 stays.
nudge_last-others :
    (n : ℕ) (rs : List SplitResult)
    → sum_others rs ≡ sum_amounts rs
    → sum_others (nudge_last n (negsuc 999) rs) ≡ sum_amounts (nudge_last n (negsuc 999) rs)
nudge_last-others n [] h = refl
nudge_last-others n (r ∷ []) h =
    let none_left = sum_zero r.amount h in
    let still = less_zero r.amount none_left in
    elim (Bool-cases (ltb 0 n)) [ inl t ↦ rw t (rw still (omega int_laws)) | inr f ↦ rw f h ]
nudge_last-others n (r ∷ s ∷ rs) h =
    let tail = nudge_last-others n (s ∷ rs) (cancel r.amount _ _ h) in
    ap (λ x. (if ltb (suc (length rs)) n then nudge (negsuc 999) r else r).amount +ℤ x) tail

nonpos_part : (a : ℤ) → a ≤ℤ pos 0 → pos_part a ≡ 0
nonpos_part (pos n) h = omega arith
nonpos_part (negsuc n) h = refl

-- the cents of a whole amount
cents_of : (a : ℤ) → IsWhole a → 1000 * abs_ℤ (nearest_cent (whole a)) ≡ abs_ℤ a
unfolding nearest_cent
cents_of (pos n) h = ground arith
cents_of (negsuc n) h = ground arith

cents_negative : (a : ℤ) → IsWhole a → a ≤ℤ pos 0 → ltb_ℤ (pos 0) (nearest_cent (whole a)) ≡ false
unfolding nearest_cent
cents_negative (pos n) h k = ground arith
cents_negative (negsuc n) h k = ground arith

pub correct_same :
    (total allocated : ℤ) (rs : List SplitResult)
    → allocated ≡ total
    → correct total allocated rs ≡ rs
unfolding correct
correct_same total allocated rs h =
    let near : ltb 1000 (abs_ℤ (allocated -ℤ total)) ≡ false =
      let parts = parts_of_eq h in ground (arith, -ℤ_parts allocated total, parts) in
    rw near refl

-- What too many cents are taken off.
module _ (total allocated : ℤ) (rs : List SplitResult) (t : IsWhole total)
    (a : IsWhole allocated) where
  pub correct_over :
      total ≤ℤ allocated
      → All IsRow rs
      → allocated ≡ sum_amounts rs
      → sum_amounts rs ≡ sum_others rs
      → All IsRow (correct total allocated rs)
        × (total ≤ℤ sum_amounts (correct total allocated rs))
        × (sum_amounts (correct total allocated rs) ≡ sum_others (correct total allocated rs))
  unfolding correct
  correct_over le rows same none_left =
      let gap = total -ℤ allocated in
      let w = sub-IsWhole total allocated t a in
      let below : gap ≤ℤ pos 0 = omega (int_laws, le) in
      let n = abs_ℤ (nearest_cent (whole gap)) in
      let cents = cents_of gap w in
      let down = cents_negative gap w below in
      let parts = parts_of_eq same in
      elim (Bool-cases (ltb 1000 (abs_ℤ (allocated -ℤ total)))) [
        | inr f ↦ rw f (rows, omega (int_laws, parts), none_left)
        | inl o ↦
            let bound = nudge_last-le n rs rows in
            let few : reach n (length rs) ≤ n = ground arith in
            let covered : total ≤ℤ sum_amounts (nudge_last n (negsuc 999) rs) =
              omega (int_laws, parts, bound, few, cents, nonpos_part gap below) in
            rw (o, down)
              (nudge_last-All n rs rows, covered, sym (nudge_last-others n rs (sym none_left)))
      ]
