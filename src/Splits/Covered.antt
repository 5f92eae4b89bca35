-- ===== src/Splits/Covered.antt =====
-- The loops of the three modes: whole cents, and never less than the total.
use mathlib.Core.Path.{subst}
use coldfi.Prelude.{
  ℕ, ◌≡◌, refl, sym, ap, ◌∙◌, List, [], ◌∷◌, All, arith, ℤ, pos, negsuc, ◌+ℤ◌, ◌≤ℤ◌, neg_part,
  int_laws, parts_of_eq, ◌⊎◌, inl, inr,
}
use coldfi.Money.{IsWhole}
use coldfi.Splits.Fraction.{Fraction, whole, times, nearest_cent, ◌*ℤ◌, at_least_zero}
use coldfi.Splits.Types.{SplitResult, positive, row_amount, sum_amounts}
use coldfi.Splits.Ratios.{Shares, ids_of, ratio_row, ratio_loop}
use coldfi.Splits.Fixed.{amount_row, amounts_loop}
use coldfi.Splits.Rows.{
  IsRow, sum_others, positive-IsCents, positive_same, positive_none, le-positive,
  row_amount-IsWhole, add-IsWhole, row_amount_last,
}

-- the rows are right, and the sum is the total or that of all rows but the last
abbrev pub IsSplit : ℤ → ℤ → List SplitResult → Type 0
IsSplit total allocated rs =
    All IsRow rs
    × (total ≤ℤ allocated +ℤ sum_amounts rs)
    × ((allocated +ℤ sum_amounts rs ≡ total) ⊎ (sum_amounts rs ≡ sum_others rs))

last_row :
    (total allocated amount : ℤ)
    → allocated +ℤ amount ≡ total
    → (total ≤ℤ allocated +ℤ (positive amount +ℤ pos 0))
      × ((allocated +ℤ (positive amount +ℤ pos 0) ≡ total) ⊎ (positive amount +ℤ pos 0 ≡ pos 0))
last_row total allocated (pos n) h =
    let parts = parts_of_eq h in
    rw (positive_same (pos n) refl) (omega (int_laws, parts), inl (omega (int_laws, parts)))
last_row total allocated (negsuc n) h =
    let parts = parts_of_eq h in
    rw (positive_none n) (omega (int_laws, parts), inr (omega int_laws))

add_assoc_ℤ : (a b c : ℤ) → a +ℤ b +ℤ c ≡ a +ℤ (b +ℤ c)
add_assoc_ℤ a b c = omega int_laws

-- a row in front of a split
push-IsSplit :
    (total allocated : ℤ) (r s : SplitResult) (rs : List SplitResult)
    → IsRow r
    → IsSplit total (allocated +ℤ r.amount) (s ∷ rs)
    → IsSplit total allocated (r ∷ s ∷ rs)
push-IsSplit total allocated r s rs h (rows, le, either) =
    let assoc = add_assoc_ℤ allocated r.amount (sum_amounts (s ∷ rs)) in
    (
      (h, rows),
      subst (λ x. total ≤ℤ x) assoc le,
      elim either [ inl e ↦ inl (sym assoc ∙ e) | inr e ↦ inr (ap (λ x. r.amount +ℤ x) e) ],
    )

pub ratio_loop-IsSplit :
    (total allocated : ℤ) (id : ℕ) (raw : Fraction) (es : Shares)
    → IsWhole total
    → IsWhole allocated
    → IsSplit total allocated (ratio_loop total allocated ((id, raw) ∷ es)).results
unfolding ratio_loop
ratio_loop-IsSplit total allocated id raw [] t a =
    let raw' = times (whole total) (at_least_zero raw) in
    let amount = row_amount total allocated [] raw' in
    let end = last_row total allocated amount (row_amount_last total allocated raw' t a) in
    ((positive-IsCents amount (row_amount-IsWhole total allocated [] raw'), tt), end.0, end.1)
ratio_loop-IsSplit total allocated id raw ((id', raw') ∷ es) t a =
    let share = times (whole total) (at_least_zero raw) in
    let rest = id' ∷ ids_of es in
    let amount = row_amount total allocated rest share in
    let cents = positive-IsCents amount (row_amount-IsWhole total allocated rest share) in
    push-IsSplit total allocated (ratio_row total allocated id raw rest)
      (ratio_row total (allocated +ℤ positive amount) id' raw' (ids_of es)) _ cents
      (ratio_loop-IsSplit total (allocated +ℤ positive amount) id' raw' es t
        (add-IsWhole allocated (positive amount) a (omega arith)))

pub ratio_loop-allocated :
    (total allocated : ℤ) (es : Shares)
    → (ratio_loop total allocated es).allocated
      ≡ allocated +ℤ sum_amounts (ratio_loop total allocated es).results
unfolding ratio_loop
ratio_loop-allocated total allocated [] = omega int_laws
ratio_loop-allocated total allocated ((id, raw) ∷ es) =
    let amount =
      positive (row_amount total allocated (ids_of es) (times (whole total) (at_least_zero raw))) in
    ratio_loop-allocated total (allocated +ℤ amount) es
    ∙ add_assoc_ℤ allocated amount (sum_amounts (ratio_loop total (allocated +ℤ amount) es).results)

cents_positive : (k : ℤ) → neg_part k ≡ 0 → neg_part (k *ℤ pos 1000) ≡ 0
cents_positive (pos n) h = ground arith
cents_positive (negsuc n) h = absurd (omega arith)

-- The loop of the other two modes ends at the total.
module _ (share : ℕ → Fraction) (total : ℤ) (t : IsWhole total) where
  pub amounts_loop-allocated :
      (allocated : ℤ) (id : ℕ) (ids : List ℕ)
      → IsWhole allocated
      → (amounts_loop share total allocated (id ∷ ids)).allocated ≡ total
  unfolding amounts_loop
  amounts_loop-allocated allocated id [] a = row_amount_last total allocated (share id) t a
  amounts_loop-allocated allocated id (id' ∷ ids) a =
      let amount = row_amount total allocated (id' ∷ ids) (share id) in
      amounts_loop-allocated (allocated +ℤ amount) id' ids
        (add-IsWhole allocated amount a (row_amount-IsWhole total allocated (id' ∷ ids) (share id)))

  pub amounts_loop-le :
      (allocated : ℤ) (id : ℕ) (ids : List ℕ)
      → IsWhole allocated
      → All IsRow (amounts_loop share total allocated (id ∷ ids)).results
        × (total
            ≤ℤ allocated +ℤ sum_amounts (amounts_loop share total allocated (id ∷ ids)).results)
  unfolding amounts_loop
  amounts_loop-le allocated id [] a =
      let amount = row_amount total allocated [] (share id) in
      let cents = positive-IsCents amount (row_amount-IsWhole total allocated [] (share id)) in
      let parts = parts_of_eq (row_amount_last total allocated (share id) t a) in
      let up = le-positive amount in ((cents, tt), omega (int_laws, parts, up))
  amounts_loop-le allocated id (id' ∷ ids) a =
      let amount = row_amount total allocated (id' ∷ ids) (share id) in
      let w = row_amount-IsWhole total allocated (id' ∷ ids) (share id) in
      let rest = amounts_loop-le (allocated +ℤ amount) id' ids (add-IsWhole allocated amount a w) in
      let up = le-positive amount in
      let le = rest.1 in ((positive-IsCents amount w, rest.0), omega (int_laws, le, up))

  pub amounts_loop-IsSplit :
      (allocated : ℤ) (id : ℕ) (ids : List ℕ)
      → IsWhole allocated
      → ((i : ℕ) → neg_part (nearest_cent (share i)) ≡ 0)
      → IsSplit total allocated (amounts_loop share total allocated (id ∷ ids)).results
  unfolding amounts_loop
  amounts_loop-IsSplit allocated id [] a up =
      let amount = row_amount total allocated [] (share id) in
      let end = last_row total allocated amount (row_amount_last total allocated (share id) t a) in
      (
        (positive-IsCents amount (row_amount-IsWhole total allocated [] (share id)), tt),
        end.0,
        end.1,
      )
  amounts_loop-IsSplit allocated id (id' ∷ ids) a up =
      let amount = nearest_cent (share id) *ℤ pos 1000 in
      let w = row_amount-IsWhole total allocated (id' ∷ ids) (share id) in
      let same : positive amount ≡ amount =
        positive_same amount (cents_positive (nearest_cent (share id)) (up id)) in
      let rest =
        amounts_loop-IsSplit (allocated +ℤ amount) id' ids (add-IsWhole allocated amount a w) up in
      push-IsSplit total allocated (amount_row total id amount)
        (amount_row total id' (row_amount total (allocated +ℤ amount) ids (share id'))) _
        (positive-IsCents amount w)
        (subst
          (λ x.
            IsSplit total (allocated +ℤ x)
              (amounts_loop share total (allocated +ℤ amount) (id' ∷ ids)).results)
          (sym same) rest)
