-- ===== src/Splits/Somebody.antt =====
-- `buildEqualRatios` gives somebody a share.
use coldfi.Prelude.{
  ℕ, ◌≡◌, true, not, ltb, Option, none, some, List, [], ◌∷◌, select, length, pos, Bool-cases, ◌==◌,
  inl, inr,
}
use coldfi.Splits.Fraction.{Fraction, whole, over, is_positive, is_off_one, total_of}
use coldfi.Splits.Types.{put_value}
use coldfi.Splits.Ratios.{
  Shares, ratios_of, equal_from, one_over, equal_ratios_for, is_in, filtered, fill, divide_by,
  with_average, ratios_from, build_equal_ratios,
}

abbrev pub NonEmpty : Shares → Type 0
NonEmpty [] = ⊥
NonEmpty (_ ∷ _) = Unit

put_value-NonEmpty : (id : ℕ) (v : Fraction) (es : Shares) → NonEmpty (put_value id v es)
put_value-NonEmpty id v [] = tt
put_value-NonEmpty id v ((k, w) ∷ es) = elim (Bool-cases (k == id)) [
  | inl t ↦ rw t tt
  | inr f ↦ rw f tt
]

pub equal_from-NonEmpty :
    (v : Fraction) (ids : List ℕ) (es : Shares) → NonEmpty es → NonEmpty (equal_from v ids es)
equal_from-NonEmpty v [] es h = h
equal_from-NonEmpty v (id ∷ ids) es h =
    equal_from-NonEmpty v ids (put_value id v es) (put_value-NonEmpty id v es)

fill-NonEmpty : (v : Fraction) (ids : List ℕ) (es : Shares) → NonEmpty es → NonEmpty (fill v ids es)
fill-NonEmpty v [] es h = h
fill-NonEmpty v (id ∷ ids) es h = elim (Bool-cases (is_in id es)) [
  | inl t ↦ rw t (fill-NonEmpty v ids es h)
  | inr f ↦ rw f (fill-NonEmpty v ids (put_value id v es) (put_value-NonEmpty id v es))
]

divide_by-NonEmpty : (v : Fraction) (es : Shares) → NonEmpty es → NonEmpty (divide_by v es)
divide_by-NonEmpty v [] h = absurd h
divide_by-NonEmpty v (e ∷ es) h = tt

-- only a list with entries has a positive sum
positive-NonEmpty : (es : Shares) → is_positive (total_of (ratios_of es)) ≡ true → NonEmpty es
positive-NonEmpty [] h = cc
positive-NonEmpty (e ∷ es) h = tt

equal_ratios_for-NonEmpty : (m : ℕ) (ms : List ℕ) → NonEmpty (equal_ratios_for (m ∷ ms))
unfolding equal_ratios_for
equal_ratios_for-NonEmpty m ms =
    equal_from-NonEmpty (one_over (length (m ∷ ms))) ms ((m, one_over (length (m ∷ ms))) ∷ []) tt

with_average-NonEmpty : (ids : List ℕ) (es : Shares) → NonEmpty es → NonEmpty (with_average ids es)
with_average-NonEmpty ids es h =
    let average = over (total_of (ratios_of es)) (whole (pos (length es))) in
    let result = fill average ids es in
    divide_by-NonEmpty (total_of (ratios_of result)) result (fill-NonEmpty average ids es h)

ratios_from-NonEmpty : (m : ℕ) (ms : List ℕ) (es : Shares) → NonEmpty (ratios_from (m ∷ ms) es)
unfolding ratios_from
ratios_from-NonEmpty m ms es =
    let equal = equal_ratios_for-NonEmpty m ms in
    let missing = ltb 0 (length (select (λ id. not (is_in id es)) (m ∷ ms))) in
    let total = total_of (ratios_of es) in
    elim (Bool-cases missing) [
      | inl some_ ↦ elim (Bool-cases (is_positive total)) [
        | inr f ↦ rw (some_, f) equal
        | inl t ↦ rw (some_, t) (with_average-NonEmpty (m ∷ ms) es (positive-NonEmpty es t))
      ]
      | inr all ↦ elim (Bool-cases (is_positive total)) [
        | inr f ↦ rw (all, f) equal
        | inl t ↦ elim (Bool-cases (is_off_one total)) [
          | inl off ↦ rw (all, t, off) (divide_by-NonEmpty total es (positive-NonEmpty es t))
          | inr on ↦ rw (all, t, on) (positive-NonEmpty es t)
        ]
      ]
    ]

pub build_equal_ratios-NonEmpty :
    (m : ℕ) (ms : List ℕ) (ratios : Option Shares) → NonEmpty (build_equal_ratios (m ∷ ms) ratios)
unfolding build_equal_ratios
build_equal_ratios-NonEmpty m ms none = equal_ratios_for-NonEmpty m ms
build_equal_ratios-NonEmpty m ms (some []) = equal_ratios_for-NonEmpty m ms
build_equal_ratios-NonEmpty m ms (some (e ∷ es)) =
    ratios_from-NonEmpty m ms (filtered (m ∷ ms) (e ∷ es))
