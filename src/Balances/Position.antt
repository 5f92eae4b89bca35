-- ===== src/Balances/Position.antt =====
-- What the debts between two users amount to, both directions and all currencies together, and
-- what each step of `computeNetBalances` does to it.
use Prim.Native.String.{String}
use mathlib.Core.Path.{subst}
use text.Mathlib.Text.{◌==◌ as str_eq}
use text.Mathlib.TextPositions.{eq_refl}
use coldfi.Prelude.{
  ℕ, ◌==◌, ==_refl, ◌≡◌, refl, sym, ◌∙◌, Bool, true, false, ◌&&◌, [], ◌∷◌, ◌++◌, ℤ, pos, ◌+ℤ◌, ◌-ℤ◌,
  int_laws, parts_of_eq, ltb_ℤ, leb_ℤ, if◌then◌else◌, arith, Bool-cases, inl, inr,
}
use coldfi.Balances.Debts.{
  Debts, Pairwise, has_bucket, init_member_pairs, update_debts, add_debt, pay_debt, net_pair,
}
use coldfi.Balances.Engine.{owed_in_all}

-- what user i owes user j, less what j owes i
abbrev pub between : Debts → ℕ → ℕ → ℤ
between d i j = d i j -ℤ d j i

abbrev pub position : Pairwise → ℕ → ℕ → ℤ
position ps i j = owed_in_all i j ps -ℤ owed_in_all j i ps

-- an amount that one user owes another, as seen between i and j
abbrev pub claim : ℕ → ℕ → ℤ → ℕ → ℕ → ℤ
claim from to v i j =
    (if i == from && j == to then v else pos 0) -ℤ (if j == from && i == to then v else pos 0)

==-comm : (a b : ℕ) → (a == b) ≡ (b == a)
==-comm a b = ground arith

&&-comm : (p q : Bool) → (p && q) ≡ (q && p)
&&-comm p q = ground arith

nothing : (v : ℤ) → ltb_ℤ (pos 0) v ≡ false → ltb_ℤ v (pos 0) ≡ false → v ≡ pos 0
nothing v h k = ground arith

-- the two directions of a pair, and any other pair
by_pair :
    (from to i j : ℕ) (P : ℕ → ℕ → Type 0)
    → P from to
    → P to from
    → ((i == from && j == to) ≡ false → (j == from && i == to) ≡ false → P i j)
    → P i j
by_pair from to i j P there back neither = elim (Bool-cases (i == from && j == to)) [
  | inl t ↦
      let (e, f) : (i ≡ from) × (j ≡ to) = ground arith in
      subst (λ x. P x j) (sym e) (subst (λ y. P from y) (sym f) there)
  | inr no_there ↦ elim (Bool-cases (j == from && i == to)) [
    | inl t ↦
        let (e, f) : (j ≡ from) × (i ≡ to) = ground arith in
        subst (λ x. P x j) (sym f) (subst (λ y. P to y) (sym e) back)
    | inr no_back ↦ neither no_there no_back
  ]
]

module _ (from to : ℕ) (v : ℤ) (d : Debts) (i j : ℕ) where
  pub add_debt-between :
      (i == j) ≡ false → between (add_debt from to v d) i j ≡ between d i j +ℤ claim from to v i j
  add_debt-between =
      by_pair from to i j
        (λ x y.
          (x == y) ≡ false
          → between (add_debt from to v d) x y ≡ between d x y +ℤ claim from to v x y)
        (λ apart. rw (==_refl from, ==_refl to, ==-comm to from ∙ apart) (omega int_laws))
        (λ apart. rw (apart, ==_refl from, ==_refl to) (omega int_laws))
        (λ a b apart. rw (a, b) (omega int_laws))

  pub pay_debt-between :
      (i == j) ≡ false → between (pay_debt from to v d) i j ≡ between d i j -ℤ claim from to v i j
  unfolding pay_debt
  pay_debt-between =
      by_pair from to i j
        (λ x y.
          (x == y) ≡ false
          → between (pay_debt from to v d) x y ≡ between d x y -ℤ claim from to v x y)
        (λ apart. elim (Bool-cases (leb_ℤ (pos 0) (d from to -ℤ v))) [
          | inl less ↦ rw (less, ==_refl from, ==_refl to, ==-comm to from ∙ apart) (omega int_laws)
          | inr more ↦
              rw (more, ==_refl from, ==_refl to, apart, ==-comm to from ∙ apart) (omega int_laws)
        ])
        (λ apart. elim (Bool-cases (leb_ℤ (pos 0) (d from to -ℤ v))) [
          | inl less ↦ rw (less, apart, ==_refl from, ==_refl to) (omega int_laws)
          | inr more ↦
              rw (more, ==_refl from, ==_refl to, apart, ==-comm from to ∙ apart) (omega int_laws)
        ])
        (λ a b apart. elim (Bool-cases (leb_ℤ (pos 0) (d from to -ℤ v))) [
          | inl less ↦ rw (less, a, b) (omega int_laws)
          | inr more ↦
              rw (more, a, b, &&-comm (i == to) (j == from) ∙ b, &&-comm (j == to) (i == from) ∙ a)
                (omega int_laws)
        ])

module _ (a b : ℕ) (d : Debts) (i j : ℕ) where
  pub net_pair-between : (i == j) ≡ false → between (net_pair a b d) i j ≡ between d i j
  unfolding net_pair
  net_pair-between apart = elim (Bool-cases (a == b)) [
    | inl same ↦ rw same refl
    | inr differ ↦ elim (Bool-cases (ltb_ℤ (pos 0) (d a b) && ltb_ℤ (pos 0) (d b a))) [
      | inr one ↦ rw (differ, one) refl
      | inl both ↦ elim (Bool-cases (ltb_ℤ (pos 0) (d a b -ℤ d b a))) [
        | inl more ↦
            by_pair a b i j (λ x y. between (net_pair a b d) x y ≡ between d x y)
              (rw (differ, both, more, differ, ==_refl a, ==_refl b) (omega int_laws))
              (rw (differ, both, more, ==_refl a, ==_refl b, differ) (omega int_laws))
              (λ e f.
                rw
                  (
                    differ,
                    both,
                    more,
                    e,
                    f,
                    &&-comm (i == b) (j == a) ∙ f,
                    &&-comm (j == b) (i == a) ∙ e,
                  )
                  refl)
        | inr no_more ↦ elim (Bool-cases (ltb_ℤ (d a b -ℤ d b a) (pos 0))) [
          | inl less ↦
              by_pair a b i j (λ x y. between (net_pair a b d) x y ≡ between d x y)
                (rw (differ, both, no_more, less, ==_refl a, ==_refl b, ==-comm b a ∙ differ)
                  (omega int_laws))
                (rw (differ, both, no_more, less, ==_refl a, ==_refl b, ==-comm b a ∙ differ)
                  (omega int_laws))
                (λ e f.
                  rw
                    (
                      differ,
                      both,
                      no_more,
                      less,
                      e,
                      f,
                      &&-comm (i == b) (j == a) ∙ f,
                      &&-comm (j == b) (i == a) ∙ e,
                    )
                    refl)
          | inr no_less ↦
              let even = parts_of_eq (nothing (d a b -ℤ d b a) no_more no_less) in
              by_pair a b i j (λ x y. between (net_pair a b d) x y ≡ between d x y)
                (rw (differ, both, no_more, no_less, differ, ==_refl a, ==_refl b)
                  (omega (int_laws, even)))
                (rw (differ, both, no_more, no_less, ==_refl a, ==_refl b, differ)
                  (omega (int_laws, even)))
                (λ e f.
                  rw
                    (
                      differ,
                      both,
                      no_more,
                      no_less,
                      e,
                      f,
                      &&-comm (i == b) (j == a) ∙ f,
                      &&-comm (j == b) (i == a) ∙ e,
                    )
                    refl)
        ]
      ]
    ]
  ]

-- A change of the debts of one currency is a change of the position by as much.
pub update_debts-position :
    (currency : String) (f : Debts → Debts) (ps : Pairwise) (i j : ℕ) (v : ℤ)
    → has_bucket currency ps ≡ true
    → ((d : Debts) → between (f d) i j ≡ between d i j +ℤ v)
    → position (update_debts currency f ps) i j ≡ position ps i j +ℤ v
update_debts-position currency f [] i j v has h = cc
update_debts-position currency f (b ∷ ps) i j v has h =
    elim (Bool-cases (str_eq b.currency currency)) [
      | inl t ↦ rw t (omega (int_laws, parts_of_eq (h b.debts)))
      | inr n ↦ rw n (
          omega (int_laws, parts_of_eq (update_debts-position currency f ps i j v (rw n at has) h)))
    ]

append-position :
    (currency : String) (ps : Pairwise) (i j : ℕ)
    → position (ps ++ (record { currency = currency; debts = λ x y. pos 0 } ∷ [])) i j
      ≡ position ps i j
append-position currency [] i j = omega int_laws
append-position currency (b ∷ ps) i j =
    omega (int_laws, parts_of_eq (append-position currency ps i j))

append-has_bucket :
    (currency : String) (ps : Pairwise)
    → has_bucket currency (ps ++ (record { currency = currency; debts = λ x y. pos 0 } ∷ [])) ≡ true
append-has_bucket currency [] = rw (eq_refl currency) refl
append-has_bucket currency (b ∷ ps) = elim (Bool-cases (str_eq b.currency currency)) [
  | inl t ↦ rw t refl
  | inr n ↦ rw n (append-has_bucket currency ps)
]

-- Opening a currency changes no position, and then it is there.
pub init_member_pairs-position :
    (currency : String) (ps : Pairwise) (i j : ℕ)
    → (position (init_member_pairs currency ps) i j ≡ position ps i j)
      × (has_bucket currency (init_member_pairs currency ps) ≡ true)
unfolding init_member_pairs
init_member_pairs-position currency ps i j = elim (Bool-cases (has_bucket currency ps)) [
  | inl t ↦ rw t (refl, t)
  | inr n ↦ rw n (append-position currency ps i j, append-has_bucket currency ps)
]
