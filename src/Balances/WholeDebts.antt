-- ===== src/Balances/WholeDebts.antt =====
-- What is in whole cents among the types of balanceCalculator.ts, and what its arithmetic on the
-- debts keeps.
use Prim.Native.String.{String}
use text.Mathlib.Text.{◌==◌ as str_eq}
use coldfi.Prelude.{
  ℕ, ◌==◌, refl, Bool, true, false, ◌&&◌, Option, none, some, [], ◌∷◌, ◌++◌, All, ℤ, pos, ◌+ℤ◌,
  ◌-ℤ◌, ltb_ℤ, leb_ℤ, if◌then◌else◌, arith, Bool-cases, inl, inr,
}
use coldfi.Money.{IsWhole}
use coldfi.Settlement.Types.{SettlementProposal}
use coldfi.Balances.Types.{ExpenseSplit, GroupExpense, ratio_amount, get_split_amount}
use coldfi.Balances.Debts.{
  Debts, Bucket, Pairwise, set_debt, has_bucket, init_member_pairs, update_debts, pay_debt,
  net_pair,
}
use coldfi.Balances.Engine.{settled_amount}

pub +ℤ-IsWhole : (a b : ℤ) → IsWhole a → IsWhole b → IsWhole (a +ℤ b)
unfolding ◌+ℤ◌
+ℤ-IsWhole a b h k = ground arith

pub -ℤ-IsWhole : (a b : ℤ) → IsWhole a → IsWhole b → IsWhole (a -ℤ b)
unfolding ◌-ℤ◌
-ℤ-IsWhole a b h k = ground arith

abbrev pub IsWholeOption : Option ℤ → Type 0
IsWholeOption none = Unit
IsWholeOption (some v) = IsWhole v

-- the fixed amounts of an expense, and the amounts of a settlement, are in whole cents
abbrev pub IsWholeExpense : GroupExpense → Type 0
IsWholeExpense e = All (λ (s : ExpenseSplit). IsWholeOption s.fixed_amount) e.splits

abbrev pub IsWholeSettlement : SettlementProposal → Type 0
IsWholeSettlement s = IsWhole s.amount × IsWholeOption s.paid_amount

abbrev pub IsWholeDebts : Debts → Type 0
IsWholeDebts debts = (i j : ℕ) → IsWhole (debts i j)

abbrev pub IsWholeBuckets : Pairwise → Type 0
IsWholeBuckets ps = All (λ (b : Bucket). IsWholeDebts b.debts) ps

pub get_split_amount-IsWhole :
    (total : ℤ) (s : ExpenseSplit)
    → IsWholeOption s.fixed_amount
    → IsWhole (get_split_amount total s)
unfolding get_split_amount ratio_amount
get_split_amount-IsWhole total s h = ground arith

pub settled_amount-IsWhole :
    (s : SettlementProposal) → IsWholeSettlement s → IsWhole (settled_amount s)
settled_amount-IsWhole s h = ground arith

pub set_debt-IsWhole :
    (from to : ℕ) (v : ℤ) (d : Debts)
    → IsWhole v
    → IsWholeDebts d
    → IsWholeDebts (set_debt from to v d)
set_debt-IsWhole from to v d hv hd i j = elim (Bool-cases (i == from && j == to)) [
  | inl t ↦ rw t hv
  | inr f ↦ rw f (hd i j)
]

zero-IsWhole : IsWhole (pos 0)
zero-IsWhole = (refl, refl)

pub pay_debt-IsWhole :
    (from to : ℕ) (amount : ℤ) (d : Debts)
    → IsWhole amount
    → IsWholeDebts d
    → IsWholeDebts (pay_debt from to amount d)
unfolding pay_debt
pay_debt-IsWhole from to amount d ha hd =
    let remaining = d from to -ℤ amount in
    let wr : IsWhole remaining = -ℤ-IsWhole (d from to) amount (hd from to) ha in
    let cleared = set_debt from to (pos 0) d in
    let wc : IsWholeDebts cleared = set_debt-IsWhole from to (pos 0) d zero-IsWhole hd in
    elim (Bool-cases (leb_ℤ (pos 0) remaining)) [
      | inl t ↦ rw t (set_debt-IsWhole from to remaining d wr hd)
      | inr f ↦ rw f (
          set_debt-IsWhole to from (cleared to from +ℤ (pos 0 -ℤ remaining)) cleared
            (+ℤ-IsWhole (cleared to from) (pos 0 -ℤ remaining) (wc to from)
              (-ℤ-IsWhole (pos 0) remaining zero-IsWhole wr))
            wc)
    ]

pub net_pair-IsWhole : (a b : ℕ) (d : Debts) → IsWholeDebts d → IsWholeDebts (net_pair a b d)
unfolding net_pair
net_pair-IsWhole a b d hd =
    let net = d a b -ℤ d b a in
    let wn : IsWhole net = -ℤ-IsWhole (d a b) (d b a) (hd a b) (hd b a) in
    elim (Bool-cases (a == b)) [
      | inl t ↦ rw t hd
      | inr f ↦ elim (Bool-cases (ltb_ℤ (pos 0) (d a b) && ltb_ℤ (pos 0) (d b a))) [
        | inr one ↦ rw (f, one) hd
        | inl both ↦ elim (Bool-cases (ltb_ℤ (pos 0) net)) [
          | inl more ↦
              rw (f, both, more)
                (set_debt-IsWhole b a (pos 0) (set_debt a b net d) zero-IsWhole
                  (set_debt-IsWhole a b net d wn hd))
          | inr no_more ↦ elim (Bool-cases (ltb_ℤ net (pos 0))) [
            | inl less ↦
                rw (f, both, no_more, less)
                  (set_debt-IsWhole a b (pos 0) (set_debt b a (pos 0 -ℤ net) d) zero-IsWhole (
                    set_debt-IsWhole b a (pos 0 -ℤ net) d (-ℤ-IsWhole (pos 0) net zero-IsWhole wn)
                      hd))
            | inr even ↦
                rw (f, both, no_more, even)
                  (set_debt-IsWhole b a (pos 0) (set_debt a b (pos 0) d) zero-IsWhole
                    (set_debt-IsWhole a b (pos 0) d zero-IsWhole hd))
          ]
        ]
      ]
    ]

pub update_debts-IsWhole :
    (currency : String) (f : Debts → Debts) (ps : Pairwise)
    → ((d : Debts) → IsWholeDebts d → IsWholeDebts (f d))
    → IsWholeBuckets ps
    → IsWholeBuckets (update_debts currency f ps)
update_debts-IsWhole currency f [] keeps h = tt
update_debts-IsWhole currency f (b ∷ ps) keeps (hb, hs) =
    elim (Bool-cases (str_eq b.currency currency)) [
      | inl t ↦ rw t (keeps b.debts hb, hs)
      | inr e ↦ rw e (hb, update_debts-IsWhole currency f ps keeps hs)
    ]

append_empty-IsWhole :
    (currency : String) (ps : Pairwise)
    → IsWholeBuckets ps
    → IsWholeBuckets (ps ++ (record { currency = currency; debts = λ i j. pos 0 } ∷ []))
append_empty-IsWhole currency [] h = (λ i j. zero-IsWhole, tt)
append_empty-IsWhole currency (b ∷ ps) (hb, hs) = (hb, append_empty-IsWhole currency ps hs)

pub init_member_pairs-IsWhole :
    (currency : String) (ps : Pairwise)
    → IsWholeBuckets ps
    → IsWholeBuckets (init_member_pairs currency ps)
unfolding init_member_pairs
init_member_pairs-IsWhole currency ps h = elim (Bool-cases (has_bucket currency ps)) [
  | inl t ↦ rw t h
  | inr f ↦ rw f (append_empty-IsWhole currency ps h)
]

pub either-IsWhole :
    (c : Bool) (ps qs : Pairwise)
    → IsWholeBuckets ps
    → IsWholeBuckets qs
    → IsWholeBuckets (if c then ps else qs)
either-IsWhole true ps qs h k = h
either-IsWhole false ps qs h k = k
