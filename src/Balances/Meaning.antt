-- ===== src/Balances/Meaning.antt =====
-- What the table of debts of `computeNetBalances` means: for each pair of users, what the expenses
-- claim less what the settlements settled, whatever the currencies and the order of the netting.
use Prim.Native.String.{String}
use text.Mathlib.Text.{◌==◌ as str_eq}
use coldfi.Prelude.{
  ◌∙◌, ℕ, ◌==◌, ◌≡◌, refl, Bool, true, false, not, ◌&&◌, ◌||◌, Option, none, some, List, [], ◌∷◌, ℤ,
  pos, ◌+ℤ◌, ◌-ℤ◌, int_laws, parts_of_eq, leb_ℤ, if◌then◌else◌, Bool-cases, inl, inr,
}
use coldfi.Settlement.Types.{SettlementProposal}
use coldfi.Balances.Types.{ExpenseSplit, GroupExpense, get_split_amount}
use coldfi.Balances.Debts.{
  Debts, Pairwise, has_bucket, init_member_pairs, update_debts, add_debt, pay_debt, net_pair,
}
use coldfi.Balances.Engine.{
  includes_id, usable_amount, is_settled, is_partial_settled, settled_amount, add_splits,
  add_amount, currency_bucket, add_expense, apply_settlement, settlement_currency, add_expenses,
  apply_settlements, net_row, net_rows, net_buckets, pairwise_debts,
}
use coldfi.Balances.Position.{
  between, position, claim, add_debt-between, pay_debt-between, net_pair-between,
  update_debts-position, init_member_pairs-position,
}

module _ (member_ids : List ℕ) (i j : ℕ) where
  -- whether a split is skipped: paid, of somebody else, or of nothing
  abbrev pub skips_split : ℤ → ExpenseSplit → Bool
  skips_split total s =
      s.is_paid
      || not (includes_id member_ids s.member_id)
      || leb_ℤ (get_split_amount total s) (pos 0)

  -- what the splits of an expense claim between two users
  abbrev pub splits_claim : ℕ → ℤ → List ExpenseSplit → ℤ
  splits_claim payer total [] = pos 0
  splits_claim payer total (s ∷ ss) =
      (if skips_split total s
        then pos 0
        else claim s.member_id payer (get_split_amount total s) i j)
      +ℤ splits_claim payer total ss

  abbrev pub amount_claim : GroupExpense → Option ℤ → ℤ
  amount_claim e none = pos 0
  amount_claim e (some total) =
      if includes_id member_ids e.paid_by then splits_claim e.paid_by total e.splits else pos 0

  abbrev pub expense_claim : GroupExpense → ℤ
  expense_claim e = if e.is_pending then pos 0 else amount_claim e (usable_amount e.amount)

  -- what a settlement settles between two users
  abbrev pub skips_settlement : SettlementProposal → Bool
  skips_settlement s =
      not (is_settled s || is_partial_settled s)
      || not (includes_id member_ids s.from_user_id && includes_id member_ids s.to_user_id)

  abbrev pub settlement_claim : SettlementProposal → ℤ
  settlement_claim s =
      if skips_settlement s then pos 0 else claim s.from_user_id s.to_user_id (settled_amount s) i j

  abbrev pub expenses_claim : List GroupExpense → ℤ
  expenses_claim [] = pos 0
  expenses_claim (e ∷ es) = expense_claim e +ℤ expenses_claim es

  abbrev pub settlements_claim : List SettlementProposal → ℤ
  settlements_claim [] = pos 0
  settlements_claim (s ∷ ss) = settlement_claim s +ℤ settlements_claim ss

module _ (trim_upper : String → String) (member_ids : List ℕ) (i j : ℕ)
    (apart : (i == j) ≡ false) where
  -- what is known of a table in which a currency is open
  abbrev Open : String → Pairwise → Type 0
  Open currency ps = has_bucket currency ps ≡ true

  update-has_bucket :
      (currency : String) (f : Debts → Debts) (ps : Pairwise)
      → Open currency ps
      → Open currency (update_debts currency f ps)
  update-has_bucket currency f [] h = h
  update-has_bucket currency f (b ∷ ps) h = elim (Bool-cases (str_eq b.currency currency)) [
    | inl t ↦ rw (t, t) refl
    | inr n ↦ rw (n, n) (update-has_bucket currency f ps (rw n at h))
  ]

  add_splits-position :
      (currency : String) (payer : ℕ) (total : ℤ) (ss : List ExpenseSplit) (ps : Pairwise)
      → Open currency ps
      → position (add_splits trim_upper member_ids currency payer total ss ps) i j
        ≡ position ps i j +ℤ splits_claim member_ids i j payer total ss
  add_splits-position currency payer total [] ps open_ = omega int_laws
  add_splits-position currency payer total (s ∷ ss) ps open_ =
      elim (Bool-cases (skips_split member_ids i j total s)) [
        | inl skip ↦
            rw skip
              (omega (int_laws, parts_of_eq (add_splits-position currency payer total ss ps open_)))
        | inr take ↦
            let amount = get_split_amount total s in
            let added = update_debts currency (add_debt s.member_id payer amount) ps in
            let one =
              update_debts-position currency (add_debt s.member_id payer amount) ps i j
                (claim s.member_id payer amount i j) open_
                (λ d. add_debt-between s.member_id payer amount d i j apart) in
            let rest =
              add_splits-position currency payer total ss added
                (update-has_bucket currency (add_debt s.member_id payer amount) ps open_) in
            rw take (omega (int_laws, parts_of_eq one, parts_of_eq rest))
      ]

  add_amount-position :
      (e : GroupExpense) (total : Option ℤ) (ps : Pairwise)
      → position (add_amount trim_upper member_ids e total ps) i j
        ≡ position ps i j +ℤ amount_claim member_ids i j e total
  add_amount-position e none ps = omega int_laws
  add_amount-position e (some total) ps = elim (Bool-cases (includes_id member_ids e.paid_by)) [
    | inr out ↦ rw out (omega int_laws)
    | inl member ↦
        let currency = currency_bucket trim_upper member_ids e.currency in
        let (same, open_) = init_member_pairs-position currency ps i j in
        rw member (
          omega (
            int_laws,
            parts_of_eq same,
            parts_of_eq (
                add_splits-position currency e.paid_by total e.splits
                  (init_member_pairs currency ps) open_),
          ))
  ]

  add_expenses-position :
      (es : List GroupExpense) (ps : Pairwise)
      → position (add_expenses trim_upper member_ids es ps) i j
        ≡ position ps i j +ℤ expenses_claim member_ids i j es
  unfolding add_expense
  add_expenses-position [] ps = omega int_laws
  add_expenses-position (e ∷ es) ps = elim (Bool-cases e.is_pending) [
    | inl pending ↦ rw pending (omega (int_laws, parts_of_eq (add_expenses-position es ps)))
    | inr counts ↦
        let added = add_amount trim_upper member_ids e (usable_amount e.amount) ps in
        rw counts (
          omega (
            int_laws,
            parts_of_eq (add_amount-position e (usable_amount e.amount) ps),
            parts_of_eq (add_expenses-position es added),
          ))
  ]

  apply_settlement-position :
      (s : SettlementProposal) (ps : Pairwise)
      → position (apply_settlement trim_upper member_ids s ps) i j
        ≡ position ps i j -ℤ settlement_claim member_ids i j s
  unfolding apply_settlement
  apply_settlement-position s ps = elim (Bool-cases (skips_settlement member_ids i j s)) [
    | inl skip ↦ rw skip (omega int_laws)
    | inr settles ↦
        let currency =
          settlement_currency trim_upper member_ids
            (currency_bucket trim_upper member_ids s.currency) ps in
        let (same, open_) = init_member_pairs-position currency ps i j in
        let paid = claim s.from_user_id s.to_user_id (settled_amount s) i j in
        let one =
          update_debts-position currency (pay_debt s.from_user_id s.to_user_id (settled_amount s))
            (init_member_pairs currency ps) i j (pos 0 -ℤ paid) open_
            (λ d.
              pay_debt-between s.from_user_id s.to_user_id (settled_amount s) d i j apart
              ∙ omega int_laws) in
        rw settles (omega (int_laws, parts_of_eq same, parts_of_eq one))
  ]

  apply_settlements-position :
      (ss : List SettlementProposal) (ps : Pairwise)
      → position (apply_settlements trim_upper member_ids ss ps) i j
        ≡ position ps i j -ℤ settlements_claim member_ids i j ss
  apply_settlements-position [] ps = omega int_laws
  apply_settlements-position (s ∷ ss) ps = omega (
    int_laws,
    parts_of_eq (apply_settlement-position s ps),
    parts_of_eq (apply_settlements-position ss (apply_settlement trim_upper member_ids s ps)),
  )

  net_row-between :
      (a : ℕ) (bs : List ℕ) (d : Debts)
      → between (net_row trim_upper member_ids a bs d) i j ≡ between d i j
  net_row-between a [] d = refl
  net_row-between a (b ∷ bs) d =
      net_row-between a bs (net_pair a b d) ∙ net_pair-between a b d i j apart

  net_rows-between :
      (ids : List ℕ) (d : Debts)
      → between (net_rows trim_upper member_ids ids d) i j ≡ between d i j
  net_rows-between [] d = refl
  net_rows-between (a ∷ ids) d =
      net_rows-between ids (net_row trim_upper member_ids a member_ids d)
      ∙ net_row-between a member_ids d

  net_buckets-position :
      (ps : Pairwise) → position (net_buckets trim_upper member_ids ps) i j ≡ position ps i j
  net_buckets-position [] = refl
  net_buckets-position (b ∷ ps) = omega (
    int_laws,
    parts_of_eq (net_rows-between member_ids b.debts),
    parts_of_eq (net_buckets-position ps),
  )

  -- For two different users, what one owes the other less what is owed back, over all currencies of
  -- the table that the balances are read from, is the sum of the splits that count less the sum of
  -- the settlements that count, whatever the currencies and whatever the order.
  pub pairwise_debts-position :
      (es : List GroupExpense) (ss : List SettlementProposal)
      → position (pairwise_debts trim_upper member_ids es ss) i j
        ≡ expenses_claim member_ids i j es -ℤ settlements_claim member_ids i j ss
  unfolding pairwise_debts
  pairwise_debts-position es ss =
      let opened = init_member_pairs "default" [] in
      let booked = add_expenses trim_upper member_ids es opened in
      omega (
        int_laws,
        parts_of_eq (init_member_pairs-position "default" [] i j).0,
        parts_of_eq (add_expenses-position es opened),
        parts_of_eq (apply_settlements-position ss booked),
        parts_of_eq (net_buckets-position (apply_settlements trim_upper member_ids ss booked)),
      )
