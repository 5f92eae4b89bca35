-- ===== src/Balances/Whole.antt =====
-- Debts in whole cents stay in whole cents.
use Prim.Native.String.{String}
use coldfi.Prelude.{ℕ, Option, none, some, List, [], ◌∷◌, All, ℤ, ◌+ℤ◌}
use coldfi.Settlement.Types.{SettlementProposal}
use coldfi.Balances.Types.{ExpenseSplit, GroupExpense, get_split_amount}
use coldfi.Balances.Debts.{
  Debts, Pairwise, init_member_pairs, update_debts, add_debt, pay_debt, net_pair,
}
use coldfi.Balances.Engine.{
  includes_id, usable_amount, settled_amount, add_split, add_splits, add_amount, currency_bucket,
  add_expense, apply_settlement, settlement_currency, add_expenses, apply_settlements, net_row,
  net_rows, net_buckets, pairwise_debts,
}
use coldfi.Balances.WholeDebts.{
  +ℤ-IsWhole, IsWholeOption, IsWholeExpense, IsWholeSettlement, IsWholeDebts, IsWholeBuckets,
  get_split_amount-IsWhole, settled_amount-IsWhole, set_debt-IsWhole, pay_debt-IsWhole,
  net_pair-IsWhole, update_debts-IsWhole, init_member_pairs-IsWhole, either-IsWhole,
}

module _ (trim_upper : String → String) (member_ids : List ℕ) where
  add_splits-IsWhole :
      (currency : String) (payer : ℕ) (total : ℤ) (ss : List ExpenseSplit) (ps : Pairwise)
      → All (λ (s : ExpenseSplit). IsWholeOption s.fixed_amount) ss
      → IsWholeBuckets ps
      → IsWholeBuckets (add_splits trim_upper member_ids currency payer total ss ps)
  add_splits-IsWhole currency payer total [] ps hs h = h
  add_splits-IsWhole currency payer total (s ∷ ss) ps (hf, hs) h =
      add_splits-IsWhole currency payer total ss
        (add_split trim_upper member_ids currency payer total s ps) hs added
    where
      added : IsWholeBuckets (add_split trim_upper member_ids currency payer total s ps)
      added =
          either-IsWhole _ ps
            (update_debts currency (add_debt s.member_id payer (get_split_amount total s)) ps) h
            (update_debts-IsWhole currency (add_debt s.member_id payer (get_split_amount total s))
              ps
              (λ d hd.
                set_debt-IsWhole s.member_id payer (d s.member_id payer +ℤ get_split_amount total s)
                  d
                  (+ℤ-IsWhole (d s.member_id payer) (get_split_amount total s)
                    (hd s.member_id payer) (get_split_amount-IsWhole total s hf))
                  hd)
              h)

  add_amount-IsWhole :
      (e : GroupExpense) (total : Option ℤ) (ps : Pairwise)
      → IsWholeExpense e
      → IsWholeBuckets ps
      → IsWholeBuckets (add_amount trim_upper member_ids e total ps)
  add_amount-IsWhole e none ps he h = h
  add_amount-IsWhole e (some total) ps he h =
      let currency = currency_bucket trim_upper member_ids e.currency in
      let opened = init_member_pairs currency ps in
      either-IsWhole (includes_id member_ids e.paid_by)
        (add_splits trim_upper member_ids currency e.paid_by total e.splits opened) ps
        (add_splits-IsWhole currency e.paid_by total e.splits opened he
          (init_member_pairs-IsWhole currency ps h))
        h

  add_expense-IsWhole :
      (e : GroupExpense) (ps : Pairwise)
      → IsWholeExpense e
      → IsWholeBuckets ps
      → IsWholeBuckets (add_expense trim_upper member_ids e ps)
  unfolding add_expense
  add_expense-IsWhole e ps he h =
      either-IsWhole e.is_pending ps
        (add_amount trim_upper member_ids e (usable_amount e.amount) ps) h
        (add_amount-IsWhole e (usable_amount e.amount) ps he h)

  apply_settlement-IsWhole :
      (s : SettlementProposal) (ps : Pairwise)
      → IsWholeSettlement s
      → IsWholeBuckets ps
      → IsWholeBuckets (apply_settlement trim_upper member_ids s ps)
  unfolding apply_settlement
  apply_settlement-IsWhole s ps hs h =
      let currency =
        settlement_currency trim_upper member_ids (currency_bucket trim_upper member_ids s.currency)
          ps in
      let paid = pay_debt s.from_user_id s.to_user_id (settled_amount s) in
      either-IsWhole _ ps (update_debts currency paid (init_member_pairs currency ps)) h (
        update_debts-IsWhole currency paid (init_member_pairs currency ps)
          (λ d hd.
            pay_debt-IsWhole s.from_user_id s.to_user_id (settled_amount s) d
              (settled_amount-IsWhole s hs) hd)
          (init_member_pairs-IsWhole currency ps h))

  add_expenses-IsWhole :
      (es : List GroupExpense) (ps : Pairwise)
      → All IsWholeExpense es
      → IsWholeBuckets ps
      → IsWholeBuckets (add_expenses trim_upper member_ids es ps)
  add_expenses-IsWhole [] ps he h = h
  add_expenses-IsWhole (e ∷ es) ps (he, hs) h =
      add_expenses-IsWhole es (add_expense trim_upper member_ids e ps) hs
        (add_expense-IsWhole e ps he h)

  apply_settlements-IsWhole :
      (ss : List SettlementProposal) (ps : Pairwise)
      → All IsWholeSettlement ss
      → IsWholeBuckets ps
      → IsWholeBuckets (apply_settlements trim_upper member_ids ss ps)
  apply_settlements-IsWhole [] ps hs h = h
  apply_settlements-IsWhole (s ∷ ss) ps (hs, hss) h =
      apply_settlements-IsWhole ss (apply_settlement trim_upper member_ids s ps) hss
        (apply_settlement-IsWhole s ps hs h)

  net_row-IsWhole :
      (a : ℕ) (bs : List ℕ) (d : Debts)
      → IsWholeDebts d
      → IsWholeDebts (net_row trim_upper member_ids a bs d)
  net_row-IsWhole a [] d h = h
  net_row-IsWhole a (b ∷ bs) d h = net_row-IsWhole a bs (net_pair a b d) (net_pair-IsWhole a b d h)

  net_rows-IsWhole :
      (ids : List ℕ) (d : Debts)
      → IsWholeDebts d
      → IsWholeDebts (net_rows trim_upper member_ids ids d)
  net_rows-IsWhole [] d h = h
  net_rows-IsWhole (a ∷ ids) d h =
      net_rows-IsWhole ids (net_row trim_upper member_ids a member_ids d)
        (net_row-IsWhole a member_ids d h)

  net_buckets-IsWhole :
      (ps : Pairwise) → IsWholeBuckets ps → IsWholeBuckets (net_buckets trim_upper member_ids ps)
  net_buckets-IsWhole [] h = tt
  net_buckets-IsWhole (b ∷ ps) (hb, hs) =
      (net_rows-IsWhole member_ids b.debts hb, net_buckets-IsWhole ps hs)

  -- The table of debts is in whole cents if the amounts that it is made of are.
  pub pairwise_debts-IsWhole :
      (es : List GroupExpense) (ss : List SettlementProposal)
      → All IsWholeExpense es
      → All IsWholeSettlement ss
      → IsWholeBuckets (pairwise_debts trim_upper member_ids es ss)
  unfolding pairwise_debts
  pairwise_debts-IsWhole es ss he hs =
      let ps = add_expenses trim_upper member_ids es (init_member_pairs "default" []) in
      net_buckets-IsWhole (apply_settlements trim_upper member_ids ss ps) (
        apply_settlements-IsWhole ss ps hs (
          add_expenses-IsWhole es (init_member_pairs "default" []) he
            (init_member_pairs-IsWhole "default" [] tt)))
