-- ===== src/Balances/Tests.antt =====
-- Concrete inputs for the theorems on balances: user 1 paid 30.00 for users 1, 2 and 3, in equal
-- parts, and user 2 has settled 4.00.
use Prim.Native.String.{String}
use coldfi.Prelude.{ℕ, ◌≡◌, refl, false, none, some, [], ◌∷◌, pos, ◌-ℤ◌, ◌+ℤ◌}
use coldfi.Money.{round_cents}
use coldfi.Settlement.Types.{SettlementStatus, SettlementProposal}
use coldfi.Balances.Types.{ExpenseSplit, GroupExpense, get_split_amount}
use coldfi.Balances.Debts.{init_member_pairs, bucket_has_debt, pay_debt, net_pair}
use coldfi.Balances.Engine.{
  pairwise_debts, add_expense, apply_settlement, settlement_currency, currency_bucket,
  compute_net_balances,
}
use coldfi.Balances.Conservation.{
  sum_nets, balances_read, compute_net_balances-sum, compute_net_balances_settled,
}
use coldfi.Balances.Position.{position}
use coldfi.Balances.Meaning.{pairwise_debts-position}
use coldfi.Transfers.Engine.{TransferResult, generate_minimal_transfers}
use coldfi.Transfers.Loop.{received, paid}

abbrev as_it_is : String → String
as_it_is s = s

abbrev third : ℕ → ExpenseSplit
third user = record {
  member_id = user;
  ratio = record { numerator = 1; denominator = 3 };
  fixed_amount = none;
  is_paid = false;
}

abbrev dinner : GroupExpense
dinner = record {
  id = 7;
  amount = some (pos 3_000_000);
  currency = "EUR";
  paid_by = 1;
  is_pending = false;
  splits = third 1 ∷ third 2 ∷ third 3 ∷ [];
}

abbrev four_paid : SettlementProposal
four_paid = record {
  id = "s";
  group_id = 1;
  from_user_id = 2;
  to_user_id = 1;
  amount = pos 400_000;
  currency = "EUR";
  status = SettlementStatus.approved;
  proposed_at = 5;
  marked_paid_at = some 6;
  approved_at = some 7;
  rejected_at = none;
  cancelled_at = none;
  note = none;
  related_expense_ids = [];
  superseded_by = none;
  paid_amount = none;
  created_at = 5;
  updated_at = 7;
}

compute_net_balances-sum_example :
    sum_nets (compute_net_balances as_it_is (dinner ∷ []) (four_paid ∷ []) (1 ∷ 2 ∷ 3 ∷ [])) ≡ pos 0
compute_net_balances-sum_example =
    compute_net_balances-sum as_it_is (dinner ∷ []) (four_paid ∷ []) (1 ∷ 2 ∷ 3 ∷ [])
      ((tt, (tt, (tt, tt))), tt) (((refl, refl), tt), tt)

compute_net_balances_settled_example :
    (r : TransferResult) × (generate_minimal_transfers "EUR"
        (λ u. [])
        (balances_read
          (compute_net_balances as_it_is (dinner ∷ []) (four_paid ∷ []) (1 ∷ 2 ∷ 3 ∷ [])))
      ≡ some r)
    × (received 1 r.transfers ≡ 1_600_000)
    × (paid 1 r.transfers ≡ 0)
unfolding compute_net_balances pairwise_debts add_expense apply_settlement settlement_currency
    currency_bucket init_member_pairs bucket_has_debt pay_debt net_pair get_split_amount round_cents
    ◌-ℤ◌ ◌+ℤ◌
compute_net_balances_settled_example =
    compute_net_balances_settled as_it_is (dinner ∷ []) (four_paid ∷ []) (1 ∷ 2 ∷ 3 ∷ [])
      ((tt, (tt, (tt, tt))), tt) (((refl, refl), tt), tt) "EUR" (λ u. []) 1

pairwise_debts-position_example :
    position (pairwise_debts as_it_is (1 ∷ 2 ∷ 3 ∷ []) (dinner ∷ []) (four_paid ∷ [])) 2 1
    ≡ pos 600_000
unfolding get_split_amount ◌-ℤ◌ ◌+ℤ◌
pairwise_debts-position_example =
    pairwise_debts-position as_it_is (1 ∷ 2 ∷ 3 ∷ []) 2 1 refl (dinner ∷ []) (four_paid ∷ [])
