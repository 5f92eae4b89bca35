-- ===== src/Transfers/Engine.antt =====
-- `generateMinimalTransfers`, on amounts in thousandths of a cent. Creditors and debtors have
-- positive amounts, so they are naturals.
use Prim.Native.String.{String}
use coldfi.Prelude.{
  ℕ, zero, suc, ◌+◌, ◌-◌, min, ltb, Option, none, some, List, [], ◌∷◌, ◌++◌, map, select, length, ℤ,
  pos, pos_part, neg_part, ltb_ℤ, if◌then◌else◌,
}
use coldfi.Money.{round_cents}
use coldfi.Clock.{add_all}

-- what the function reads of a `DetailedBalance`
pub record Balance : Type 0 where
  pub user_id : ℕ
  pub net : ℤ

pub record Party : Type 0 where
  pub user_id : ℕ
  pub amount : ℕ

pub record TransferProposal : Type 0 where
  pub from_user_id : ℕ
  pub to_user_id : ℕ
  pub amount : ℕ
  pub currency : String
  pub related_expense_ids : List ℕ

pub record TransferResult : Type 0 where
  pub transfers : List TransferProposal
  pub total_transfers : ℕ
  pub total_amount : ℕ

-- 0.001, in thousandths of a cent
abbrev pub tolerance : ℕ
tolerance = 100

-- the loop over `balances`: the rounded ones that are not zero
abbrev pub net_balances : List Balance → List Balance
net_balances [] = []
net_balances (b ∷ bs) =
    let r = round_cents b.net in
    let rest = net_balances bs in
    if ltb tolerance (pos_part r + neg_part r) then record b { net = r } ∷ rest else rest

-- `sort((a, b) => b.amount - a.amount)`: descending, and stable
abbrev pub insert : Party → List Party → List Party
insert p [] = p ∷ []
insert p (q ∷ qs) = let rest = insert p qs in if ltb p.amount q.amount then q ∷ rest else p ∷ q ∷ qs

abbrev pub sort : List Party → List Party
sort [] = []
sort (p ∷ ps) = insert p (sort ps)

abbrev pub credit_of : Balance → Party
credit_of b = record { user_id = b.user_id; amount = pos_part b.net }

abbrev pub debt_of : Balance → Party
debt_of b = record { user_id = b.user_id; amount = neg_part b.net }

unfoldable pub creditors : List Balance → List Party
creditors bs = sort (map credit_of (select (λ b. ltb_ℤ (pos 0) b.net) (net_balances bs)))

unfoldable pub debtors : List Balance → List Party
debtors bs = sort (map debt_of (select (λ b. ltb_ℤ b.net (pos 0)) (net_balances bs)))

-- `Math.round(value * 100) / 100` on an amount that is not negative
abbrev pub rounded : ℕ → ℕ
rounded n = pos_part (round_cents (pos n))

-- What is left of the list once the first party has settled an amount; the index moves on when
-- less than 0.001 is left.
abbrev pub advance : Party → ℕ → List Party → List Party
advance p settled ps =
    if ltb (p.amount - settled) tolerance then ps else record p { amount = p.amount - settled } ∷ ps

abbrev pub total : List TransferProposal → ℕ
total [] = 0
total (t ∷ ts) = t.amount + total ts

abbrev pub result_of : Option (List TransferProposal) → Option TransferResult
result_of none = none
result_of (some ts) =
    some record { transfers = ts; total_transfers = length ts; total_amount = rounded (total ts) }

module _ (currency : String) (expenses_of : ℕ → List ℕ) where
  abbrev pub transfer : Party → Party → ℕ → TransferProposal
  transfer creditor debtor amount = record {
    from_user_id = debtor.user_id;
    to_user_id = creditor.user_id;
    amount = amount;
    currency = currency;
    related_expense_ids = add_all [] (expenses_of debtor.user_id ++ expenses_of creditor.user_id);
  }

  -- a transfer is recorded when its rounded amount is positive
  abbrev pub record_transfer :
      Party → Party → Option (List TransferProposal) → Option (List TransferProposal)
  record_transfer creditor debtor none = none
  record_transfer creditor debtor (some rest) =
      let amount = rounded (min creditor.amount debtor.amount) in
      if ltb 0 amount then some (transfer creditor debtor amount ∷ rest) else some rest

  -- The `while` loop, on what the two indices have left; `none` when the fuel is used up.
  unfoldable pub settle_loop : ℕ → List Party → List Party → Option (List TransferProposal)
  settle_loop fuel [] ds = some []
  settle_loop fuel (c ∷ cs) [] = some []
  settle_loop zero (c ∷ cs) (d ∷ ds) = none
  settle_loop (suc fuel) (c ∷ cs) (d ∷ ds) =
      let settled = min c.amount d.amount in
      record_transfer c d (settle_loop fuel (advance c settled cs) (advance d settled ds))

  -- One unit of fuel per creditor and debtor.
  unfoldable pub generate_minimal_transfers : List Balance → Option TransferResult
  generate_minimal_transfers balances =
      let cs = creditors balances in
      let ds = debtors balances in result_of (settle_loop (length cs + length ds) cs ds)
