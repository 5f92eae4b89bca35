-- ===== src/Balances/Engine.antt =====
-- The functions of packages/shared/src/engine/balanceCalculator.ts. `trim_upper` is
-- `value.trim().toUpperCase()`.
use Prim.Native.String.{String}
use text.Mathlib.Text.{◌==◌ as str_eq}
use coldfi.Prelude.{
  ℕ, ◌==◌, Bool, false, not, ◌&&◌, ◌||◌, Option, none, some, List, [], ◌∷◌, ◌++◌, any, select, find,
  is_some, ℤ, pos, ◌+ℤ◌, ◌-ℤ◌, ltb_ℤ, leb_ℤ, if◌then◌else◌,
}
use coldfi.Money.{round_cents}
use coldfi.Settlement.Types.{SettlementStatus, same_status, SettlementProposal}
use coldfi.Balances.Types.{
  ExpenseSplit, GroupExpense, DetailedBalance, BalanceWarning, unlinked_settlement,
  settlement_overlap, get_split_amount,
}
use coldfi.Balances.Debts.{
  Debts, Bucket, Pairwise, init_member_pairs, update_debts, bucket_has_debt, add_debt, pay_debt,
  net_pair,
}

abbrev pub includes_id : List ℕ → ℕ → Bool
includes_id ids id = any (λ i. i == id) ids

-- `expenseById.get(id)`: of several with one id, the last
abbrev pub expense_by_id : List GroupExpense → ℕ → Option GroupExpense
expense_by_id [] id = none
expense_by_id (e ∷ es) id =
    let later = expense_by_id es id in
    if is_some later then later else if e.id == id then some e else none

abbrev pub paid_split : SettlementProposal → ExpenseSplit → Bool
paid_split s split = split.member_id == s.from_user_id && split.is_paid

abbrev pub overlap_of : SettlementProposal → ℕ → Option GroupExpense → List BalanceWarning
overlap_of s id none = []
overlap_of s id (some e) =
    if any (paid_split s) e.splits then settlement_overlap s.id id ∷ [] else []

abbrev pub overlaps_of : List GroupExpense → SettlementProposal → List ℕ → List BalanceWarning
overlaps_of es s [] = []
overlaps_of es s (id ∷ ids) = overlap_of s id (expense_by_id es id) ++ overlaps_of es s ids

abbrev pub warnings_of : List GroupExpense → SettlementProposal → List ℕ → List BalanceWarning
warnings_of es s [] = unlinked_settlement s.id ∷ []
warnings_of es s (id ∷ ids) = overlaps_of es s (id ∷ ids)

unfoldable pub detect_settlement_overlap :
    List GroupExpense → List SettlementProposal → List BalanceWarning
detect_settlement_overlap es [] = []
detect_settlement_overlap es (s ∷ ss) =
    let rest = detect_settlement_overlap es ss in
    if same_status s.status SettlementStatus.approved
    then warnings_of es s s.related_expense_ids ++ rest
    else rest

-- `typeof amount !== 'number' || isNaN(amount) || amount <= 0`; `none` is an amount to skip.
abbrev pub usable_amount : Option ℤ → Option ℤ
usable_amount none = none
usable_amount (some v) = if leb_ℤ v (pos 0) then none else some v

abbrev pub positive_paid : Option ℤ → Bool
positive_paid none = false
positive_paid (some v) = ltb_ℤ (pos 0) v

abbrev pub or_zero : Option ℤ → ℤ
or_zero none = pos 0
or_zero (some v) = v

abbrev pub is_settled : SettlementProposal → Bool
is_settled s = same_status s.status SettlementStatus.approved

abbrev pub is_partial_settled : SettlementProposal → Bool
is_partial_settled s =
    same_status s.status SettlementStatus.superseded && positive_paid s.paid_amount

abbrev pub settled_amount : SettlementProposal → ℤ
settled_amount s = if is_partial_settled s then or_zero s.paid_amount else s.amount

module _ (trim_upper : String → String) (member_ids : List ℕ) where
  unfoldable pub currency_bucket : String → String
  currency_bucket currency = let c = trim_upper currency in if str_eq c "" then "default" else c

  abbrev pub add_split : String → ℕ → ℤ → ExpenseSplit → Pairwise → Pairwise
  add_split currency payer total split ps =
      let amount = get_split_amount total split in
      if split.is_paid || not (includes_id member_ids split.member_id) || leb_ℤ amount (pos 0)
      then ps
      else update_debts currency (add_debt split.member_id payer amount) ps

  abbrev pub add_splits : String → ℕ → ℤ → List ExpenseSplit → Pairwise → Pairwise
  add_splits currency payer total [] ps = ps
  add_splits currency payer total (s ∷ ss) ps =
      add_splits currency payer total ss (add_split currency payer total s ps)

  abbrev pub add_amount : GroupExpense → Option ℤ → Pairwise → Pairwise
  add_amount e none ps = ps
  add_amount e (some total) ps =
      let currency = currency_bucket e.currency in
      if includes_id member_ids e.paid_by
      then add_splits currency e.paid_by total e.splits (init_member_pairs currency ps)
      else ps

  -- one round of the loop over the expenses
  unfoldable pub add_expense : GroupExpense → Pairwise → Pairwise
  add_expense e ps = if e.is_pending then ps else add_amount e (usable_amount e.amount) ps

  -- `nonDefaultWithDebt.length === 1`: then that currency
  abbrev pub only_one : List Bucket → String → String
  only_one (b ∷ []) fallback = b.currency
  only_one _ fallback = fallback

  -- The currency that a settlement is booked in: one without a currency goes to the only currency
  -- with debts.
  unfoldable pub settlement_currency : String → Pairwise → String
  settlement_currency currency ps =
      if str_eq currency "default" && not (bucket_has_debt member_ids "default" ps)
      then only_one
          (select
            (λ (b : Bucket).
              not (str_eq b.currency "default") && bucket_has_debt member_ids b.currency ps)
            ps)
          currency
      else currency

  -- one round of the loop over the settlements
  unfoldable pub apply_settlement : SettlementProposal → Pairwise → Pairwise
  apply_settlement s ps =
      let currency = settlement_currency (currency_bucket s.currency) ps in
      if not (is_settled s || is_partial_settled s)
        || not (includes_id member_ids s.from_user_id && includes_id member_ids s.to_user_id)
      then ps
      else update_debts currency (pay_debt s.from_user_id s.to_user_id (settled_amount s))
          (init_member_pairs currency ps)

  abbrev pub add_expenses : List GroupExpense → Pairwise → Pairwise
  add_expenses [] ps = ps
  add_expenses (e ∷ es) ps = add_expenses es (add_expense e ps)

  abbrev pub apply_settlements : List SettlementProposal → Pairwise → Pairwise
  apply_settlements [] ps = ps
  apply_settlements (s ∷ ss) ps = apply_settlements ss (apply_settlement s ps)

  abbrev pub net_row : ℕ → List ℕ → Debts → Debts
  net_row a [] debts = debts
  net_row a (b ∷ bs) debts = net_row a bs (net_pair a b debts)

  abbrev pub net_rows : List ℕ → Debts → Debts
  net_rows [] debts = debts
  net_rows (a ∷ as') debts = net_rows as' (net_row a member_ids debts)

  abbrev pub net_buckets : Pairwise → Pairwise
  net_buckets [] = []
  net_buckets (b ∷ ps) = record b { debts = net_rows member_ids b.debts } ∷ net_buckets ps

  -- the table of debts that the balances are read from
  unfoldable pub pairwise_debts : List GroupExpense → List SettlementProposal → Pairwise
  pairwise_debts es ss =
      net_buckets (apply_settlements ss (add_expenses es (init_member_pairs "default" [])))

-- what one user owes another in all currencies
abbrev pub owed_in_all : ℕ → ℕ → Pairwise → ℤ
owed_in_all from to [] = pos 0
owed_in_all from to (b ∷ ps) = b.debts from to +ℤ owed_in_all from to ps

abbrev pub when_positive : ℤ → ℤ
when_positive v = if ltb_ℤ (pos 0) v then v else pos 0

-- `entries[id] = Math.round(amount * 100) / 100`, when the amount is positive
abbrev pub put : ℕ → ℤ → List (ℕ × ℤ) → List (ℕ × ℤ)
put id v [] = (id, v) ∷ []
put id v ((j, w) ∷ es) = if j == id then (id, v) ∷ es else (j, w) ∷ put id v es

abbrev pub put_positive : ℕ → ℤ → List (ℕ × ℤ) → List (ℕ × ℤ)
put_positive id v es = if ltb_ℤ (pos 0) v then put id (round_cents v) es else es

module _ (ps : Pairwise) (id : ℕ) where
  -- what the inner loop adds to `totalOwed` and takes as `totalOwes`, over the other users
  abbrev pub total_owed : List ℕ → ℤ
  total_owed [] = pos 0
  total_owed (other ∷ rest) =
      if other == id
      then total_owed rest
      else when_positive (owed_in_all other id ps) +ℤ total_owed rest

  abbrev pub total_owes : List ℕ → ℤ
  total_owes [] = pos 0
  total_owes (other ∷ rest) =
      if other == id
      then total_owes rest
      else when_positive (owed_in_all id other ps) +ℤ total_owes rest

  abbrev pub owes_entries : List ℕ → List (ℕ × ℤ) → List (ℕ × ℤ)
  owes_entries [] es = es
  owes_entries (other ∷ rest) es =
      owes_entries rest
        (if other == id then es else put_positive other (owed_in_all id other ps) es)

  abbrev pub owed_entries : List ℕ → List (ℕ × ℤ) → List (ℕ × ℤ)
  owed_entries [] es = es
  owed_entries (other ∷ rest) es =
      owed_entries rest
        (if other == id then es else put_positive other (owed_in_all other id ps) es)

  abbrev pub balance_of : List ℕ → DetailedBalance
  balance_of member_ids = record {
    user_id = id;
    net = round_cents (total_owed member_ids -ℤ total_owes member_ids);
    owes_to = owes_entries member_ids [];
    owed_by = owed_entries member_ids [];
  }

abbrev pub balances_of : Pairwise → List ℕ → List ℕ → List DetailedBalance
balances_of ps member_ids [] = []
balances_of ps member_ids (id ∷ ids) = balance_of ps id member_ids ∷ balances_of ps member_ids ids

unfoldable pub compute_net_balances :
    (String → String) → List GroupExpense → List SettlementProposal → List ℕ → List DetailedBalance
compute_net_balances trim_upper es ss member_ids =
    balances_of (pairwise_debts trim_upper member_ids es ss) member_ids member_ids

abbrev pub sum_entries : List (ℕ × ℤ) → ℤ
sum_entries [] = pos 0
sum_entries ((_, v) ∷ es) = v +ℤ sum_entries es

abbrev pub entries_sum : (DetailedBalance → List (ℕ × ℤ)) → Option DetailedBalance → ℤ
entries_sum f none = pos 0
entries_sum f (some b) = sum_entries (f b)

unfoldable pub get_total_owed : List DetailedBalance → ℕ → ℤ
get_total_owed bs user =
    entries_sum (λ b. b.owed_by) (find (λ (b : DetailedBalance). b.user_id == user) bs)

unfoldable pub get_total_debt : List DetailedBalance → ℕ → ℤ
get_total_debt bs user =
    entries_sum (λ b. b.owes_to) (find (λ (b : DetailedBalance). b.user_id == user) bs)
