-- ===== src/Balances/Conservation.antt =====
-- The balances of a group sum to zero, and `generateMinimalTransfers` settles them.
use Prim.Native.String.{String}
use coldfi.Prelude.{
  ℕ, ◌+◌, ◌==◌, ◌≡◌, refl, ◌∙◌, some, List, [], ◌∷◌, All, ℤ, pos, pos_part, neg_part, ◌+ℤ◌, ◌-ℤ◌,
  int_laws, parts_of_eq, ltb_ℤ, if◌then◌else◌, arith, Bool-cases, inl, inr,
}
use coldfi.Money.{IsWhole, round_cents_nearest, round_cents-IsWhole}
use coldfi.Settlement.Types.{SettlementProposal}
use coldfi.Balances.Types.{GroupExpense, DetailedBalance}
use coldfi.Balances.Debts.{Pairwise}
use coldfi.Balances.Engine.{
  owed_in_all, when_positive, total_owed, total_owes, balances_of, pairwise_debts,
  compute_net_balances,
}
use coldfi.Balances.Whole.{pairwise_debts-IsWhole}
use coldfi.Balances.WholeDebts.{
  IsWholeExpense, IsWholeSettlement, IsWholeBuckets, +ℤ-IsWhole, -ℤ-IsWhole,
}
use coldfi.Transfers.Engine.{Balance, TransferResult, generate_minimal_transfers}
use coldfi.Transfers.Loop.{received, paid}
use coldfi.Transfers.Settled.{credit, debt, all_credit, all_debt, generate_minimal_transfers_settle}

module _ (ps : Pairwise) where
  abbrev exact_net : ℕ → List ℕ → ℤ
  exact_net id others = total_owed ps id others -ℤ total_owes ps id others

  abbrev exact_nets : List ℕ → List ℕ → ℤ
  exact_nets [] others = pos 0
  exact_nets (id ∷ ids) others = exact_net id others +ℤ exact_nets ids others

  -- what one user's row adds to the nets of the others
  abbrev flow : ℕ → ℕ → ℤ
  flow id other =
      if other == id
      then pos 0
      else when_positive (owed_in_all other id ps) -ℤ when_positive (owed_in_all id other ps)

  abbrev column : ℕ → List ℕ → ℤ
  column other [] = pos 0
  column other (id ∷ ids) = flow id other +ℤ column other ids

  exact_net-cons :
      (id other : ℕ) (others : List ℕ)
      → exact_net id (other ∷ others) ≡ flow id other +ℤ exact_net id others
  exact_net-cons id other others = elim (Bool-cases (other == id)) [
    | inl t ↦ rw t (omega int_laws)
    | inr f ↦ rw f (omega int_laws)
  ]

  same_test : (a b : ℕ) → (a == b) ≡ (b == a)
  same_test a b = ground arith

  flow-swap : (a b : ℕ) → flow a b +ℤ flow b a ≡ pos 0
  flow-swap a b = elim (Bool-cases (b == a)) [
    | inl t ↦ rw (t, same_test a b ∙ t) (omega int_laws)
    | inr f ↦ rw (f, same_test a b ∙ f) (omega int_laws)
  ]

  column-exact_net : (other : ℕ) (ids : List ℕ) → column other ids +ℤ exact_net other ids ≡ pos 0
  column-exact_net other [] = omega int_laws
  column-exact_net other (id ∷ ids) =
      rw (exact_net-cons other id ids) (
        omega
          (int_laws, parts_of_eq (column-exact_net other ids), parts_of_eq (flow-swap id other)))

  exact_nets-cons :
      (ids : List ℕ) (other : ℕ) (others : List ℕ)
      → exact_nets ids (other ∷ others) ≡ column other ids +ℤ exact_nets ids others
  exact_nets-cons [] other others = omega int_laws
  exact_nets-cons (id ∷ ids) other others =
      rw (exact_net-cons id other others, exact_nets-cons ids other others) (omega int_laws)

  exact_nets-nil : (ids : List ℕ) → exact_nets ids [] ≡ pos 0
  exact_nets-nil [] = refl
  exact_nets-nil (id ∷ ids) = omega (int_laws, parts_of_eq (exact_nets-nil ids))

  exact_nets-swap :
      (rows columns : List ℕ) → exact_nets rows columns +ℤ exact_nets columns rows ≡ pos 0
  exact_nets-swap [] columns = omega (int_laws, parts_of_eq (exact_nets-nil columns))
  exact_nets-swap (r ∷ rows) columns = rw (exact_nets-cons columns r rows) (
      omega (
        int_laws,
        parts_of_eq (exact_nets-swap rows columns),
        parts_of_eq (column-exact_net r columns),
      ))

  exact_nets-zero : (ids : List ℕ) → exact_nets ids ids ≡ pos 0
  exact_nets-zero ids = omega (int_laws, parts_of_eq (exact_nets-swap ids ids))

  owed_in_all-IsWhole : (i j : ℕ) (qs : Pairwise) → IsWholeBuckets qs → IsWhole (owed_in_all i j qs)
  owed_in_all-IsWhole i j [] h = (refl, refl)
  owed_in_all-IsWhole i j (b ∷ qs) (hb, hs) =
      +ℤ-IsWhole (b.debts i j) (owed_in_all i j qs) (hb i j) (owed_in_all-IsWhole i j qs hs)

  when_positive-IsWhole : (v : ℤ) → IsWhole v → IsWhole (when_positive v)
  when_positive-IsWhole v h = elim (Bool-cases (ltb_ℤ (pos 0) v)) [
    | inl t ↦ rw t h
    | inr f ↦ rw f (refl, refl)
  ]

  flow-IsWhole : (id other : ℕ) → IsWholeBuckets ps → IsWhole (flow id other)
  flow-IsWhole id other h = elim (Bool-cases (other == id)) [
    | inl t ↦ rw t (refl, refl)
    | inr f ↦ rw f (
        -ℤ-IsWhole (when_positive (owed_in_all other id ps))
          (when_positive (owed_in_all id other ps))
          (when_positive-IsWhole (owed_in_all other id ps) (owed_in_all-IsWhole other id ps h))
          (when_positive-IsWhole (owed_in_all id other ps) (owed_in_all-IsWhole id other ps h)))
  ]

  exact_net-IsWhole : (id : ℕ) (others : List ℕ) → IsWholeBuckets ps → IsWhole (exact_net id others)
  exact_net-IsWhole id [] h = -ℤ-IsWhole (pos 0) (pos 0) (refl, refl) (refl, refl)
  exact_net-IsWhole id (other ∷ others) h = rw (exact_net-cons id other others) (
      +ℤ-IsWhole (flow id other) (exact_net id others) (flow-IsWhole id other h)
        (exact_net-IsWhole id others h))

abbrev pub sum_nets : List DetailedBalance → ℤ
sum_nets [] = pos 0
sum_nets (b ∷ bs) = b.net +ℤ sum_nets bs

balances_of-exact :
    (ps : Pairwise) (others ids : List ℕ)
    → IsWholeBuckets ps
    → sum_nets (balances_of ps others ids) ≡ exact_nets ps ids others
balances_of-exact ps others [] h = refl
balances_of-exact ps others (id ∷ ids) h =
    rw
      (
        round_cents-IsWhole (exact_net ps id others) (exact_net-IsWhole ps id others h),
        balances_of-exact ps others ids h,
      )
      refl

-- what `generateMinimalTransfers` reads of the balances
abbrev pub balances_read : List DetailedBalance → List Balance
balances_read [] = []
balances_read (b ∷ bs) = record { user_id = b.user_id; net = b.net } ∷ balances_read bs

balances_of-IsWhole :
    (ps : Pairwise) (others ids : List ℕ)
    → All (λ (b : DetailedBalance). IsWhole b.net) (balances_of ps others ids)
balances_of-IsWhole ps others [] = tt
balances_of-IsWhole ps others (id ∷ ids) =
    let (p, n, _, _) = round_cents_nearest (exact_net ps id others) in
    ((p, n), balances_of-IsWhole ps others ids)

read_sums :
    (bs : List DetailedBalance)
    → All (λ (b : DetailedBalance). IsWhole b.net) bs
    → all_credit (balances_read bs) + neg_part (sum_nets bs)
      ≡ all_debt (balances_read bs) + pos_part (sum_nets bs)
read_sums [] h = refl
read_sums (b ∷ bs) (hb, hs) = rw (round_cents-IsWhole b.net hb) (omega (int_laws, read_sums bs hs))

module _ (trim_upper : String → String) (es : List GroupExpense) (ss : List SettlementProposal)
    (member_ids : List ℕ) (he : All IsWholeExpense es) (hs : All IsWholeSettlement ss) where
  -- If the fixed amounts of the splits and the amounts of the settlements are in whole cents, then
  -- whatever the expenses, the settlements, their currencies and the members are, the net balances
  -- sum to zero.
  pub compute_net_balances-sum : sum_nets (compute_net_balances trim_upper es ss member_ids) ≡ pos 0
  unfolding compute_net_balances
  compute_net_balances-sum =
      let ps = pairwise_debts trim_upper member_ids es ss in
      balances_of-exact ps member_ids member_ids
        (pairwise_debts-IsWhole trim_upper member_ids es ss he hs)
      ∙ exact_nets-zero ps member_ids

  -- If the fixed amounts of the splits and the amounts of the settlements are in whole cents,
  -- then the transfers that `generateMinimalTransfers` makes of the balances of
  -- `computeNetBalances` settle the group: every user gets and gives what the user's balance
  -- says.
  pub compute_net_balances_settled :
      (currency : String) (expenses_of : ℕ → List ℕ) (user : ℕ)
      → let bs = balances_read (compute_net_balances trim_upper es ss member_ids) in
        (r : TransferResult) × (generate_minimal_transfers currency expenses_of bs ≡ some r)
        × (received user r.transfers ≡ credit user bs)
        × (paid user r.transfers ≡ debt user bs)
  unfolding compute_net_balances
  compute_net_balances_settled currency expenses_of user =
      let ps = pairwise_debts trim_upper member_ids es ss in
      let bs = balances_of ps member_ids member_ids in
      let zero_sum = compute_net_balances-sum in
      let sums = read_sums bs (balances_of-IsWhole ps member_ids member_ids) in
      generate_minimal_transfers_settle currency expenses_of (balances_read bs) user
        (omega (arith, sums, parts_of_eq zero_sum))
