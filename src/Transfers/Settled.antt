-- ===== src/Transfers/Settled.antt =====
-- What `generateMinimalTransfers` promises of the balances it is given.
use Prim.Native.String.{String}
use coldfi.Prelude.{
  ℕ, ◌+◌, ◌-◌, ◌%◌, ◌≤◌, ◌≡◌, refl, ◌∙◌, ap, min, ◌==◌, ltb, some, List, [], ◌∷◌, length, map,
  select, All, if◌then◌else◌, arith, pos, pos_part, neg_part, ltb_ℤ, Bool-cases, inl, inr,
}
use coldfi.Money.{round_cents, round_cents_nearest}
use coldfi.Transfers.Engine.{
  Balance, Party, TransferProposal, TransferResult, net_balances, insert, sort, credit_of, debt_of,
  creditors, debtors, rounded, settle_loop, total, result_of, generate_minimal_transfers,
}
use coldfi.Transfers.Loop.{
  IsCents, sum, held, received, paid, Settles, rounded-cents, settle_loop-Settles,
}

-- what a user is to get, and to give, in whole cents
abbrev pub credit : ℕ → List Balance → ℕ
credit user [] = 0
credit user (b ∷ bs) =
    (if b.user_id == user then pos_part (round_cents b.net) else 0) + credit user bs

abbrev pub debt : ℕ → List Balance → ℕ
debt user [] = 0
debt user (b ∷ bs) = (if b.user_id == user then neg_part (round_cents b.net) else 0) + debt user bs

abbrev pub all_credit : List Balance → ℕ
all_credit [] = 0
all_credit (b ∷ bs) = pos_part (round_cents b.net) + all_credit bs

abbrev pub all_debt : List Balance → ℕ
all_debt [] = 0
all_debt (b ∷ bs) = neg_part (round_cents b.net) + all_debt bs

-- what the sort keeps
abbrev Kept : List Party → List Party → Type 0
Kept ps qs =
    (sum ps ≡ sum qs)
    × (length ps ≡ length qs)
    × ((user : ℕ) → held user ps ≡ held user qs)
    × (All IsCents qs → All IsCents ps)

insert-Kept : (p : Party) (ps : List Party) → Kept (insert p ps) (p ∷ ps)
insert-Kept p [] = (refl, refl, λ u. refl, λ h. h)
insert-Kept p (q ∷ qs) =
    let (s, l, h, c) = insert-Kept p qs in
    elim (Bool-cases (ltb p.amount q.amount)) [
      | inl t ↦ rw t (
        omega (arith, s),
        omega (arith, l),
        λ u. omega (arith, h u),
        λ (a, (b, d)). (b, c (a, d)),
      )
      | inr f ↦ rw f (refl, refl, λ u. refl, λ h. h)
    ]

sort-Kept : (ps : List Party) → Kept (sort ps) ps
sort-Kept [] = (refl, refl, λ u. refl, λ h. h)
sort-Kept (p ∷ ps) =
    let (s, l, h, c) = sort-Kept ps in
    let (s', l', h', c') = insert-Kept p (sort ps) in
    (
      omega (arith, s, s'),
      omega (arith, l, l'),
      λ u. omega (arith, h u, h' u),
      λ (a, b). c' (a, c b),
    )

abbrev unsorted_credit : List Balance → List Party
unsorted_credit bs = map credit_of (select (λ b. ltb_ℤ (pos 0) b.net) (net_balances bs))

abbrev unsorted_debt : List Balance → List Party
unsorted_debt bs = map debt_of (select (λ b. ltb_ℤ b.net (pos 0)) (net_balances bs))

unsorted-sums :
    (bs : List Balance)
    → (sum (unsorted_credit bs) ≡ all_credit bs)
      × (sum (unsorted_debt bs) ≡ all_debt bs)
      × (length (unsorted_credit bs) + length (unsorted_debt bs) ≤ length (net_balances bs))
unsorted-sums [] = ground arith
unsorted-sums (b ∷ bs) = ground (arith, unsorted-sums bs, round_cents_nearest b.net)

unsorted-held :
    (user : ℕ) (bs : List Balance)
    → (held user (unsorted_credit bs) ≡ credit user bs)
      × (held user (unsorted_debt bs) ≡ debt user bs)
unsorted-held user [] = ground arith
unsorted-held user (b ∷ bs) = ground (arith, unsorted-held user bs, round_cents_nearest b.net)

unsorted-IsCents :
    (bs : List Balance) → All IsCents (unsorted_credit bs) × All IsCents (unsorted_debt bs)
unsorted-IsCents [] = (tt, tt)
unsorted-IsCents (b ∷ bs) = ground (arith, unsorted-IsCents bs, round_cents_nearest b.net)

sum-cents : (ps : List Party) → All IsCents ps → sum ps % 1000 ≡ 0
sum-cents [] h = refl
sum-cents (p ∷ ps) (c, h) = omega (arith, c, sum-cents ps h)

module _ (currency : String) (expenses_of : ℕ → List ℕ) (bs : List Balance) where
  loop-Settles :
      (ts : List TransferProposal) × (settle_loop currency expenses_of
          (length (creditors bs) + length (debtors bs))
          (creditors bs)
          (debtors bs)
        ≡ some ts)
      × Settles (creditors bs) (debtors bs) ts
  unfolding creditors debtors
  loop-Settles =
      let (wc, wd) = unsorted-IsCents bs in
      settle_loop-Settles currency expenses_of (length (creditors bs) + length (debtors bs))
        (creditors bs) (debtors bs) (omega arith) ((sort-Kept (unsorted_credit bs)).3 wc)
        ((sort-Kept (unsorted_debt bs)).3 wd)

  -- For any balances, the loop ends with a result; its total is the smaller of what is owed to
  -- the creditors and what the debtors owe, in whole cents; and if there are n users with a
  -- balance that is not zero, there are at most n - 1 transfers, and none if n is 0.
  pub generate_minimal_transfers_total :
      (r : TransferResult) × (generate_minimal_transfers currency expenses_of bs ≡ some r)
      × (r.total_amount ≡ min (all_credit bs) (all_debt bs))
      × (r.total_transfers ≤ length (net_balances bs) - 1)
  unfolding generate_minimal_transfers creditors debtors
  generate_minimal_transfers_total =
      let (ts, runs, (all, count, gets, gives)) = loop-Settles in
      let (sc, lc, hc, cc') = sort-Kept (unsorted_credit bs) in
      let (sd, ld, hd, cd) = sort-Kept (unsorted_debt bs) in
      let (ac, ad, n) = unsorted-sums bs in
      let wc = sum-cents (unsorted_credit bs) (unsorted-IsCents bs).0 in
      let wd = sum-cents (unsorted_debt bs) (unsorted-IsCents bs).1 in
      let even : total ts % 1000 ≡ 0 = omega (arith, all, sc, sd, wc, wd) in
      (
        record { transfers = ts; total_transfers = length ts; total_amount = rounded (total ts) },
        ap result_of runs,
        rounded-cents (total ts) even ∙ omega (arith, all, sc, sd, ac, ad),
        omega (arith, count, lc, ld, n),
      )

  -- If the rounded balances sum to zero, the transfers settle the group exactly: every user gets
  -- and gives, by the transfers, what the user's balance says to the cent.
  pub generate_minimal_transfers_settle :
      (user : ℕ)
      → all_credit bs ≡ all_debt bs
      → (r : TransferResult) × (generate_minimal_transfers currency expenses_of bs ≡ some r)
        × (received user r.transfers ≡ credit user bs)
        × (paid user r.transfers ≡ debt user bs)
  unfolding generate_minimal_transfers creditors debtors
  generate_minimal_transfers_settle user zero_sum =
      let (ts, runs, (all, count, gets, gives)) = loop-Settles in
      let (sc, lc, hc, cc') = sort-Kept (unsorted_credit bs) in
      let (sd, ld, hd, cd) = sort-Kept (unsorted_debt bs) in
      let (ac, ad, n) = unsorted-sums bs in
      let (uc, ud) = unsorted-held user bs in
      (
        record { transfers = ts; total_transfers = length ts; total_amount = rounded (total ts) },
        ap result_of runs,
        gets user (omega (arith, sc, sd, ac, ad, zero_sum)) ∙ hc user ∙ uc,
        gives user (omega (arith, sc, sd, ac, ad, zero_sum)) ∙ hd user ∙ ud,
      )
