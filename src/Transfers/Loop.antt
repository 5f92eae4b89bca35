-- ===== src/Transfers/Loop.antt =====
-- What the loop of `generateMinimalTransfers` settles.
use Prim.Native.String.{String}
use coldfi.Prelude.{
  ℕ, zero, suc, ◌+◌, ◌-◌, ◌%◌, ◌≤◌, ◌≡◌, refl, sym, min, ◌==◌, ltb, some, List, [], ◌∷◌, length,
  All, if◌then◌else◌, arith,
}
use coldfi.Money.{round_cents}
use coldfi.Transfers.Engine.{
  Party, TransferProposal, advance, rounded, transfer, settle_loop, total,
}

abbrev pub IsCents : Party → Type 0
IsCents p = p.amount % 1000 ≡ 0

abbrev pub sum : List Party → ℕ
sum [] = 0
sum (p ∷ ps) = p.amount + sum ps

-- what a user has in a list of parties
abbrev pub share : ℕ → Party → ℕ
share user p = if p.user_id == user then p.amount else 0

abbrev pub held : ℕ → List Party → ℕ
held user [] = 0
held user (p ∷ ps) = share user p + held user ps

-- what a user gets and gives by the transfers
abbrev pub received : ℕ → List TransferProposal → ℕ
received user [] = 0
received user (t ∷ ts) = (if t.to_user_id == user then t.amount else 0) + received user ts

abbrev pub paid : ℕ → List TransferProposal → ℕ
paid user [] = 0
paid user (t ∷ ts) = (if t.from_user_id == user then t.amount else 0) + paid user ts

pub rounded-cents : (n : ℕ) → n % 1000 ≡ 0 → rounded n ≡ n
unfolding round_cents
rounded-cents n h = omega arith

s-whole : (c d : Party) → IsCents c → IsCents d → min c.amount d.amount % 1000 ≡ 0
s-whole c d wc wd = ground arith

-- The first party has settled that amount, and nobody else anything.
module _ (p : Party) (settled : ℕ) (ps : List Party) (c : IsCents p) (whole : settled % 1000 ≡ 0)
    (le : settled ≤ p.amount) where
  sum-advance : sum (advance p settled ps) + settled ≡ p.amount + sum ps
  sum-advance = ground arith

  held-advance :
      (user : ℕ)
      → held user (advance p settled ps) + (if p.user_id == user then settled else 0)
        ≡ share user p + held user ps
  held-advance user = ground arith

  advance-IsCents : All IsCents ps → All IsCents (advance p settled ps)
  advance-IsCents h = ground arith

  length-advance : length (advance p settled ps) ≤ suc (length ps)
  length-advance = ground arith

-- The two lists of a round get shorter by one at least: one of the two parties is done.
length-advance_both :
    (c d : Party) (cs ds : List Party)
    → length (advance c (min c.amount d.amount) cs) + length (advance d (min c.amount d.amount) ds)
      ≤ suc (length cs + length ds)
length-advance_both c d cs ds = ground arith

-- what the transfers of a run have to do with its creditors and debtors
abbrev pub Settles : List Party → List Party → List TransferProposal → Type 0
Settles cs ds ts =
    (total ts ≡ min (sum cs) (sum ds))
    × (length ts ≤ length cs + length ds - 1)
    × ((user : ℕ) → sum cs ≤ sum ds → received user ts ≡ held user cs)
    × ((user : ℕ) → sum ds ≤ sum cs → paid user ts ≡ held user ds)

held-empty : (user : ℕ) (ps : List Party) → sum ps ≡ 0 → held user ps ≡ 0
held-empty user [] h = refl
held-empty user (p ∷ ps) h = ground (arith, held-empty user ps)

module _ (currency : String) (expenses_of : ℕ → List ℕ) where
  -- the transfers of a round, and of the rounds behind it
  abbrev more : Party → Party → List TransferProposal → List TransferProposal
  more c d ts =
      let amount = rounded (min c.amount d.amount) in
      if ltb 0 amount then transfer currency expenses_of c d amount ∷ ts else ts

  module _ (c d : Party) (cs ds : List Party) (wc : IsCents c) (wd : IsCents d)
      (ts : List TransferProposal)
      (v : Settles
        (advance c (min c.amount d.amount) cs)
        (advance d (min c.amount d.amount) ds)
        ts) where
    abbrev s : ℕ
    s = min c.amount d.amount

    s-cents : s % 1000 ≡ 0
    s-cents = s-whole c d wc wd

    total-more : total (more c d ts) ≡ s + total ts
    total-more = ground (arith, rounded-cents s s-cents)

    received-more :
        (user : ℕ)
        → received user (more c d ts) ≡ (if c.user_id == user then s else 0) + received user ts
    received-more user = ground (arith, rounded-cents s s-cents)

    paid-more :
        (user : ℕ) → paid user (more c d ts) ≡ (if d.user_id == user then s else 0) + paid user ts
    paid-more user = ground (arith, rounded-cents s s-cents)

    length-more : length (more c d ts) ≤ suc (length ts)
    length-more = ground arith

    more-Settles : Settles (c ∷ cs) (d ∷ ds) (more c d ts)
    more-Settles =
        let (all, count, gets, gives) = v in
        let sc = sum-advance c s cs wc s-cents (omega arith) in
        let sd = sum-advance d s ds wd s-cents (omega arith) in
        (
          omega (arith, total-more, all, sc, sd),
          count_more,
          λ user k. omega (
            arith,
            received-more user,
            gets user (omega (arith, sc, sd, k)),
            held-advance c s cs wc s-cents (omega arith) user,
          ),
          λ user k. omega (
            arith,
            paid-more user,
            gives user (omega (arith, sc, sd, k)),
            held-advance d s ds wd s-cents (omega arith) user,
          ),
        )
      where
        count_more : length (more c d ts) ≤ length (c ∷ cs) + length (d ∷ ds) - 1
        count_more = omega (arith, length-more, v.1, length-advance_both c d cs ds)

  pub settle_loop-Settles :
      (fuel : ℕ) (cs ds : List Party)
      → length cs + length ds ≤ fuel
      → All IsCents cs
      → All IsCents ds
      → (ts : List TransferProposal) × (settle_loop currency expenses_of fuel cs ds ≡ some ts)
        × Settles cs ds ts
  unfolding settle_loop
  settle_loop-Settles fuel [] ds h wc wd = (
    [],
    refl,
    (ground arith, omega arith, λ u k. refl, λ u k. sym (held-empty u ds (omega (arith, k)))),
  )
  settle_loop-Settles fuel (c ∷ cs) [] h wc wd = (
    [],
    refl,
    (ground arith, omega arith, λ u k. sym (held-empty u (c ∷ cs) (omega (arith, k))), λ u k. refl),
  )
  settle_loop-Settles zero (c ∷ cs) (d ∷ ds) h wc wd = absurd (omega (arith, h))
  settle_loop-Settles (suc fuel) (c ∷ cs) (d ∷ ds) h (wc, wcs) (wd, wds) =
      let settled = min c.amount d.amount in
      let (ts, runs, v) =
        settle_loop-Settles fuel (advance c settled cs) (advance d settled ds)
          (omega (arith, length-advance_both c d cs ds, h))
          (advance-IsCents c settled cs wc (s-whole c d wc wd) (omega arith) wcs)
          (advance-IsCents d settled ds wd (s-whole c d wc wd) (omega arith) wds) in
      (more c d ts, rw runs (ground arith), more-Settles c d cs ds wc wd ts v)
