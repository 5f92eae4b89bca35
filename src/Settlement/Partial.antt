-- ===== src/Settlement/Partial.antt =====
-- Partial payments: `markAsPaid` with less than the amount supersedes the proposal and hands back
-- a proposal for the remainder.
use Prim.Native.String.{String}
use coldfi.Prelude.{
  ℕ, ◌≡◌, refl, some, List, [], ◌∷◌, arith, ℤ, pos, negsuc, ◌+ℤ◌, ◌-ℤ◌, ◌≤ℤ◌, ◌<ℤ◌, int_laws,
}
use coldfi.Money.{num, IsWhole, round_cents, round_cents-IsWhole}
use coldfi.Settlement.Types.{
  SettlementStatus, SettlementProposal, ProposeSettlementInput, EngineError,
}
use coldfi.Settlement.Engine.{
  Proposed, propose_settlement, mark_as_paid, done, superseded_of, remainder_of,
}
use coldfi.Settlement.Consistent.{IsConsistent, mark_as_paid_remainder, remainder_of-IsConsistent}

-ℤ-IsWhole : (a b : ℤ) → IsWhole a → IsWhole b → b ≤ℤ a → pos 0 ≤ℤ b → IsWhole (a -ℤ b)
unfolding ◌-ℤ◌
-ℤ-IsWhole (pos a) (pos b) p q le nn = ground arith
-ℤ-IsWhole _ _ p q le nn = ground arith

module _ (show_time : ℕ → String) (now : ℕ) (s : SettlementProposal) (paid : ℤ) where
  -- Marking a proposal as paid with a positive amount below its own succeeds: it supersedes the
  -- proposal, and proposes the remainder.
  mark_as_paid-below :
      s.status ≡ SettlementStatus.proposed
      → pos 0 <ℤ paid
      → paid <ℤ s.amount
      → mark_as_paid show_time now s (some (num paid))
        ≡ done (superseded_of show_time now s paid) (some (remainder_of show_time now s paid))
  unfolding mark_as_paid
  mark_as_paid-below st p lt = ground arith

  remainder_exact :
      IsWhole s.amount
      → IsWhole paid
      → pos 0 <ℤ paid
      → paid <ℤ s.amount
      → (remainder_of show_time now s paid).amount ≡ s.amount -ℤ paid
  unfolding remainder_of
  remainder_exact ws wp p lt =
      round_cents-IsWhole _ (-ℤ-IsWhole s.amount paid ws wp (omega arith) (omega arith))

  -- the two proposals are about the same debt
  abbrev pub SameDebt : SettlementProposal → Type 0
  SameDebt r =
      (r.from_user_id ≡ s.from_user_id)
      × (r.to_user_id ≡ s.to_user_id)
      × (r.currency ≡ s.currency)
      × (r.group_id ≡ s.group_id)
      × (r.related_expense_ids ≡ s.related_expense_ids)

  remainder_of-SameDebt : SameDebt (remainder_of show_time now s paid)
  unfolding remainder_of
  remainder_of-SameDebt = (refl, refl, refl, refl, refl)

  -- Marking a proposed settlement that satisfies the invariant of the engine as paid with a
  -- positive amount below its own, both in whole cents, succeeds. The old proposal is superseded
  -- with the paid amount recorded; the new one is between the same users, in the same group and
  -- currency, for the same expenses. What was paid and what is proposed anew add up to the amount
  -- exactly, and the new proposal satisfies the invariant of the engine, in whole cents.
  pub mark_as_paid_partial :
      IsConsistent s
      → s.status ≡ SettlementStatus.proposed
      → IsWhole s.amount
      → IsWhole paid
      → pos 0 <ℤ paid
      → paid <ℤ s.amount
      → let u = superseded_of show_time now s paid in
        let r = remainder_of show_time now s paid in
        (mark_as_paid show_time now s (some (num paid)) ≡ done u (some r))
        × (u.status ≡ SettlementStatus.superseded)
        × (u.paid_amount ≡ some paid)
        × (paid +ℤ r.amount ≡ s.amount)
        × IsWhole r.amount
        × IsConsistent r
        × SameDebt r
  unfolding superseded_of
  mark_as_paid_partial c st ws wp p lt =
      let e = remainder_exact ws wp p lt in
      (
        mark_as_paid-below st p lt,
        refl,
        refl,
        rw e (omega int_laws),
        rw e (-ℤ-IsWhole s.amount paid ws wp (omega arith) (omega arith)),
        remainder_of-IsConsistent show_time now s paid (rw e (omega int_laws)),
        remainder_of-SameDebt,
      )

-- A proposal is paid in parts: each part in whole cents, on the remainder of the one before. The
-- list has the paid amounts, the last one first.
pub data PaidInParts (show_time : ℕ → String) (s : SettlementProposal)
    : List ℤ → SettlementProposal → Type 0 where
  untouched : PaidInParts show_time s [] s
  part :
      (now : ℕ) (paid : ℤ) (paids : List ℤ) (t r : SettlementProposal)
      → PaidInParts show_time s paids t
      → IsWhole paid
      → (mark_as_paid show_time now t (some (num paid))).remainder_proposal ≡ some r
      → PaidInParts show_time s (paid ∷ paids) r

abbrev pub sum : List ℤ → ℤ
sum [] = pos 0
sum (x ∷ xs) = x +ℤ sum xs

regroup :
    (paid before rest t all : ℤ)
    → paid +ℤ rest ≡ t
    → before +ℤ t ≡ all
    → paid +ℤ before +ℤ rest ≡ all
regroup paid before rest t all h k = rw (← k) (rw (← h) (omega int_laws))

part_exact :
    (show_time : ℕ → String) (now : ℕ) (paid : ℤ) (t r : SettlementProposal)
    → IsWhole t.amount
    → IsWhole paid
    → (mark_as_paid show_time now t (some (num paid))).remainder_proposal ≡ some r
    → (paid +ℤ r.amount ≡ t.amount) × IsWhole r.amount
part_exact show_time now paid t r wt wp h =
    let (same, p, lt) = mark_as_paid_remainder show_time now t paid r h in
    let e = remainder_exact show_time now t paid wt wp p lt in
    rw same (rw e (omega int_laws, -ℤ-IsWhole t.amount paid wt wp (omega arith) (omega arith)))

-- However often a proposal in whole cents is paid in part, each part in whole cents, what was
-- paid so far and what is still proposed add up to the amount that was proposed first, to the
-- cent.
pub PaidInParts-sum :
    (show_time : ℕ → String) (s : SettlementProposal) (paids : List ℤ) (t : SettlementProposal)
    → IsWhole s.amount
    → PaidInParts show_time s paids t
    → (sum paids +ℤ t.amount ≡ s.amount) × IsWhole t.amount
PaidInParts-sum show_time s _ _ w PaidInParts.untouched = (omega int_laws, w)
PaidInParts-sum show_time s _ _ w (PaidInParts.part now paid paids t r before wp h) =
    let (total, wt) = PaidInParts-sum show_time s paids t w before in
    let (kept, wr) = part_exact show_time now paid t r wt wp h in
    (regroup paid (sum paids) r.amount t.amount s.amount kept total, wr)

round_cents-below : (v : ℤ) → pos 0 ≤ℤ v → v <ℤ pos 500 → round_cents v ≡ pos 0
unfolding round_cents
round_cents-below (pos n) h k = ground arith
round_cents-below (negsuc n) h k = absurd (omega arith)

-- A payment that is positive, and short of the amount by less than half a cent, supersedes the
-- proposal and proposes a remainder of zero; `proposeSettlement` refuses an input of that amount.
pub mark_as_paid_zero_remainder :
    (show_time : ℕ → String) (now : ℕ) (s : SettlementProposal) (paid : ℤ)
    (input : ProposeSettlementInput)
    → s.status ≡ SettlementStatus.proposed
    → pos 0 <ℤ paid
    → paid <ℤ s.amount
    → s.amount -ℤ paid <ℤ pos 500
    → input.amount ≡ num (remainder_of show_time now s paid).amount
    → let r = remainder_of show_time now s paid in
      (mark_as_paid show_time now s (some (num paid))
        ≡ done (superseded_of show_time now s paid) (some r))
      × (r.amount ≡ pos 0)
      × (propose_settlement now input
          ≡ Proposed.throw (EngineError.invalid_settlement_amount (num r.amount)))
unfolding remainder_of propose_settlement
mark_as_paid_zero_remainder show_time now s paid input st p lt near h =
    let e = round_cents-below (s.amount -ℤ paid) (omega int_laws) near in
    (mark_as_paid-below show_time now s paid st p lt, e, rw (h, propose_settlement) (rw e))
