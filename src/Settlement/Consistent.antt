-- ===== src/Settlement/Consistent.antt =====
-- What every sequence of calls of packages/shared/src/engine/settlementEngine.ts keeps.
use Prim.Native.String.{String}
use mathlib.Core.Path.{subst}
use coldfi.Prelude.{
  sym, int_laws, refl, ℕ, ◌≤◌, ◌≡◌, Option, none, some, ℤ, pos, negsuc, ◌-ℤ◌, ◌<ℤ◌, ◌≤ℤ◌, arith,
  is_some, true,
}
use coldfi.Money.{Number, num, round_cents}
use coldfi.Settlement.Types.{SettlementStatus, SettlementProposal, ProposeSettlementInput}
use coldfi.Settlement.Engine.{Proposed, propose_settlement, mark_as_paid, remainder_of}
use coldfi.Settlement.Lifecycle.{Event, act}

-- A payment of less than the whole was recorded.
abbrev pub IsPart : ℤ → Option ℤ → Type 0
IsPart amount none = ⊥
IsPart amount (some paid) = (pos 0 <ℤ paid) × (paid <ℤ amount)

-- What the stamps of a settlement say, by its status.
abbrev pub IsStamped : SettlementStatus → SettlementProposal → Type 0
IsStamped SettlementStatus.proposed s =
    (s.marked_paid_at ≡ none)
    × (s.approved_at ≡ none)
    × (s.rejected_at ≡ none)
    × (s.cancelled_at ≡ none)
    × (s.paid_amount ≡ none)
IsStamped SettlementStatus.marked_paid s =
    (is_some s.marked_paid_at ≡ true)
    × (s.approved_at ≡ none)
    × (s.rejected_at ≡ none)
    × (s.cancelled_at ≡ none)
    × (s.paid_amount ≡ none)
IsStamped SettlementStatus.approved s =
    (is_some s.marked_paid_at ≡ true)
    × (s.approved_at ≡ some s.updated_at)
    × (s.rejected_at ≡ none)
    × (s.cancelled_at ≡ none)
    × (s.paid_amount ≡ none)
IsStamped SettlementStatus.rejected s =
    (s.approved_at ≡ none)
    × (s.rejected_at ≡ some s.updated_at)
    × (s.cancelled_at ≡ none)
    × (s.paid_amount ≡ none)
IsStamped SettlementStatus.cancelled s =
    (s.marked_paid_at ≡ none)
    × (s.approved_at ≡ none)
    × (s.rejected_at ≡ none)
    × (s.cancelled_at ≡ some s.updated_at)
    × (s.paid_amount ≡ none)
IsStamped SettlementStatus.superseded s =
    (s.marked_paid_at ≡ some s.updated_at)
    × (s.approved_at ≡ none)
    × (s.rejected_at ≡ none)
    × (s.cancelled_at ≡ none)
    × IsPart s.amount s.paid_amount

-- The amount is not negative, the times are in order, and the stamps fit the status.
pub record IsConsistent (s : SettlementProposal) : Type 0 where
  pub not_negative : pos 0 ≤ℤ s.amount
  pub ordered : s.created_at ≤ s.updated_at
  pub stamped : IsStamped s.status s

pub propose_settlement-IsConsistent :
    (now : ℕ) (input : ProposeSettlementInput) (s : SettlementProposal)
    → propose_settlement now input ≡ Proposed.ok s
    → IsConsistent s
unfolding propose_settlement
propose_settlement-IsConsistent now input s h = ground arith

module _ (show_time : ℕ → String) (now : ℕ) where
  pub act-IsConsistent :
      (e : Event) (s t : SettlementProposal)
      → IsConsistent s
      → s.updated_at ≤ now
      → (act show_time now e s).settlement ≡ some t
      → IsConsistent t
  unfolding act
  act-IsConsistent (Event.mark none) s t c le h = ground arith
  act-IsConsistent (Event.mark (some (num paid))) s t c le h = ground arith
  act-IsConsistent (Event.mark (some Number.nan)) s t c le h = ground arith
  act-IsConsistent (Event.mark (some Number.infinity)) s t c le h = ground arith
  act-IsConsistent Event.confirm s t c le h = ground arith
  act-IsConsistent (Event.reject_paid reason) s t c le h = ground arith
  act-IsConsistent (Event.reject user reason) s t c le h = ground arith
  act-IsConsistent (Event.cancel user) s t c le h = ground arith

round_cents_not_negative : (v : ℤ) → pos 0 ≤ℤ v → pos 0 ≤ℤ round_cents v
unfolding round_cents
round_cents_not_negative (pos n) h = ground arith
round_cents_not_negative (negsuc n) h = absurd (omega arith)

module _ (show_time : ℕ → String) (now : ℕ) (s : SettlementProposal) (paid : ℤ) where
  -- Only a positive payment of less than the amount has a remainder, and it is that one.
  pub mark_as_paid_remainder :
      (r : SettlementProposal)
      → (mark_as_paid show_time now s (some (num paid))).remainder_proposal ≡ some r
      → (r ≡ remainder_of show_time now s paid) × (pos 0 <ℤ paid) × (paid <ℤ s.amount)
  unfolding mark_as_paid
  mark_as_paid_remainder r h = ground arith

  pub remainder_of-IsConsistent :
      pos 0 ≤ℤ (remainder_of show_time now s paid).amount
      → IsConsistent (remainder_of show_time now s paid)
  unfolding remainder_of
  remainder_of-IsConsistent h = record {
    not_negative = h;
    ordered = omega arith;
    stamped = (refl, refl, refl, refl, refl);
  }

-- What a call hands back as the remainder of a partial payment is a proposal of its own.
pub remainder_proposal-IsConsistent :
    (show_time : ℕ → String) (now : ℕ) (e : Event) (s r : SettlementProposal)
    → (act show_time now e s).remainder_proposal ≡ some r
    → IsConsistent r
unfolding act remainder_of
remainder_proposal-IsConsistent show_time now (Event.mark none) s r h = ground arith
remainder_proposal-IsConsistent show_time now (Event.mark (some (num paid))) s r h =
    let (same, p, lt) = mark_as_paid_remainder show_time now s paid r h in
    let least = round_cents_not_negative (s.amount -ℤ paid) (omega int_laws) in
    subst IsConsistent (sym same) (remainder_of-IsConsistent show_time now s paid least)
remainder_proposal-IsConsistent show_time now (Event.mark (some Number.nan)) s r h = ground arith
remainder_proposal-IsConsistent show_time now (Event.mark (some Number.infinity)) s r h =
    ground arith
remainder_proposal-IsConsistent show_time now Event.confirm s r h = ground arith
remainder_proposal-IsConsistent show_time now (Event.reject_paid reason) s r h = ground arith
remainder_proposal-IsConsistent show_time now (Event.reject user reason) s r h = ground arith
remainder_proposal-IsConsistent show_time now (Event.cancel user) s r h = ground arith

-- The settlements that the engine makes, by calls at non-decreasing times: what it proposes, what
-- a call leaves of a settlement, and the remainders that it proposes for partial payments.
pub data Reach (show_time : ℕ → String) : SettlementProposal → Type 0 where
  start :
      (now : ℕ) (input : ProposeSettlementInput) (s : SettlementProposal)
      → propose_settlement now input ≡ Proposed.ok s
      → Reach show_time s
  next :
      (now : ℕ) (e : Event) (s t : SettlementProposal)
      → Reach show_time s
      → s.updated_at ≤ now
      → (act show_time now e s).settlement ≡ some t
      → Reach show_time t
  remain :
      (now : ℕ) (e : Event) (s r : SettlementProposal)
      → Reach show_time s
      → s.updated_at ≤ now
      → (act show_time now e s).remainder_proposal ≡ some r
      → Reach show_time r

-- Every settlement that the engine can reach, the remainders of partial payments included, has an
-- amount that is not negative and ordered times, and its time stamps and paid amount are those
-- that its status calls for: a superseded one has a paid amount above zero and below its own, and
-- no other has a paid amount.
pub Reach-IsConsistent :
    (show_time : ℕ → String) (s : SettlementProposal) → Reach show_time s → IsConsistent s
Reach-IsConsistent show_time _ (Reach.start now input s h) =
    propose_settlement-IsConsistent now input s h
Reach-IsConsistent show_time _ (Reach.next now e s t r le h) =
    act-IsConsistent show_time now e s t (Reach-IsConsistent show_time s r) le h
Reach-IsConsistent show_time _ (Reach.remain now e s r reached le h) =
    remainder_proposal-IsConsistent show_time now e s r h
