-- ===== src/Settlement/Engine.antt =====
-- The operations of packages/shared/src/engine/settlementEngine.ts. `now` is the clock at the
-- call, and `show_time` prints a time in decimal, as a template literal does.
use Prim.Native.String.{String, ◌++◌}
use text.Mathlib.Text.{◌==◌ as str_eq}
use coldfi.Prelude.{
  ℕ, ◌==◌, Bool, true, false, not, ◌&&◌, Option, none, some, List, [], ◌∷◌, ℤ, pos, ◌-ℤ◌, leb_ℤ,
  ltb_ℤ, if◌then◌else◌, find,
}
use coldfi.Money.{Number, num, round_cents}
use coldfi.Settlement.Types.{
  SettlementStatus, same_status, SettlementProposal, ProposeSettlementInput, EngineError,
  SettlementActionResult,
}

abbrev pub or_nil : Option (List ℕ) → List ℕ
or_nil none = []
or_nil (some ids) = ids

proposal_of : ℕ → ProposeSettlementInput → ℤ → SettlementProposal
proposal_of now input v = record {
  id = input.id;
  group_id = input.group_id;
  from_user_id = input.from_user_id;
  to_user_id = input.to_user_id;
  amount = v;
  currency = input.currency;
  status = SettlementStatus.proposed;
  proposed_at = now;
  marked_paid_at = none;
  approved_at = none;
  rejected_at = none;
  cancelled_at = none;
  note = input.note;
  related_expense_ids = or_nil input.related_expense_ids;
  superseded_by = none;
  paid_amount = none;
  created_at = now;
  updated_at = now;
}

-- What `proposeSettlement` throws, or the proposal.
pub data Proposed : Type 0 where
  ok : SettlementProposal → Proposed
  throw : EngineError → Proposed

-- refuses `typeof x !== 'number' || isNaN(x) || !isFinite(x) || x <= 0`
propose_amount : ℕ → ProposeSettlementInput → Number → Proposed
unfolding proposal_of
propose_amount now input (num v) =
    if leb_ℤ v (pos 0)
    then Proposed.throw (EngineError.invalid_settlement_amount (num v))
    else Proposed.ok (proposal_of now input v)
propose_amount now input x = Proposed.throw (EngineError.invalid_settlement_amount x)

unfoldable pub propose_settlement : ℕ → ProposeSettlementInput → Proposed
unfolding propose_amount
propose_settlement now input = propose_amount now input input.amount

abbrev pub failed : EngineError → SettlementActionResult
failed e = record { success = false; settlement = none; remainder_proposal = none; error = some e }

abbrev pub done : SettlementProposal → Option SettlementProposal → SettlementActionResult
done s r = record { success = true; settlement = some s; remainder_proposal = r; error = none }

-- `reason || s.note`: an empty reason counts as none.
abbrev pub or_note : Option String → Option String → Option String
or_note none old = old
or_note (some r) old = if str_eq r "" then old else some r

module _ (show_time : ℕ → String) (now : ℕ) where
  unfoldable pub superseded_of : SettlementProposal → ℤ → SettlementProposal
  superseded_of s paid = record s {
    status = SettlementStatus.superseded;
    paid_amount = some paid;
    marked_paid_at = some now;
    updated_at = now;
  }

  unfoldable pub remainder_of : SettlementProposal → ℤ → SettlementProposal
  remainder_of s paid = record {
    id = s.id ++ "-partial-" ++ show_time now;
    group_id = s.group_id;
    from_user_id = s.from_user_id;
    to_user_id = s.to_user_id;
    amount = round_cents (s.amount -ℤ paid);
    currency = s.currency;
    status = SettlementStatus.proposed;
    proposed_at = now;
    marked_paid_at = none;
    approved_at = none;
    rejected_at = none;
    cancelled_at = none;
    note = some ("Partial remainder of " ++ s.id);
    related_expense_ids = s.related_expense_ids;
    superseded_by = none;
    paid_amount = none;
    created_at = now;
    updated_at = now;
  }

  marked_of : SettlementProposal → SettlementProposal
  marked_of s = record s {
    status = SettlementStatus.marked_paid;
    marked_paid_at = some now;
    updated_at = now;
  }

  -- the part of `markAsPaid` under `paidAmount !== undefined`, and what follows it
  mark_amount : SettlementProposal → Option Number → SettlementActionResult
  unfolding superseded_of remainder_of marked_of
  mark_amount s none = done (marked_of s) none
  mark_amount s (some (num paid)) =
      if leb_ℤ paid (pos 0)
      then failed EngineError.paid_amount_not_positive
      else if ltb_ℤ s.amount paid
      then failed EngineError.paid_amount_exceeds
      else if ltb_ℤ paid s.amount
      then done (superseded_of s paid) (some (remainder_of s paid))
      else done (marked_of s) none
  mark_amount s (some x) = failed EngineError.paid_amount_not_positive

  unfoldable pub mark_as_paid : SettlementProposal → Option Number → SettlementActionResult
  unfolding mark_amount
  mark_as_paid s paid =
      if same_status s.status SettlementStatus.proposed
      then mark_amount s paid
      else failed (EngineError.cannot_mark_as_paid s.status)

module _ (now : ℕ) where
  unfoldable pub confirm_receipt : SettlementProposal → SettlementActionResult
  confirm_receipt s =
      if same_status s.status SettlementStatus.marked_paid
      then done
          (record s {
            status = SettlementStatus.approved;
            approved_at = some now;
            updated_at = now;
          })
          none
      else failed (EngineError.cannot_confirm s.status)

  rejected_of : SettlementProposal → Option String → SettlementProposal
  rejected_of s reason = record s {
    status = SettlementStatus.rejected;
    rejected_at = some now;
    note = or_note reason s.note;
    updated_at = now;
  }

  unfoldable pub reject_payment : SettlementProposal → Option String → SettlementActionResult
  unfolding rejected_of
  reject_payment s reason =
      if same_status s.status SettlementStatus.marked_paid
      then done (rejected_of s reason) none
      else failed (EngineError.cannot_reject s.status)

  unfoldable pub reject_proposal : SettlementProposal → ℕ → Option String → SettlementActionResult
  unfolding rejected_of
  reject_proposal s user_id reason =
      if not (same_status s.status SettlementStatus.proposed)
      then failed (EngineError.cannot_reject_proposal s.status)
      else if not (s.to_user_id == user_id)
      then failed EngineError.only_recipient
      else done (rejected_of s reason) none

  unfoldable pub cancel_proposal : SettlementProposal → ℕ → SettlementActionResult
  cancel_proposal s user_id =
      if not (same_status s.status SettlementStatus.proposed)
      then failed (EngineError.cannot_cancel s.status)
      else if not (s.from_user_id == user_id)
      then failed EngineError.only_proposer
      else done
          (record s {
            status = SettlementStatus.cancelled;
            cancelled_at = some now;
            updated_at = now;
          })
          none

-- `!groupId || s.groupId === groupId`; a group id is never the empty text
abbrev pub in_group : Option ℕ → SettlementProposal → Bool
in_group none s = true
in_group (some g) s = s.group_id == g

abbrev pub is_duplicate : ℕ → ℕ → Option ℕ → SettlementProposal → Bool
is_duplicate from to g s =
    s.from_user_id == from
    && s.to_user_id == to
    && same_status s.status SettlementStatus.proposed
    && in_group g s

unfoldable pub find_duplicate_proposal :
    List SettlementProposal → ℕ → ℕ → Option ℕ → Option SettlementProposal
find_duplicate_proposal settlements from to g = find (is_duplicate from to g) settlements

unfoldable pub get_valid_transitions : SettlementStatus → List SettlementStatus
get_valid_transitions SettlementStatus.proposed =
    SettlementStatus.marked_paid ∷ SettlementStatus.cancelled ∷ SettlementStatus.rejected ∷ []
get_valid_transitions SettlementStatus.marked_paid =
    SettlementStatus.approved ∷ SettlementStatus.rejected ∷ []
get_valid_transitions _ = []
