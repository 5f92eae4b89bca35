-- ===== src/Settlement/Tests.antt =====
-- Concrete inputs for the theorems on settlements: a proposal of 30.00, of which 10.00 is paid.
use Prim.Native.String.{String}
use coldfi.Prelude.{ℕ, ◌≡◌, ◌⊎◌, refl, true, none, some, [], ◌∷◌, ℤ, pos, ◌+ℤ◌, arith, is_some}
use coldfi.Money.{num, IsWhole}
use coldfi.Settlement.Types.{SettlementStatus, SettlementProposal, ProposeSettlementInput}
use coldfi.Settlement.Engine.{propose_settlement, mark_as_paid, remainder_of, get_valid_transitions}
use coldfi.Settlement.Lifecycle.{Event, act, lists, result_status, act-Transition, act-realizes}
use coldfi.Settlement.Consistent.{IsConsistent, Reach, Reach-IsConsistent}
use coldfi.Settlement.Partial.{PaidInParts, PaidInParts-sum, sum}

abbrev no_text : ℕ → String
no_text n = "0"

abbrev input_of : ℤ → ProposeSettlementInput
input_of amount = record {
  id = "s";
  group_id = 1;
  from_user_id = 2;
  to_user_id = 3;
  amount = num amount;
  currency = "EUR";
  related_expense_ids = none;
  note = none;
}

abbrev proposal : SettlementProposal
proposal = record {
  id = "s";
  group_id = 1;
  from_user_id = 2;
  to_user_id = 3;
  amount = pos 3_000_000;
  currency = "EUR";
  status = SettlementStatus.proposed;
  proposed_at = 5;
  marked_paid_at = none;
  approved_at = none;
  rejected_at = none;
  cancelled_at = none;
  note = none;
  related_expense_ids = [];
  superseded_by = none;
  paid_amount = none;
  created_at = 5;
  updated_at = 5;
}

abbrev marked : SettlementProposal
marked = record proposal {
  status = SettlementStatus.marked_paid;
  marked_paid_at = some 6;
  updated_at = 6;
}

proposal-Reach : Reach no_text proposal
unfolding propose_settlement
proposal-Reach = Reach.start 5 (input_of (pos 3_000_000)) proposal refl

act-Transition_example :
    (lists (get_valid_transitions SettlementStatus.proposed) SettlementStatus.marked_paid ≡ true)
    ⊎ ((proposal.status ≡ SettlementStatus.proposed)
        × (marked.status ≡ SettlementStatus.superseded)
        × (is_some marked.paid_amount ≡ true))
unfolding act
act-Transition_example = act-Transition no_text 6 (Event.mark none) proposal marked refl

act-realizes_example :
    ((act no_text 7 (Event.cancel 2) proposal).success ≡ true)
    × (result_status (act no_text 7 (Event.cancel 2) proposal).settlement
        ≡ some SettlementStatus.cancelled)
unfolding get_valid_transitions
act-realizes_example = act-realizes no_text 7 proposal SettlementStatus.cancelled refl

abbrev rest : SettlementProposal
rest = remainder_of no_text 9 proposal (pos 1_000_000)

rest-Reach : Reach no_text rest
unfolding act
rest-Reach =
    Reach.remain 9 (Event.mark (some (num (pos 1_000_000)))) proposal rest proposal-Reach
      (omega arith) refl

Reach-IsConsistent_example : IsConsistent rest
Reach-IsConsistent_example = Reach-IsConsistent no_text rest rest-Reach

PaidInParts-sum_example :
    (sum (pos 1_000_000 ∷ []) +ℤ rest.amount ≡ pos 3_000_000) × IsWhole rest.amount
unfolding mark_as_paid
PaidInParts-sum_example =
    PaidInParts-sum no_text proposal (pos 1_000_000 ∷ []) rest (refl, refl)
      (PaidInParts.part 9 (pos 1_000_000) [] proposal rest PaidInParts.untouched (refl, refl) refl)
