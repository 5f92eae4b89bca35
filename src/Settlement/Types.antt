-- ===== src/Settlement/Types.antt =====
-- packages/shared/src/types/settlement.ts and the statuses of packages/shared/src/types/enums.ts.
-- Ids of users, groups and expenses are only compared, so they are numbers; the id of a
-- settlement is a text, since `markAsPaid` builds one. Times are numbers, as `Date.now()` gives.
use Prim.Native.String.{String}
use coldfi.Prelude.{ℕ, Bool, true, false, Option, List, ℤ}
use coldfi.Money.{Number}

pub data SettlementStatus : Type 0 where
  proposed marked_paid approved rejected cancelled superseded : SettlementStatus

-- `a === b` on statuses
abbrev pub same_status : SettlementStatus → SettlementStatus → Bool
same_status SettlementStatus.proposed SettlementStatus.proposed = true
same_status SettlementStatus.marked_paid SettlementStatus.marked_paid = true
same_status SettlementStatus.approved SettlementStatus.approved = true
same_status SettlementStatus.rejected SettlementStatus.rejected = true
same_status SettlementStatus.cancelled SettlementStatus.cancelled = true
same_status SettlementStatus.superseded SettlementStatus.superseded = true
same_status _ _ = false

pub record SettlementProposal : Type 0 where
  pub id : String
  pub group_id : ℕ
  pub from_user_id : ℕ
  pub to_user_id : ℕ
  pub amount : ℤ
  pub currency : String
  pub status : SettlementStatus
  pub proposed_at : ℕ
  pub marked_paid_at : Option ℕ
  pub approved_at : Option ℕ
  pub rejected_at : Option ℕ
  pub cancelled_at : Option ℕ
  pub note : Option String
  pub related_expense_ids : List ℕ
  pub superseded_by : Option String
  pub paid_amount : Option ℤ
  pub created_at : ℕ
  pub updated_at : ℕ

pub record ProposeSettlementInput : Type 0 where
  pub id : String
  pub group_id : ℕ
  pub from_user_id : ℕ
  pub to_user_id : ℕ
  pub amount : Number
  pub currency : String
  pub related_expense_ids : Option (List ℕ)
  pub note : Option String

-- The messages of the engine, by what they are about.
pub data EngineError : Type 0 where
  invalid_settlement_amount : Number → EngineError
  cannot_mark_as_paid cannot_confirm cannot_reject : SettlementStatus → EngineError
  cannot_reject_proposal cannot_cancel : SettlementStatus → EngineError
  paid_amount_not_positive paid_amount_exceeds : EngineError
  only_recipient only_proposer : EngineError

pub record SettlementActionResult : Type 0 where
  pub success : Bool
  pub settlement : Option SettlementProposal
  pub remainder_proposal : Option SettlementProposal
  pub error : Option EngineError
