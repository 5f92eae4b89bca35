-- ===== src/Settlement/Lifecycle.antt =====
-- The state machine of a settlement: the calls of the engine as events, and the transitions that
-- they make.
use Prim.Native.String.{String}
use coldfi.Prelude.{
  ℕ, ◌≡◌, ◌⊎◌, ◌↔◌, Bool, true, false, ◌||◌, Option, none, some, List, [], ◌∷◌, arith, is_some,
  if◌then◌else◌,
}
use coldfi.Money.{Number, num}
use coldfi.Settlement.Types.{
  SettlementStatus, same_status, SettlementProposal, SettlementActionResult,
}
use coldfi.Settlement.Engine.{
  mark_as_paid, confirm_receipt, reject_payment, reject_proposal, cancel_proposal,
  get_valid_transitions,
}

-- A call of the engine on a settlement, but for the time of the call.
pub data Event : Type 0 where
  mark : Option Number → Event
  confirm : Event
  reject_paid : Option String → Event
  reject : ℕ → Option String → Event
  cancel : ℕ → Event

module _ (show_time : ℕ → String) (now : ℕ) where
  unfoldable pub act : Event → SettlementProposal → SettlementActionResult
  unfolding mark_as_paid confirm_receipt reject_payment reject_proposal cancel_proposal
  act (Event.mark paid) s = mark_as_paid show_time now s paid
  act Event.confirm s = confirm_receipt now s
  act (Event.reject_paid reason) s = reject_payment now s reason
  act (Event.reject user reason) s = reject_proposal now s user reason
  act (Event.cancel user) s = cancel_proposal now s user

abbrev pub lists : List SettlementStatus → SettlementStatus → Bool
lists [] t = false
lists (u ∷ us) t = same_status u t || lists us t

abbrev pub result_status : Option SettlementProposal → Option SettlementStatus
result_status none = none
result_status (some s) = some s.status

module _ (show_time : ℕ → String) (now : ℕ) where
  -- A call that succeeds moves the settlement along a transition that `getValidTransitions`
  -- lists, or is the partial payment of a proposal, which supersedes it.
  pub act-Transition :
      (e : Event) (s t : SettlementProposal)
      → (act show_time now e s).settlement ≡ some t
      → (lists (get_valid_transitions s.status) t.status ≡ true)
        ⊎ ((s.status ≡ SettlementStatus.proposed)
            × (t.status ≡ SettlementStatus.superseded)
            × (is_some t.paid_amount ≡ true))
  unfolding act get_valid_transitions
  act-Transition (Event.mark none) s t h = ground arith
  act-Transition (Event.mark (some (num paid))) s t h = ground arith
  act-Transition (Event.mark (some Number.nan)) s t h = ground arith
  act-Transition (Event.mark (some Number.infinity)) s t h = ground arith
  act-Transition Event.confirm s t h = ground arith
  act-Transition (Event.reject_paid reason) s t h = ground arith
  act-Transition (Event.reject user reason) s t h = ground arith
  act-Transition (Event.cancel user) s t h = ground arith

  -- A settlement with no listed transition is final: every call on it fails, and hands back
  -- neither a settlement nor a remainder.
  pub act-final :
      (e : Event) (s : SettlementProposal)
      → get_valid_transitions s.status ≡ []
      → ((act show_time now e s).success ≡ false)
        × ((act show_time now e s).settlement ≡ none)
        × ((act show_time now e s).remainder_proposal ≡ none)
  unfolding act get_valid_transitions
  act-final (Event.mark none) s h = ground arith
  act-final (Event.mark (some (num paid))) s h = ground arith
  act-final (Event.mark (some Number.nan)) s h = ground arith
  act-final (Event.mark (some Number.infinity)) s h = ground arith
  act-final Event.confirm s h = ground arith
  act-final (Event.reject_paid reason) s h = ground arith
  act-final (Event.reject user reason) s h = ground arith
  act-final (Event.cancel user) s h = ground arith

  -- the call that makes a listed transition
  abbrev event_for : SettlementProposal → SettlementStatus → Event
  event_for s SettlementStatus.marked_paid = Event.mark none
  event_for s SettlementStatus.approved = Event.confirm
  event_for s SettlementStatus.cancelled = Event.cancel s.from_user_id
  event_for s _ =
      if same_status s.status SettlementStatus.proposed
      then Event.reject s.to_user_id none
      else Event.reject_paid none

  -- Every transition that `getValidTransitions` lists is made by a call of the engine, on every
  -- settlement with that status: the call succeeds and leaves the listed status.
  pub act-realizes :
      (s : SettlementProposal) (u : SettlementStatus)
      → lists (get_valid_transitions s.status) u ≡ true
      → ((act show_time now (event_for s u) s).success ≡ true)
        × (result_status (act show_time now (event_for s u) s).settlement ≡ some u)
  unfolding act get_valid_transitions
  act-realizes s SettlementStatus.proposed h = ground arith
  act-realizes s u h = ground arith

  -- A proposal can be cancelled by its proposer, and turned down by its recipient, as long as it
  -- is proposed, and in no other case.
  pub act_authority :
      (s : SettlementProposal) (user : ℕ) (reason : Option String)
      → (((act show_time now (Event.cancel user) s).success ≡ true)
          ↔ ((s.status ≡ SettlementStatus.proposed) × (s.from_user_id ≡ user)))
        × (((act show_time now (Event.reject user reason) s).success ≡ true)
            ↔ ((s.status ≡ SettlementStatus.proposed) × (s.to_user_id ≡ user)))
  unfolding act
  act_authority s user reason = ground arith
