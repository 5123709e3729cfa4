-- ===== src/Api/Control/Transitions.antt =====
-- What an intent with valid semantics asks for, against the contract's transition table.
use aiops_runner.Prelude.{◌≡◌, ◌≢◌, subst, sym, ◌⊎◌, inl, inr, refl, true, some, arith}
use aiops_runner.Contract.Lifecycle.{RepairSessionStatus, RepairSessionEvent, transitions}
use aiops_runner.Contract.Lifecycle
use aiops_runner.Session.Metadata.{LocalStatus, same_status, same_status→eq, is_running, is_waiting}
use aiops_runner.Session.Metadata
use aiops_runner.Session.Control.{ControlAction}
use aiops_runner.Api.Control.{IntentReason, control_semantics_valid, ends_approval, ends_risk}

-- The contract's status of the same name, for the statuses that the contract has.
abbrev pub contract_status : LocalStatus → RepairSessionStatus
contract_status Metadata.diagnosing = Lifecycle.diagnosing
contract_status Metadata.proposal_generating = Lifecycle.diagnosing
contract_status Metadata.inspection_completed = Lifecycle.diagnosis_only
contract_status Metadata.pending_approval = Lifecycle.pending_approval
contract_status Metadata.executing = Lifecycle.executing
contract_status Metadata.awaiting_risk_confirmation = Lifecycle.awaiting_risk_confirmation
contract_status Metadata.diagnosis_only = Lifecycle.diagnosis_only
contract_status Metadata.diagnosis_failed = Lifecycle.diagnosis_failed
contract_status Metadata.dispatch_failed = Lifecycle.dispatch_failed
contract_status Metadata.succeeded = Lifecycle.succeeded
contract_status Metadata.failed = Lifecycle.failed
contract_status Metadata.rejected = Lifecycle.rejected
contract_status Metadata.expired = Lifecycle.expired
contract_status Metadata.cancelled = Lifecycle.cancelled
contract_status Metadata.manual_intervention = Lifecycle.manual_intervention

-- The table takes the one status to the other by some event.
abbrev pub IsTransition : LocalStatus → LocalStatus → Type 0
IsTransition status terminal =
    (event : RepairSessionEvent) × (transitions (contract_status status) event
      ≡ some (contract_status terminal))

ends_approval-IsTransition :
    (terminal : LocalStatus) (reason : IntentReason)
    → ends_approval terminal reason ≡ true
    → IsTransition Metadata.pending_approval terminal ⊎ (terminal ≡ Metadata.manual_intervention)
unfolding ends_approval transitions
ends_approval-IsTransition Metadata.rejected reason h = inl (Lifecycle.approval_rejected, refl)
ends_approval-IsTransition Metadata.expired reason h = inl (Lifecycle.approval_expired, refl)
ends_approval-IsTransition Metadata.cancelled reason h = inl (Lifecycle.cancel_confirmed, refl)
ends_approval-IsTransition Metadata.manual_intervention reason h = inr refl
ends_approval-IsTransition _ reason h = absurd (ground arith)

ends_risk-IsTransition :
    (terminal : LocalStatus) (reason : IntentReason)
    → ends_risk terminal reason ≡ true
    → IsTransition Metadata.awaiting_risk_confirmation terminal
unfolding ends_risk transitions
ends_risk-IsTransition Metadata.rejected reason h = (Lifecycle.risk_confirmation_rejected, refl)
ends_risk-IsTransition Metadata.expired reason h = (Lifecycle.risk_confirmation_expired, refl)
ends_risk-IsTransition Metadata.cancelled reason h = (Lifecycle.cancel_confirmed, refl)
ends_risk-IsTransition _ reason h = absurd (ground arith)

stop-IsTransition :
    (status : LocalStatus) → is_running status ≡ true → IsTransition status Metadata.cancelled
unfolding is_running transitions
stop-IsTransition Metadata.diagnosing h = (Lifecycle.cancel_confirmed, refl)
stop-IsTransition Metadata.executing h = (Lifecycle.cancel_confirmed, refl)
stop-IsTransition _ h = absurd (ground arith)

-- The four cases of `control_semantics_valid`.
semantics_cases :
    (action : ControlAction) (terminal : LocalStatus) (reason : IntentReason) (status : LocalStatus)
    → control_semantics_valid action terminal reason status ≡ true
    → ((is_running status ≡ true) × (same_status terminal Metadata.cancelled ≡ true))
      ⊎ ((same_status status Metadata.pending_approval ≡ true)
          × (ends_approval terminal reason ≡ true))
      ⊎ ((same_status status Metadata.awaiting_risk_confirmation ≡ true)
          × (ends_risk terminal reason ≡ true))
      ⊎ (same_status status terminal ≡ true)
unfolding control_semantics_valid
semantics_cases action terminal reason status h = ground arith

-- An intent whose semantics are valid for a session's status asks for a terminal status that the
-- contract's transition table reaches from there by one event, or for the status that the session
-- already has, or for MANUAL_INTERVENTION from PENDING_APPROVAL.
pub control_semantics_valid-IsTransition :
    (action : ControlAction) (terminal : LocalStatus) (reason : IntentReason) (status : LocalStatus)
    → control_semantics_valid action terminal reason status ≡ true
    → IsTransition status terminal
      ⊎ (status ≡ terminal)
      ⊎ ((status ≡ Metadata.pending_approval) × (terminal ≡ Metadata.manual_intervention))
control_semantics_valid-IsTransition action terminal reason status h =
    elim (semantics_cases action terminal reason status h) [
      | inl (running, ends) ↦ inl (
          subst (IsTransition status) (sym (same_status→eq terminal Metadata.cancelled ends))
            (stop-IsTransition status running))
      | inr (inl (waits, ends)) ↦
          let e = same_status→eq status Metadata.pending_approval waits in
          elim (ends_approval-IsTransition terminal reason ends) [
            | inl t ↦ inl (subst (λ s. IsTransition s terminal) (sym e) t)
            | inr m ↦ inr (inr (e, m))
          ]
      | inr (inr (inl (waits, ends))) ↦ inl (
          subst (λ s. IsTransition s terminal)
            (sym (same_status→eq status Metadata.awaiting_risk_confirmation waits))
            (ends_risk-IsTransition terminal reason ends))
      | inr (inr (inr same)) ↦ inr (inl (same_status→eq status terminal same))
    ]

-- The last case is real: MANUAL_INTERVENTION is asked for with success, and no event leads to it.
manual_intervention-unlisted :
    (event : RepairSessionEvent)
    → transitions (contract_status Metadata.pending_approval) event
      ≢ some (contract_status Metadata.manual_intervention)
unfolding transitions
manual_intervention-unlisted event h = ground arith
