-- ===== src/Contract/Lifecycle/Codes.antt =====
-- The members of the two enumerations by their values, and `next_status` at those values.
use aiops_runner.Prelude.{
  String, ◌≡◌, refl, ◌↔◌, inl, inr, true, Bool-cases, found, err, ◌>>=◌, Option, none, some,
}
use aiops_runner.Contract.Lifecycle.Paths.{transitions-terminal, transitions-cancel_iff}
use aiops_runner.Contract.Lifecycle.{
  RepairSessionStatus, RepairSessionEvent, status_of, event_of, next_status, transitions,
  is_terminal, preparing, diagnosing, dispatch_failed, diagnosis_only, pending_approval, executing,
  awaiting_risk_confirmation, succeeded, failed, rejected, expired, cancelled, manual_intervention,
  runner_accepted, dispatch_failed_definitive, dispatch_uncertain, diagnosis_completed_no_repair,
  diagnosis_uncertain, proposal_created, approval_granted, approval_rejected, cancel_confirmed,
  cancel_uncertain, execution_succeeded, execution_failed, execution_uncertain,
  risk_confirmation_requested, risk_confirmation_granted, risk_confirmation_rejected,
  state_transition_invalid,
}

-- `member.value`
unfoldable pub status_value : RepairSessionStatus → String
status_value preparing = "PREPARING"
status_value diagnosing = "DIAGNOSING"
status_value dispatch_failed = "DISPATCH_FAILED"
status_value diagnosis_only = "DIAGNOSIS_ONLY"
status_value RepairSessionStatus.diagnosis_failed = "DIAGNOSIS_FAILED"
status_value pending_approval = "PENDING_APPROVAL"
status_value executing = "EXECUTING"
status_value awaiting_risk_confirmation = "AWAITING_RISK_CONFIRMATION"
status_value succeeded = "SUCCEEDED"
status_value failed = "FAILED"
status_value rejected = "REJECTED"
status_value expired = "EXPIRED"
status_value cancelled = "CANCELLED"
status_value manual_intervention = "MANUAL_INTERVENTION"

unfoldable pub event_value : RepairSessionEvent → String
event_value runner_accepted = "runner_accepted"
event_value dispatch_failed_definitive = "dispatch_failed_definitive"
event_value dispatch_uncertain = "dispatch_uncertain"
event_value diagnosis_completed_no_repair = "diagnosis_completed_no_repair"
event_value RepairSessionEvent.diagnosis_failed = "diagnosis_failed"
event_value diagnosis_uncertain = "diagnosis_uncertain"
event_value proposal_created = "proposal_created"
event_value approval_granted = "approval_granted"
event_value approval_rejected = "approval_rejected"
event_value RepairSessionEvent.approval_expired = "approval_expired"
event_value cancel_confirmed = "cancel_confirmed"
event_value cancel_uncertain = "cancel_uncertain"
event_value execution_succeeded = "execution_succeeded"
event_value execution_failed = "execution_failed"
event_value execution_uncertain = "execution_uncertain"
event_value risk_confirmation_requested = "risk_confirmation_requested"
event_value risk_confirmation_granted = "risk_confirmation_granted"
event_value risk_confirmation_rejected = "risk_confirmation_rejected"
event_value RepairSessionEvent.risk_confirmation_expired = "risk_confirmation_expired"

status_of-status_value : (s : RepairSessionStatus) → status_of (status_value s) ≡ some s
unfolding status_of status_value
status_of-status_value preparing = refl
status_of-status_value _ = refl

event_of-event_value : (e : RepairSessionEvent) → event_of (event_value e) ≡ some e
unfolding event_of event_value
event_of-event_value runner_accepted = refl
event_of-event_value _ = refl

-- At the values of two members, `next_status` answers by the transition table alone.
pub next_status-values :
    (s : RepairSessionStatus) (e : RepairSessionEvent)
    → next_status (status_value s) (event_value e)
      ≡ found (transitions s e) state_transition_invalid
unfolding next_status
next_status-values s e = rw (status_of-status_value s, event_of-event_value e)

-- A status is terminal exactly when `next_status` refuses its text with every event text as an invalid
-- transition.
pub next_status-terminal_iff :
    (s : RepairSessionStatus)
    → (is_terminal s ≡ true)
      ↔ ((event : String) → next_status (status_value s) event ≡ err state_transition_invalid)
next_status-terminal_iff s = (
  λ h event. unfold next_status in rw status_of-status_value (refused h (event_of event)),
  λ all. elim (Bool-cases (is_terminal s)) [
    | inl t ↦ t
    | inr f ↦ cc (
      all (event_value cancel_confirmed),
      next_status-values s cancel_confirmed,
      (transitions-cancel_iff s).1 f,
    )
  ],
)
  where
    refused :
        is_terminal s ≡ true
        → (o : Option RepairSessionEvent)
        → (found o state_transition_invalid >>= λ trigger.
            found (transitions s trigger) state_transition_invalid)
          ≡ err state_transition_invalid
    refused h none = refl
    refused h (some e) = rw (transitions-terminal s e h)
