-- ===== src/Contract/Lifecycle.antt =====
-- The life cycle of a repair session: `RepairSessionStatus`, `RepairSessionEvent`,
-- `TERMINAL_STATUSES`, `TRANSITIONS` and `next_status` of runner/runner/trusted_repair_contract.py.
pub mod Paths
pub mod Codes
use aiops_runner.Prelude.{
  String, ◌≡◌, Bool, true, false, Option, none, some, str_eq, if◌then◌else◌, Result, ok, err, ◌>>=◌,
  found,
}

pub data RepairSessionStatus : Type 0 where
  preparing diagnosing dispatch_failed diagnosis_only diagnosis_failed : RepairSessionStatus
  pending_approval executing awaiting_risk_confirmation : RepairSessionStatus
  succeeded failed rejected expired cancelled manual_intervention : RepairSessionStatus

pub data RepairSessionEvent : Type 0 where
  runner_accepted dispatch_failed_definitive dispatch_uncertain : RepairSessionEvent
  diagnosis_completed_no_repair diagnosis_failed diagnosis_uncertain : RepairSessionEvent
  proposal_created approval_granted approval_rejected approval_expired : RepairSessionEvent
  cancel_confirmed cancel_uncertain : RepairSessionEvent
  execution_succeeded execution_failed execution_uncertain : RepairSessionEvent
  risk_confirmation_requested risk_confirmation_granted : RepairSessionEvent
  risk_confirmation_rejected risk_confirmation_expired : RepairSessionEvent

pub data TrustedRepairErrorCode : Type 0 where
  validation_failed unsupported_schema_version proposal_hash_mismatch : TrustedRepairErrorCode
  idempotency_conflict event_sequence_conflict event_content_conflict : TrustedRepairErrorCode
  binding_mismatch state_transition_invalid approval_expired : TrustedRepairErrorCode
  risk_confirmation_expired session_not_found session_busy : TrustedRepairErrorCode
  session_resume_failed feature_disabled target_not_allowed : TrustedRepairErrorCode
  authentication_required authorization_denied : TrustedRepairErrorCode

-- `status in TERMINAL_STATUSES`
unfoldable pub is_terminal : RepairSessionStatus → Bool
is_terminal dispatch_failed = true
is_terminal diagnosis_only = true
is_terminal RepairSessionStatus.diagnosis_failed = true
is_terminal succeeded = true
is_terminal failed = true
is_terminal rejected = true
is_terminal expired = true
is_terminal cancelled = true
is_terminal manual_intervention = true
is_terminal _ = false

-- `TRANSITIONS.get((status, event))`
unfoldable pub transitions : RepairSessionStatus → RepairSessionEvent → Option RepairSessionStatus
transitions preparing runner_accepted = some diagnosing
transitions preparing dispatch_failed_definitive = some dispatch_failed
transitions preparing dispatch_uncertain = some manual_intervention
transitions preparing cancel_confirmed = some cancelled
transitions diagnosing diagnosis_completed_no_repair = some diagnosis_only
transitions diagnosing RepairSessionEvent.diagnosis_failed =
    some RepairSessionStatus.diagnosis_failed
transitions diagnosing diagnosis_uncertain = some manual_intervention
transitions diagnosing proposal_created = some pending_approval
transitions diagnosing cancel_confirmed = some cancelled
transitions diagnosing cancel_uncertain = some manual_intervention
transitions pending_approval approval_granted = some executing
transitions pending_approval approval_rejected = some rejected
transitions pending_approval RepairSessionEvent.approval_expired = some expired
transitions pending_approval cancel_confirmed = some cancelled
transitions executing execution_succeeded = some succeeded
transitions executing execution_failed = some failed
transitions executing execution_uncertain = some manual_intervention
transitions executing cancel_confirmed = some cancelled
transitions executing cancel_uncertain = some manual_intervention
transitions executing risk_confirmation_requested = some awaiting_risk_confirmation
transitions awaiting_risk_confirmation risk_confirmation_granted = some executing
transitions awaiting_risk_confirmation risk_confirmation_rejected = some rejected
transitions awaiting_risk_confirmation RepairSessionEvent.risk_confirmation_expired = some expired
transitions awaiting_risk_confirmation cancel_confirmed = some cancelled
transitions awaiting_risk_confirmation execution_uncertain = some manual_intervention
transitions _ _ = none

-- `RepairSessionStatus(text)`: the member with that value, or a ValueError.
unfoldable pub status_of : String → Option RepairSessionStatus
status_of t =
    if str_eq t "PREPARING"
    then some preparing
    else if str_eq t "DIAGNOSING"
    then some diagnosing
    else if str_eq t "DISPATCH_FAILED"
    then some dispatch_failed
    else if str_eq t "DIAGNOSIS_ONLY"
    then some diagnosis_only
    else if str_eq t "DIAGNOSIS_FAILED"
    then some RepairSessionStatus.diagnosis_failed
    else if str_eq t "PENDING_APPROVAL"
    then some pending_approval
    else if str_eq t "EXECUTING"
    then some executing
    else if str_eq t "AWAITING_RISK_CONFIRMATION"
    then some awaiting_risk_confirmation
    else if str_eq t "SUCCEEDED"
    then some succeeded
    else if str_eq t "FAILED"
    then some failed
    else if str_eq t "REJECTED"
    then some rejected
    else if str_eq t "EXPIRED"
    then some expired
    else if str_eq t "CANCELLED"
    then some cancelled
    else if str_eq t "MANUAL_INTERVENTION"
    then some manual_intervention
    else none

-- `RepairSessionEvent(text)`
unfoldable pub event_of : String → Option RepairSessionEvent
event_of t =
    if str_eq t "runner_accepted"
    then some runner_accepted
    else if str_eq t "dispatch_failed_definitive"
    then some dispatch_failed_definitive
    else if str_eq t "dispatch_uncertain"
    then some dispatch_uncertain
    else if str_eq t "diagnosis_completed_no_repair"
    then some diagnosis_completed_no_repair
    else if str_eq t "diagnosis_failed"
    then some RepairSessionEvent.diagnosis_failed
    else if str_eq t "diagnosis_uncertain"
    then some diagnosis_uncertain
    else if str_eq t "proposal_created"
    then some proposal_created
    else if str_eq t "approval_granted"
    then some approval_granted
    else if str_eq t "approval_rejected"
    then some approval_rejected
    else if str_eq t "approval_expired"
    then some RepairSessionEvent.approval_expired
    else if str_eq t "cancel_confirmed"
    then some cancel_confirmed
    else if str_eq t "cancel_uncertain"
    then some cancel_uncertain
    else if str_eq t "execution_succeeded"
    then some execution_succeeded
    else if str_eq t "execution_failed"
    then some execution_failed
    else if str_eq t "execution_uncertain"
    then some execution_uncertain
    else if str_eq t "risk_confirmation_requested"
    then some risk_confirmation_requested
    else if str_eq t "risk_confirmation_granted"
    then some risk_confirmation_granted
    else if str_eq t "risk_confirmation_rejected"
    then some risk_confirmation_rejected
    else if str_eq t "risk_confirmation_expired"
    then some RepairSessionEvent.risk_confirmation_expired
    else none

-- The ValueError of an unknown member and the KeyError of an unlisted pair become one error code.
unfoldable pub next_status : String → String → Result TrustedRepairErrorCode RepairSessionStatus
next_status status event = do
  current ← found (status_of status) state_transition_invalid
  trigger ← found (event_of event) state_transition_invalid
  found (transitions current trigger) state_transition_invalid
