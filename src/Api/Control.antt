-- ===== src/Api/Control.antt =====
-- `cancel` of `TrustedSessionController` in runner/runner/trusted_api.py, from the claim to the
-- receipt: `_control_semantics_valid`, `_validate_control_binding`, and the choice of outcome,
-- certainty, reason and prior result. Times are microseconds; the reason codes are
-- those of `_STOP_REASONS`.
pub mod Transitions
pub mod Receipts
use aiops_runner.Prelude.{
  ℕ, ◌+◌, String, Bool, true, false, not, ◌&&◌, ◌||◌, Option, none, some, if◌then◌else◌, ltb,
  str_eq, is_some, Result, ok, err, ◌>>=◌, require,
}
use aiops_runner.Contract.Intent.{seconds}
use aiops_runner.Contract.Outcome.{
  ControlOutcome, closed, stopped_confirmed, stop_uncertain, invalid_intent, already_applied,
  ControlReason, control_applied, already_applied_reason, stop_uncertain_reason,
  invalid_intent_reason, intent_expired,
}
use aiops_runner.Session.Codes.{SessionCode, repair_binding_mismatch}
use aiops_runner.Session.Metadata.{
  LocalStatus, pending_approval, awaiting_risk_confirmation, rejected, expired, cancelled,
  manual_intervention, same_status, is_running, Metadata,
}
use aiops_runner.Session.Control.{
  ControlAction, stop_active_session, ControlReply, is_final_outcome,
}

-- `reason_code` of an intent
pub data IntentReason : Type 0 where
  user_requested aiops_kill_switch approval_rejected approval_expired session_expired : IntentReason
  risk_confirmation_rejected risk_confirmation_expired aiops_manual_intervention : IntentReason

abbrev is_stop : ControlAction → Bool
is_stop stop_active_session = true
is_stop _ = false

abbrev is_cancel_reason : IntentReason → Bool
is_cancel_reason user_requested = true
is_cancel_reason aiops_kill_switch = true
is_cancel_reason _ = false

-- The pairs that end a wait for approval.
unfoldable pub ends_approval : LocalStatus → IntentReason → Bool
ends_approval rejected approval_rejected = true
ends_approval expired approval_expired = true
ends_approval expired session_expired = true
ends_approval cancelled user_requested = true
ends_approval cancelled aiops_kill_switch = true
ends_approval manual_intervention aiops_manual_intervention = true
ends_approval _ _ = false

-- The pairs that end a wait for a risk confirmation.
unfoldable pub ends_risk : LocalStatus → IntentReason → Bool
ends_risk rejected risk_confirmation_rejected = true
ends_risk expired risk_confirmation_expired = true
ends_risk expired session_expired = true
ends_risk cancelled user_requested = true
ends_risk cancelled aiops_kill_switch = true
ends_risk _ _ = false

unfoldable pub control_semantics_valid :
    ControlAction → LocalStatus → IntentReason → LocalStatus → Bool
unfolding ends_approval ends_risk
control_semantics_valid action terminal reason status =
    if is_stop action
    then is_running status && (same_status terminal cancelled && is_cancel_reason reason)
    else if same_status status pending_approval
    then ends_approval terminal reason
    else if same_status status awaiting_risk_confirmation
    then ends_risk terminal reason
    else same_status status terminal

-- The members that an intent and a record share.
pub record ControlBinding : Type 0 where
  pub tenant_id : String
  pub run_id : String
  pub repair_id : Option String
  pub session_id : String
  pub runner_provider_id : String
  pub runner_instance_id : String
  pub logical_target_id : String

abbrev same_optional : Option String → Option String → Bool
same_optional none none = true
same_optional (some s) (some t) = str_eq s t
same_optional _ _ = false

-- The loop over the fields stops at the first that differs; each raises the same error.
unfoldable pub validate_control_binding : ControlBinding → ControlBinding → Result SessionCode Unit
validate_control_binding intent metadata =
    require
      (str_eq intent.tenant_id metadata.tenant_id
        && (str_eq intent.run_id metadata.run_id
            && (same_optional intent.repair_id metadata.repair_id
                && (str_eq intent.session_id metadata.session_id
                    && (str_eq intent.runner_provider_id metadata.runner_provider_id
                        && (str_eq intent.runner_instance_id metadata.runner_instance_id
                            && str_eq intent.logical_target_id metadata.logical_target_id))))))
      repair_binding_mismatch

-- The table from an outcome to its reason.
unfoldable pub reason_of : ControlOutcome → ControlReason
reason_of closed = control_applied
reason_of stopped_confirmed = control_applied
reason_of already_applied = already_applied_reason
reason_of stop_uncertain = stop_uncertain_reason
reason_of invalid_intent = invalid_intent_reason

-- Outcome, certainty and reason of a receipt.
pub record Verdict : Type 0 where
  pub outcome : ControlOutcome
  pub certain : Bool
  pub reason : ControlReason

-- The guard on a new claim; a claim in progress is applied again with no guard.
unfoldable pub refusal : Bool → ℕ → ℕ → ℕ → Bool → Option ControlReason
refusal in_progress now requested expires valid =
    if in_progress
    then none
    else if ltb (now + seconds 60) requested
    then some invalid_intent_reason
    else if ltb (expires + seconds 60) now
    then some intent_expired
    else if not valid
    then some invalid_intent_reason
    else none

-- `none` where applying the action raised.
unfoldable pub applied_verdict : ControlReply → Option Verdict
unfolding reason_of
applied_verdict none = none
applied_verdict (some (outcome, certain, status)) =
    some (record { outcome = outcome; certain = certain; reason = reason_of outcome })

-- The action is applied only where nothing refuses it.
unfoldable pub control_verdict : Option ControlReason → ControlReply → Option Verdict
unfolding applied_verdict
control_verdict (some reason) reply =
    some (record { outcome = invalid_intent; certain = false; reason = reason })
control_verdict none reply = applied_verdict reply

-- A verdict with the prior outcome and certainty.
pub record Settled : Type 0 where
  pub verdict : Verdict
  pub prior_outcome : Option ControlOutcome
  pub prior_certain : Option Bool

abbrev is_already_applied : ControlOutcome → Bool
is_already_applied already_applied = true
is_already_applied _ = false

-- `latest` is the record after the action.
unfoldable pub settle_prior : Verdict → Metadata → Settled
settle_prior v latest =
    if not (is_already_applied v.outcome)
    then record { verdict = v; prior_outcome = none; prior_certain = none }
    else if is_final_outcome latest.last_control_outcome
        && is_some latest.last_control_result_certain
    then record {
      verdict = v;
      prior_outcome = latest.last_control_outcome;
      prior_certain = latest.last_control_result_certain;
    }
    else record {
      verdict = record {
        outcome = invalid_intent;
        certain = false;
        reason = invalid_intent_reason;
      };
      prior_outcome = none;
      prior_certain = none;
    }
