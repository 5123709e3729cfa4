-- ===== src/Examples/Api.antt =====
-- Witnesses for runner/runner/trusted_api.py.
use aiops_runner.Prelude.{◌≡◌, ◌↔◌, ◌⊎◌, refl, true, false, some, ok}
use aiops_runner.Contract.Outcome.{closed, control_applied}
use aiops_runner.Session.Metadata.{
  pending_approval, rejected, manual_intervention, same_status, is_waiting, Metadata,
}
use aiops_runner.Session.Registry.{contains}
use aiops_runner.Session.Control.{close_waiting_session, quiet, apply_control_action, close_waiting}
use aiops_runner.Api.Control.{
  approval_rejected, control_semantics_valid, refusal, control_verdict, settle_prior, Verdict,
}
use aiops_runner.Api.Control.Transitions.{IsTransition, control_semantics_valid-IsTransition}
use aiops_runner.Api.Control.Receipts.{check_settled, AgreesWith, control_verdict-accepted}
use aiops_runner.Examples.Session.{session, waiting_state}

control_semantics_valid-IsTransition_example :
    IsTransition pending_approval rejected
    ⊎ (pending_approval ≡ rejected)
    ⊎ ((pending_approval ≡ pending_approval) × (rejected ≡ manual_intervention))
unfolding control_semantics_valid same_status
control_semantics_valid-IsTransition_example =
    control_semantics_valid-IsTransition close_waiting_session rejected approval_rejected
      pending_approval refl

abbrev closed_verdict : Verdict
closed_verdict = record { outcome = closed; certain = true; reason = control_applied }

control_verdict-accepted_example :
    (check_settled (settle_prior closed_verdict (session rejected)) ≡ ok tt)
    ↔ AgreesWith (session rejected) closed_verdict
unfolding control_verdict refusal apply_control_action close_waiting same_status is_waiting contains
control_verdict-accepted_example =
    control_verdict-accepted quiet 5 "k" close_waiting_session rejected waiting_state true 5 5 9
      false (session rejected) closed_verdict refl

abbrev keyed_session : Metadata
keyed_session = record (session pending_approval) { approval_idempotency_key = some "k" }
