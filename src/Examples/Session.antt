-- ===== src/Examples/Session.antt =====
-- Witnesses for the control actions and the kill switch of runner/runner/trusted_session.py.
use aiops_runner.Prelude.{◌≡◌, refl, true, false, none, some, [], ◌∷◌, All, map}
use aiops_runner.Contract.Outcome.{closed}
use aiops_runner.Session.Metadata.{
  LocalStatus, executing, pending_approval, cancelled, succeeded, Metadata, is_active, is_waiting,
  is_running, same_status,
}
use aiops_runner.Session.Registry.{exits_on_terminate, cancel_process, find_process, contains}
use aiops_runner.Session.Control.{
  State, quiet, close_waiting_session, stop_active_session, apply_control_action, stop_active,
  stop_process, stop_settle, stop_finish, close_waiting,
}
use aiops_runner.Contract.Outcome.{already_applied}
use aiops_runner.Session.Control.Certainty.{WasStopped, stop_active-confirmed}
use aiops_runner.Session.Control.Replay.{apply_control_action-replayed}
use aiops_runner.Session.Outcome.{ClaudeRunResult, success}
use aiops_runner.Session.KillSwitch.{kill_session, Environment, Runner, activate_kill_switch}
use aiops_runner.Session.KillSwitch.Settled.{IsEnded, activate_kill_switch-ends}

abbrev pub session : LocalStatus → Metadata
session status = record {
  session_id = "s";
  claude_session_id = some "c";
  logical_target_id = "t";
  status = status;
  launch = record {
    os_user = "u";
    cwd = "/p";
    session_store_dir = "/d";
    config_fingerprint = "f";
    runner_instance_id = "r";
    config_path = "";
  };
  remote_command_seen = false;
  launching = false;
  cancel_requested_at = none;
  terminal_reason = none;
  proposal = record {
    proposal_revision = none;
    proposal_hash_algorithm_id = none;
    proposal_hash = none;
  };
  proposal_content_fingerprint = none;
  approval_expires_at = none;
  risk_confirmation_id = none;
  risk_command_fingerprint = none;
  risk_expires_at = none;
  risk_content_fingerprint = none;
  approval_idempotency_key = none;
  risk_idempotency_key = none;
  locally_sealed = false;
  control_stop_confirmed = false;
  last_control_command_id = none;
  last_control_outcome = none;
  last_control_result_certain = none;
}

abbrev running_state : State
running_state = record { metadata = session executing; registry = ("s", exits_on_terminate) ∷ [] }

abbrev pub waiting_state : State
waiting_state = record { metadata = session pending_approval; registry = [] }

abbrev ended_state : State
ended_state = record { metadata = session succeeded; registry = [] }

stop_active-confirmed_example :
    WasStopped quiet 5 "k" cancelled running_state
    × (cancelled ≡ cancelled)
    × ((stop_active quiet 5 "k" cancelled running_state).0.metadata.status ≡ cancelled)
unfolding stop_active is_running stop_process cancel_process find_process stop_settle same_status
    stop_finish contains
stop_active-confirmed_example =
    stop_active-confirmed quiet 5 "k" cancelled running_state true cancelled refl

abbrev closed_state : State
closed_state = (apply_control_action quiet 5 "k" close_waiting_session cancelled waiting_state).0

apply_control_action-replayed_example :
    apply_control_action quiet 9 "k" stop_active_session succeeded closed_state
    ≡ (closed_state, some (already_applied, true, cancelled))
unfolding apply_control_action close_waiting same_status is_waiting contains
apply_control_action-replayed_example =
    apply_control_action-replayed 5 "k" waiting_state close_waiting_session cancelled closed true
      cancelled 9 stop_active_session succeeded refl refl

abbrev calm : Environment
calm = record { claim_fails = λ _. false; finish_fails = λ _. false; meanwhile = λ m. m }

abbrev runner : Runner
runner = record {
  kill_switch = record { active = false; record_tracking_errors = [] };
  registry = ("s", exits_on_terminate) ∷ [];
  sessions = session executing ∷ [];
}

activate_kill_switch-ends_example :
    let (results, after) = activate_kill_switch calm 5 runner in
    (after.kill_switch.active ≡ true)
    × (after.sessions ≡ map (λ m. (kill_session calm 5 results m).0) runner.sessions)
    × All (IsEnded calm 5 results) runner.sessions
unfolding activate_kill_switch is_active
activate_kill_switch-ends_example = activate_kill_switch-ends calm 5 runner (λ m h. h) refl

abbrev good_run : ClaudeRunResult
good_run = record { remote_command_seen = true; risk_pause = false; verification_outcome = success }
