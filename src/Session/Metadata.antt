-- ===== src/Session/Metadata.antt =====
-- The journal's metadata record of one session, as runner/runner/trusted_session.py writes it.
-- A missing key is `none` or `false`; times are microseconds since the epoch, and a stored time
-- that is missing or does not parse is `none`.
use aiops_runner.Prelude.{ℕ, ◌≡◌, String, Bool, true, false, Option, ◌==◌, arith}
use aiops_runner.Session.Codes.{Reason}
use aiops_runner.Contract.Outcome.{ControlOutcome}

pub data LocalStatus : Type 0 where
  diagnosing proposal_generating inspection_completed pending_approval executing : LocalStatus
  awaiting_risk_confirmation diagnosis_only diagnosis_failed dispatch_failed succeeded : LocalStatus
  failed rejected expired cancelled manual_intervention : LocalStatus

abbrev status_index : LocalStatus → ℕ
status_index diagnosing = 0
status_index proposal_generating = 1
status_index inspection_completed = 2
status_index pending_approval = 3
status_index executing = 4
status_index awaiting_risk_confirmation = 5
status_index diagnosis_only = 6
status_index diagnosis_failed = 7
status_index dispatch_failed = 8
status_index succeeded = 9
status_index failed = 10
status_index rejected = 11
status_index expired = 12
status_index cancelled = 13
status_index manual_intervention = 14

-- `status == other`
unfoldable pub same_status : LocalStatus → LocalStatus → Bool
same_status s t = status_index s == status_index t

pub same_status→eq : (s t : LocalStatus) → same_status s t ≡ true → s ≡ t
unfolding same_status
same_status→eq s t h = ground arith

pub same_status_refl : (s : LocalStatus) → same_status s s ≡ true
unfolding same_status
same_status_refl s = ground arith

-- `status in ACTIVE_STATUSES`
unfoldable pub is_active : LocalStatus → Bool
is_active diagnosing = true
is_active proposal_generating = true
is_active pending_approval = true
is_active executing = true
is_active awaiting_risk_confirmation = true
is_active _ = false

-- `status in LOCAL_TERMINAL_STATUSES`
unfoldable pub is_local_terminal : LocalStatus → Bool
is_local_terminal diagnosis_only = true
is_local_terminal diagnosis_failed = true
is_local_terminal dispatch_failed = true
is_local_terminal succeeded = true
is_local_terminal failed = true
is_local_terminal rejected = true
is_local_terminal expired = true
is_local_terminal cancelled = true
is_local_terminal manual_intervention = true
is_local_terminal _ = false

-- `status in {"PENDING_APPROVAL", "AWAITING_RISK_CONFIRMATION"}`
unfoldable pub is_waiting : LocalStatus → Bool
is_waiting pending_approval = true
is_waiting awaiting_risk_confirmation = true
is_waiting _ = false

-- `status in {"DIAGNOSING", "EXECUTING"}`
unfoldable pub is_running : LocalStatus → Bool
is_running diagnosing = true
is_running executing = true
is_running _ = false

-- The values that `_validate_binding` compares.
pub record LaunchBinding : Type 0 where
  pub os_user : String
  pub cwd : String
  pub session_store_dir : String
  pub config_fingerprint : String
  pub runner_instance_id : String
  pub config_path : String

pub record ProposalBinding : Type 0 where
  pub proposal_revision : Option ℕ
  pub proposal_hash_algorithm_id : Option String
  pub proposal_hash : Option String

pub record Metadata : Type 0 where
  pub session_id : String
  pub claude_session_id : Option String
  pub logical_target_id : String
  pub status : LocalStatus
  pub launch : LaunchBinding
  pub remote_command_seen : Bool
  pub launching : Bool
  pub cancel_requested_at : Option ℕ
  pub terminal_reason : Option Reason
  pub proposal : ProposalBinding
  pub proposal_content_fingerprint : Option String
  pub approval_expires_at : Option ℕ
  pub risk_confirmation_id : Option String
  pub risk_command_fingerprint : Option String
  pub risk_expires_at : Option ℕ
  pub risk_content_fingerprint : Option String
  pub approval_idempotency_key : Option String
  pub risk_idempotency_key : Option String
  pub locally_sealed : Bool
  pub control_stop_confirmed : Bool
  pub last_control_command_id : Option String
  pub last_control_outcome : Option ControlOutcome
  pub last_control_result_certain : Option Bool
