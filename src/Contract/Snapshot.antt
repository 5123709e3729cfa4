-- ===== src/Contract/Snapshot.antt =====
-- `validate_repair_session_semantics` of runner/runner/trusted_repair_contract.py.
-- A snapshot is read after the schema has typed its members, so each field has its wire type.
pub mod Binding
use aiops_runner.Prelude.{
  ℕ, String, Bool, true, false, not, ◌&&◌, ◌||◌, Option, none, some, str_eq, is_some, holds_text,
  Result, ok, ◌>>=◌, ◌>>◌, require, refuse,
}
use aiops_runner.Contract.Lifecycle.{
  RepairSessionStatus, preparing, diagnosing, dispatch_failed, pending_approval, executing,
  awaiting_risk_confirmation, succeeded, failed, rejected, expired, cancelled, manual_intervention,
  TrustedRepairErrorCode, validation_failed, binding_mismatch,
}
use aiops_runner.Contract.Wire.{validate_wire_object}

pub record RepairSession : Type 0 where
  pub schema_version : String
  pub kind : String
  pub session_id : String
  pub status : RepairSessionStatus
  pub claude_session_id : Option String
  pub proposal_revision : Option ℕ
  pub proposal_hash_algorithm_id : Option String
  pub proposal_hash : Option String

abbrev pub is_preparing : RepairSessionStatus → Bool
is_preparing preparing = true
is_preparing _ = false

abbrev pub is_diagnosing : RepairSessionStatus → Bool
is_diagnosing diagnosing = true
is_diagnosing _ = false

abbrev pub is_dispatch_failed : RepairSessionStatus → Bool
is_dispatch_failed dispatch_failed = true
is_dispatch_failed _ = false

abbrev pub is_manual_intervention : RepairSessionStatus → Bool
is_manual_intervention manual_intervention = true
is_manual_intervention _ = false

-- `status in predispatch_null_terminals`
abbrev pub is_predispatch_null_terminal : RepairSessionStatus → Bool
is_predispatch_null_terminal dispatch_failed = true
is_predispatch_null_terminal cancelled = true
is_predispatch_null_terminal manual_intervention = true
is_predispatch_null_terminal _ = false

-- The statuses that the last check names.
abbrev pub needs_proposal : RepairSessionStatus → Bool
needs_proposal pending_approval = true
needs_proposal executing = true
needs_proposal awaiting_risk_confirmation = true
needs_proposal succeeded = true
needs_proposal failed = true
needs_proposal rejected = true
needs_proposal expired = true
needs_proposal _ = false

-- `value != other` where the first is known to be bound.
abbrev pub differs : Option String → String → Bool
differs o t = not (holds_text o t)

-- The two claims on an established or a new binding, when there is a previous snapshot.
unfoldable pub check_rebinding :
    RepairSession → RepairSession → Bool → Result TrustedRepairErrorCode Unit
check_rebinding session previous runner_event_received = elim previous.claude_session_id [
  | some bound ↦ refuse (differs session.claude_session_id bound) binding_mismatch
  | none ↦
      refuse
        (is_some session.claude_session_id
          && not (
              is_preparing previous.status && is_diagnosing session.status
              || is_manual_intervention previous.status
                && (is_manual_intervention session.status && runner_event_received)))
        binding_mismatch
]

unfoldable pub check_previous :
    (RepairSession → Bool)
    → RepairSession
    → Option RepairSession
    → Bool
    → Result TrustedRepairErrorCode Unit
check_previous conforms session none runner_event_received = ok tt
check_previous conforms session (some previous) runner_event_received = do
  validate_wire_object (λ p. p.schema_version) conforms previous
  require (str_eq previous.kind "repair_session") validation_failed
  require (str_eq previous.session_id session.session_id) binding_mismatch
  check_rebinding session previous runner_event_received

abbrev pub was_preparing : Option RepairSession → Bool
was_preparing none = false
was_preparing (some previous) = is_preparing previous.status

-- The checks on the Claude binding and the status.
unfoldable pub check_claude_binding :
    RepairSession → Option RepairSession → Bool → Result TrustedRepairErrorCode Unit
check_claude_binding session previous runner_event_received = do
  let bound = is_some session.claude_session_id
  refuse (is_preparing session.status && bound) validation_failed
  refuse (is_dispatch_failed session.status && (bound || not (was_preparing previous)))
      validation_failed
  refuse (was_preparing previous && (is_diagnosing session.status && not bound)) binding_mismatch
  refuse
      (not bound
        && (not (is_preparing session.status)
            && (not (is_predispatch_null_terminal session.status) || not (was_preparing previous))))
      validation_failed
  refuse (runner_event_received && not bound) validation_failed

abbrev pub proposal_unbound : RepairSession → Bool
proposal_unbound s =
    not (is_some s.proposal_revision)
    && (not (is_some s.proposal_hash_algorithm_id) && not (is_some s.proposal_hash))

abbrev pub proposal_bound : RepairSession → Bool
proposal_bound s =
    is_some s.proposal_revision && (is_some s.proposal_hash_algorithm_id && is_some s.proposal_hash)

unfoldable pub check_proposal_binding : RepairSession → Result TrustedRepairErrorCode Unit
check_proposal_binding session = do
  refuse (not (proposal_bound session) && not (proposal_unbound session)) validation_failed
  refuse (is_preparing session.status && not (proposal_unbound session)) validation_failed
  refuse (needs_proposal session.status && not (proposal_bound session)) validation_failed

unfoldable pub validate_repair_session_semantics :
    (RepairSession → Bool)
    → RepairSession
    → Option RepairSession
    → Bool
    → Result TrustedRepairErrorCode Unit
validate_repair_session_semantics conforms session previous runner_event_received = do
  validate_wire_object (λ p. p.schema_version) conforms session
  require (str_eq session.kind "repair_session") validation_failed
  check_previous conforms session previous runner_event_received
  check_claude_binding session previous runner_event_received
  check_proposal_binding session
