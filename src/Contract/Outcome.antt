-- ===== src/Contract/Outcome.antt =====
-- The outcomes and the reason codes of a control receipt, as the schema of
-- agent-project-trusted/references enumerates them for
-- runner/runner/trusted_repair_contract.py and runner/runner/trusted_session.py.
pub data ControlOutcome : Type 0 where
  closed stopped_confirmed stop_uncertain invalid_intent already_applied : ControlOutcome

pub data ControlReason : Type 0 where
  control_applied already_applied_reason stop_uncertain_reason : ControlReason
  invalid_intent_reason intent_conflict intent_expired : ControlReason
