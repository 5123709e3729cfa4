-- ===== src/Session/Codes.antt =====
-- The codes of `TrustedSessionError` and the terminal reasons that the journal records, of
-- runner/runner/trusted_session.py, runner/runner/trusted_api.py and
-- runner/runner/trusted_inventory.py. A constructor is the text in the source, in lower case and
-- without its `TRUSTED_`.
pub data SessionCode : Type 0 where
  session_linux_required session_busy session_id_invalid session_exists : SessionCode
  session_journal_missing session_binding_mismatch session_disabled : SessionCode
  session_internal_uncertain session_resume_failed kill_switch_active : SessionCode
  launch_cancelled resume_state_changed claude_session_missing : SessionCode
  claude_result_error claude_provider_retry_limit approval_expired : SessionCode
  approval_time_invalid proposal_already_bound proposal_binding_mismatch : SessionCode
  proposal_contains_secret proposal_corrupt proposal_draft_invalid : SessionCode
  proposal_missing proposal_time_invalid risk_already_bound risk_binding_corrupt : SessionCode
  risk_binding_mismatch risk_confirmation_expired risk_contains_secret : SessionCode
  risk_marker_invalid risk_marker_violation risk_record_corrupt : SessionCode
  risk_record_missing risk_time_invalid risk_ttl_invalid control_result_corrupt : SessionCode
  control_result_missing control_result_uncertain : SessionCode
  diagnosis_command_budget_exhausted event_journal_corrupt event_journal_gap : SessionCode
  process_exit_uncertain process_io_unavailable process_spawn_failed : SessionCode
  process_timeout project_fingerprint_failed project_invalid runner_clock_invalid : SessionCode
  runner_identity_invalid stream_after_terminal stream_invalid_json : SessionCode
  stream_no_terminal stream_tool_id_invalid stream_tool_result_unknown : SessionCode
  stream_unclosed_tool transcript_key_invalid transcript_key_mismatch : SessionCode
  transcript_key_permissions transcript_key_unavailable : SessionCode
  verification_marker_violation inventory_unavailable target_not_managed : SessionCode
  target_not_uniquely_resolved target_connection_unavailable : SessionCode
  repair_validation_failed repair_unsupported_schema_version : SessionCode
  repair_binding_mismatch repair_idempotency_conflict : SessionCode
  repair_control_intent_required repair_session_resume_failed : SessionCode

-- `error` stands for a terminal reason that is the code of an error.
pub data Reason : Type 0 where
  no_active_process remote_process_uncertain local_process_unconfirmed : Reason
  local_process_stopped control_stop_confirmed control_stop_result_uncertain : Reason
  diagnosis_output_incomplete diagnosis_process_not_started diagnosis_result_unknown : Reason
  diagnosis_stream_interrupted transcript_incomplete runner_journal_corrupt : Reason
  execution_result_unknown_after_restart runner_recovered_incomplete_diagnosis : Reason
  runner_recovered_incomplete_proposal kill_switch_local_process_stopped : Reason
  kill_switch_no_active_process kill_switch_process_uncertain verification_failed : Reason
  verification_missing_or_unknown verification_succeeded approval_expired : Reason
  risk_confirmation_expired claude_session_missing : Reason
  error : SessionCode → Reason
