-- ===== src/Session/Outcome.antt =====
-- How a run of Claude, a failure and a restart end a session: `_diagnosis_uncertain_reason`,
-- `_persist_result`, `_record_uncertain` and `recover_active_as_uncertain` of
-- runner/runner/trusted_session.py.
pub mod Restart
pub mod Terminal
use aiops_runner.Prelude.{
  ℕ, String, Bool, true, false, not, ◌&&◌, ◌||◌, Option, none, some, List, [], ◌∷◌, if◌then◌else◌,
  is_some, Result, ok, err, ◌>>=◌,
}
use aiops_runner.Session.Codes.{
  SessionCode, stream_invalid_json, process_io_unavailable, process_exit_uncertain, process_timeout,
  stream_unclosed_tool, stream_no_terminal, claude_result_error, proposal_missing,
  proposal_draft_invalid, transcript_key_invalid, transcript_key_mismatch,
  transcript_key_permissions, transcript_key_unavailable, session_journal_missing,
  event_journal_corrupt, session_resume_failed, process_spawn_failed, session_internal_uncertain,
  Reason, diagnosis_stream_interrupted, diagnosis_output_incomplete, transcript_incomplete,
  runner_journal_corrupt, diagnosis_result_unknown, diagnosis_process_not_started,
  verification_succeeded, verification_failed, verification_missing_or_unknown,
  runner_recovered_incomplete_diagnosis, runner_recovered_incomplete_proposal,
  execution_result_unknown_after_restart, error,
}
use aiops_runner.Session.Codes
use aiops_runner.Session.Metadata.{
  LocalStatus, diagnosing, proposal_generating, pending_approval, executing,
  awaiting_risk_confirmation, diagnosis_failed, succeeded, failed, manual_intervention, same_status,
  is_local_terminal, Metadata,
}
use aiops_runner.Session.Journal.Events.{EventJournal, append_event}

unfoldable pub diagnosis_uncertain_reason : SessionCode → Reason
diagnosis_uncertain_reason stream_invalid_json = diagnosis_stream_interrupted
diagnosis_uncertain_reason process_io_unavailable = diagnosis_stream_interrupted
diagnosis_uncertain_reason process_exit_uncertain = diagnosis_stream_interrupted
diagnosis_uncertain_reason process_timeout = diagnosis_stream_interrupted
diagnosis_uncertain_reason stream_unclosed_tool = diagnosis_output_incomplete
diagnosis_uncertain_reason stream_no_terminal = diagnosis_output_incomplete
diagnosis_uncertain_reason claude_result_error = diagnosis_output_incomplete
diagnosis_uncertain_reason proposal_missing = diagnosis_output_incomplete
diagnosis_uncertain_reason proposal_draft_invalid = diagnosis_output_incomplete
diagnosis_uncertain_reason transcript_key_invalid = transcript_incomplete
diagnosis_uncertain_reason transcript_key_mismatch = transcript_incomplete
diagnosis_uncertain_reason transcript_key_permissions = transcript_incomplete
diagnosis_uncertain_reason transcript_key_unavailable = transcript_incomplete
diagnosis_uncertain_reason session_journal_missing = runner_journal_corrupt
diagnosis_uncertain_reason event_journal_corrupt = runner_journal_corrupt
diagnosis_uncertain_reason Codes.SessionCode.claude_session_missing =
    Codes.Reason.claude_session_missing
diagnosis_uncertain_reason session_resume_failed = Codes.Reason.claude_session_missing
diagnosis_uncertain_reason _ = diagnosis_result_unknown

-- `success`, `failed` and any other value of `verification_outcome`
pub data VerificationOutcome : Type 0 where
  success failure other_outcome : VerificationOutcome

-- What `_persist_result` reads of a `ClaudeRunResult`.
pub record ClaudeRunResult : Type 0 where
  pub remote_command_seen : Bool
  pub risk_pause : Bool
  pub verification_outcome : VerificationOutcome

abbrev verification_verdict : VerificationOutcome → LocalStatus × Option Reason
verification_verdict success = (succeeded, some verification_succeeded)
verification_verdict failure = (failed, some verification_failed)
verification_verdict other_outcome = (manual_intervention, some verification_missing_or_unknown)

-- `status, terminal_reason`
unfoldable pub result_verdict : ClaudeRunResult → Bool → LocalStatus × Option Reason
result_verdict result resumed =
    if not resumed
    then (pending_approval, none)
    else if result.risk_pause
    then (awaiting_risk_confirmation, none)
    else verification_verdict result.verification_outcome

-- `changes` leaves the stored reason where it has none of its own.
abbrev keep_reason : Option Reason → Option Reason → Option Reason
keep_reason none old = old
keep_reason (some r) old = some r

unfoldable pub persist_result : ClaudeRunResult → Bool → Metadata → Metadata
unfolding result_verdict
persist_result result resumed m =
    if not (is_some m.cancel_requested_at)
      && same_status m.status (if resumed then executing else diagnosing)
    then record m {
      status = (result_verdict result resumed).0;
      remote_command_seen = result.remote_command_seen;
      terminal_reason = keep_reason (result_verdict result resumed).1 m.terminal_reason;
    }
    else m

abbrev is_spawn_failure : SessionCode → Bool
is_spawn_failure process_spawn_failed = true
is_spawn_failure _ = false

-- The update that the loaded record and the error choose.
unfoldable pub uncertain_verdict : SessionCode → LocalStatus → LocalStatus × Reason
unfolding diagnosis_uncertain_reason
uncertain_verdict code status =
    if same_status status diagnosing && is_spawn_failure code
    then (diagnosis_failed, diagnosis_process_not_started)
    else (
      manual_intervention,
      if same_status status diagnosing then diagnosis_uncertain_reason code else error code,
    )

abbrev pub error_code : Option SessionCode → SessionCode
error_code none = session_internal_uncertain
error_code (some code) = code

-- `none` is an exception that is no `TrustedSessionError`. The record is loaded, and updated with
-- no lock held from one to the other: `meanwhile` is what other threads do to it in between.
unfoldable pub record_uncertain :
    (Metadata → Metadata) → Option SessionCode → Metadata → SessionCode × Metadata
unfolding uncertain_verdict
record_uncertain meanwhile exc current =
    let code = error_code exc in
    (
      code,
      if is_local_terminal current.status then current else record (meanwhile current) {
        status = (uncertain_verdict code current.status).0;
        terminal_reason = some (uncertain_verdict code current.status).1;
      },
    )

-- What the operating system answers: whether the recorded process group is still the session's
-- at the start, and whether it is after SIGTERM and SIGKILL or after signalling it raised.
pub record Orphan : Type 0 where
  pub identity_matches : Bool
  pub matches_afterwards : Bool

unfoldable pub orphan_terminated : Orphan → Bool
orphan_terminated o = o.identity_matches && not o.matches_afterwards

-- `status in {"DIAGNOSING", "PROPOSAL_GENERATING", "EXECUTING"}`
unfoldable pub is_interrupted : LocalStatus → Bool
is_interrupted diagnosing = true
is_interrupted proposal_generating = true
is_interrupted executing = true
is_interrupted _ = false

unfoldable pub recovery_reason : LocalStatus → Reason
recovery_reason diagnosing = runner_recovered_incomplete_diagnosis
recovery_reason proposal_generating = runner_recovered_incomplete_proposal
recovery_reason _ = execution_result_unknown_after_restart

-- A session on disk; the body of a `session_interrupted` event is whether the orphan has ended.
pub record Stored : Type 0 where
  pub metadata : Metadata
  pub journal : EventJournal Bool

abbrev pub recovered : Metadata → Metadata
recovered m = record m {
  status = manual_intervention;
  terminal_reason = some (recovery_reason m.status);
}

module _ (digest : Bool → String → ℕ → String → String) (orphan : String → Orphan)
    (event_id now : String) where
  unfoldable pub recover_session : Stored → Result SessionCode Stored
  recover_session s =
      append_event digest (orphan_terminated (orphan s.metadata.session_id)) event_id now s.journal
      >>= λ (_, journal). ok (record { metadata = recovered s.metadata; journal = journal })

  abbrev add_affected :
      String
      → Stored
      → List Stored × Result SessionCode (List String)
      → List Stored × Result SessionCode (List String)
  add_affected k s (rest, affected) = (s ∷ rest, affected >>= λ ks. ok (k ∷ ks))

  -- An error of one journal is raised: the sessions behind it stay as they are.
  unfoldable pub recover_active_as_uncertain :
      List Stored → List Stored × Result SessionCode (List String)
  recover_active_as_uncertain [] = ([], ok [])
  recover_active_as_uncertain (s ∷ ss) =
      let later = recover_active_as_uncertain ss in
      if is_interrupted s.metadata.status
      then (elim (recover_session s) [
        | err code ↦ (s ∷ ss, err code)
        | ok s' ↦ add_affected s.metadata.session_id s' later
      ])
      else (s ∷ later.0, later.1)
