-- ===== src/Stream/State.antt =====
-- `ParsedStream`, the events and the phases of runner/runner/trusted_session.py.
use aiops_runner.Prelude.{ℕ, String, Bool, false, Option, none, List, []}
use aiops_runner.Contract.Json.{Value, Fields}

pub data Phase : Type 0 where
  diagnosing executing inspecting proposing initializing : Phase

-- The codes of `InspectionFailure`
pub data FailureCode : Type 0 where
  model_authentication_failed model_quota_exhausted model_rate_limited : FailureCode
  model_provider_unavailable model_connection_failed inspection_failed : FailureCode

pub record InspectionFailure : Type 0 where
  pub code : FailureCode
  pub http_status : Option ℕ

-- `"success"`, `"failed"` and `"unknown"`
pub data Verification : Type 0 where
  success failed unknown : Verification

-- The events that the parser makes, with the members that depend on the stream.
pub data StreamEvent : Type 0 where
  diagnosis_started session_finished : StreamEvent
  claude_failed retry_limit_reached : StreamEvent
  tool_started : String → StreamEvent
  command_started : String → String → String → Option Value → StreamEvent
  tool_finished : String → Bool → StreamEvent
  plan_delta : Fields → StreamEvent
  verification_finished : String → Verification → StreamEvent
  risk_confirmation_requested : Fields → String → StreamEvent
  inspection_report_created host_context_created proposal_draft_created : Fields → StreamEvent

-- `open_tools` is a set: the parser adds no identifier twice.
pub record ParsedStream : Type 0 where
  pub events : List StreamEvent
  pub terminal_seen : Bool
  pub risk_pause_seen : Bool
  pub remote_command_seen : Bool
  pub open_tools : List String
  pub result_error_seen : Bool
  pub result_failure : Option InspectionFailure
  pub provider_unavailable_retry_count : ℕ
  pub early_failure : Option InspectionFailure
  pub verification_outcome : Option Verification
  pub verification_marker_count : ℕ

abbrev pub initial_stream : ParsedStream
initial_stream = record {
  events = [];
  terminal_seen = false;
  risk_pause_seen = false;
  remote_command_seen = false;
  open_tools = [];
  result_error_seen = false;
  result_failure = none;
  provider_unavailable_retry_count = 0;
  early_failure = none;
  verification_outcome = none;
  verification_marker_count = 0;
}
