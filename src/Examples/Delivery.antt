-- ===== src/Examples/Delivery.antt =====
-- Witnesses for the callbacks of runner/runner/trusted_api.py and for the times of an intent.
use aiops_runner.Prelude.{ℕ, String, true, Option, none, some, str_eq, if◌then◌else◌}
use aiops_runner.Api.Delivery.{Client, accepted, refused}
use aiops_runner.Contract.Intent.{ControlIntent}

-- An event is its number.
abbrev itself : ℕ → ℕ
itself n = n

abbrev refusing : Client ℕ
refusing = record {
  identity_proven = true;
  has_proposal = true;
  is_terminal = true;
  send_proposal = accepted;
  send_events = λ chunk. refused;
}

abbrev same_uuid : String → Option String
same_uuid t = some t

abbrev time_of : String → Option ℕ
time_of t = if str_eq t "start" then some 1000000 else some 2000000

abbrev intent : ControlIntent
intent = record {
  schema_version = "1.0";
  kind = "control_intent";
  command_id = "c";
  tenant_id = "t";
  run_id = "r";
  repair_id = none;
  session_id = "s";
  runner_provider_id = "p";
  runner_instance_id = "i";
  logical_target_id = "l";
  platform = "linux";
  action = "STOP_ACTIVE_SESSION";
  desired_terminal = "CANCELLED";
  reason_code = "USER_CANCELLED";
  requested_at = "start";
  expires_at = "end";
  intent_hash_algorithm_id = "a";
  intent_hash = "h";
}
