-- ===== src/Contract/Intent.antt =====
-- Control intents: `_validate_control_intent_semantics`, `compute_control_intent_hash` and
-- `validate_and_hash_control_intent` of runner/runner/trusted_repair_contract.py. `str(UUID(text))`
-- and the parsing of timestamps to microseconds are parameters; `none` is a ValueError.
pub mod Clock
use aiops_runner.Prelude.{
  ℕ, ◌+◌, ◌*◌, String, Bool, ◌||◌, Option, none, some, str_eq, ltb, leb, holds_text, concat, Result,
  ok, ◌>>=◌, ◌>>◌, require, refuse, found,
}
use aiops_runner.Contract.Lifecycle.{
  TrustedRepairErrorCode, validation_failed, idempotency_conflict,
}
use aiops_runner.Contract.Wire.{validate_wire_object}
use aiops_runner.Contract.Json.{Value, null, str, obj, Fields, end, field, normalize}

pub record ControlIntent : Type 0 where
  pub schema_version : String
  pub kind : String
  pub command_id : String
  pub tenant_id : String
  pub run_id : String
  pub repair_id : Option String
  pub session_id : String
  pub runner_provider_id : String
  pub runner_instance_id : String
  pub logical_target_id : String
  pub platform : String
  pub action : String
  pub desired_terminal : String
  pub reason_code : String
  pub requested_at : String
  pub expires_at : String
  pub intent_hash_algorithm_id : String
  pub intent_hash : String

abbrev pub control_intent_hash_algorithm_id : String
control_intent_hash_algorithm_id = "aiops-trusted-repair-control-intent-hash-v1"

abbrev pub seconds : ℕ → ℕ
seconds n = n * 1000000

abbrev pub control_intent_max_ttl : ℕ
control_intent_max_ttl = seconds 600

abbrev pub control_intent_clock_skew : ℕ
control_intent_clock_skew = seconds 60

abbrev pub optional_text : Option String → Value
optional_text none = null
optional_text (some s) = str s

-- `{field: intent[field] for field in CONTROL_INTENT_HASH_FIELDS}`
unfoldable pub intent_hash_payload : ControlIntent → Fields
intent_hash_payload i = field "schema_version" (str i.schema_version) (
    field "kind" (str i.kind) (
      field "command_id" (str i.command_id) (
        field "tenant_id" (str i.tenant_id) (
          field "run_id" (str i.run_id) (
            field "repair_id" (optional_text i.repair_id) (
              field "session_id" (str i.session_id) (
                field "runner_provider_id" (str i.runner_provider_id) (
                  field "runner_instance_id" (str i.runner_instance_id) (
                    field "logical_target_id" (str i.logical_target_id) (
                      field "platform" (str i.platform) (
                        field "action" (str i.action) (
                          field "desired_terminal" (str i.desired_terminal) (
                            field "reason_code" (str i.reason_code) (
                              field "requested_at" (str i.requested_at)
                                (field "expires_at" (str i.expires_at) end)))))))))))))))

-- The tests against the clock, where the caller gives one.
unfoldable pub check_clock : ℕ → ℕ → Option ℕ → Result TrustedRepairErrorCode Unit
check_clock requested expires none = ok tt
check_clock requested expires (some now) = do
  refuse (ltb (now + control_intent_clock_skew) requested) validation_failed
  refuse (ltb (expires + control_intent_clock_skew) now) validation_failed

module _ (uuid_text : String → Option String) where
  -- `value == str(UUID(str(value)))`
  abbrev pub canonical_uuid : String → Result TrustedRepairErrorCode Unit
  canonical_uuid value = require (holds_text (uuid_text value) value) validation_failed

  abbrev pub canonical_repair : Option String → Result TrustedRepairErrorCode Unit
  canonical_repair none = ok tt
  canonical_repair (some value) = canonical_uuid value

  module _ (timestamp : String → Option ℕ) where
    unfoldable pub validate_control_intent_semantics :
        ControlIntent → Option ℕ → Result TrustedRepairErrorCode Unit
    unfolding check_clock
    validate_control_intent_semantics intent now =
        canonical_uuid intent.command_id
        >> canonical_uuid intent.run_id
        >> canonical_uuid intent.session_id
        >> canonical_uuid intent.runner_provider_id
        >> canonical_uuid intent.runner_instance_id
        >> canonical_repair intent.repair_id
        >> found (timestamp intent.requested_at) validation_failed
        >>= λ requested. found (timestamp intent.expires_at) validation_failed >>= λ expires.
            refuse (leb expires requested || ltb (requested + control_intent_max_ttl) expires)
              validation_failed
            >>= λ _. check_clock requested expires now

    module _ (nfc : String → String) (intent_sha256_hex : Value → String) where
      unfoldable pub compute_control_intent_hash :
          ControlIntent → Result TrustedRepairErrorCode String
      compute_control_intent_hash intent = validate_control_intent_semantics intent none >>= λ _.
          normalize nfc (obj (intent_hash_payload intent)) >>= λ canonical.
          ok (concat "sha256:" (intent_sha256_hex canonical))

      unfoldable pub validate_and_hash_control_intent :
          (ControlIntent → Bool) → ControlIntent → Option ℕ → Result TrustedRepairErrorCode String
      validate_and_hash_control_intent conforms intent now =
          validate_wire_object (λ i. i.schema_version) conforms intent >>= λ _.
          require (str_eq intent.kind "control_intent") validation_failed >>= λ _.
          require (str_eq intent.intent_hash_algorithm_id control_intent_hash_algorithm_id)
            validation_failed
          >>= λ _. validate_control_intent_semantics intent now >>= λ _.
              compute_control_intent_hash intent >>= λ expected.
              require (str_eq intent.intent_hash expected) idempotency_conflict >>= λ _. ok expected
