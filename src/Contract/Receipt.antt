-- ===== src/Contract/Receipt.antt =====
-- Control receipts: `compute_control_receipt_fingerprint` and `validate_control_receipt` of
-- runner/runner/trusted_repair_contract.py. The schema types `outcome` and `reason_code` by its
-- enumerations.
use aiops_runner.Prelude.{
  String, Bool, true, false, not, ◌&&◌, ◌||◌, Option, none, some, str_eq, is_some, Result, ok,
  ◌>>=◌, ◌>>◌, require, refuse,
}
use aiops_runner.Contract.Lifecycle.{
  TrustedRepairErrorCode, validation_failed, event_content_conflict,
}
use aiops_runner.Contract.Wire.{validate_wire_object}
use aiops_runner.Contract.Json.{Value, null, bool, str, obj, Fields, end, field, canonical_digest}
use aiops_runner.Contract.Intent.{control_intent_hash_algorithm_id, optional_text, canonical_uuid}
use aiops_runner.Contract.Outcome.{
  ControlReason, control_applied, already_applied_reason, stop_uncertain_reason,
  invalid_intent_reason, intent_conflict, intent_expired, ControlOutcome, closed, stopped_confirmed,
  stop_uncertain, invalid_intent, already_applied,
}

pub record ControlReceipt : Type 0 where
  pub schema_version : String
  pub kind : String
  pub receipt_id : String
  pub command_id : String
  pub tenant_id : String
  pub run_id : String
  pub repair_id : Option String
  pub session_id : String
  pub runner_provider_id : String
  pub runner_instance_id : String
  pub logical_target_id : String
  pub platform : String
  pub intent_hash_algorithm_id : String
  pub intent_hash : String
  pub outcome : ControlOutcome
  pub command_result_certain : Bool
  pub reason_code : ControlReason
  pub prior_outcome : Option ControlOutcome
  pub prior_command_result_certain : Option Bool
  pub observed_at : String
  pub receipt_fingerprint : String

abbrev pub outcome_text : ControlOutcome → String
outcome_text closed = "CLOSED"
outcome_text stopped_confirmed = "STOPPED_CONFIRMED"
outcome_text stop_uncertain = "STOP_UNCERTAIN"
outcome_text invalid_intent = "INVALID_INTENT"
outcome_text already_applied = "ALREADY_APPLIED"

abbrev pub reason_text : ControlReason → String
reason_text control_applied = "CONTROL_APPLIED"
reason_text already_applied_reason = "ALREADY_APPLIED"
reason_text stop_uncertain_reason = "STOP_UNCERTAIN"
reason_text invalid_intent_reason = "INVALID_INTENT"
reason_text intent_conflict = "INTENT_CONFLICT"
reason_text intent_expired = "INTENT_EXPIRED"

abbrev pub optional_outcome : Option ControlOutcome → Value
optional_outcome none = null
optional_outcome (some o) = str (outcome_text o)

abbrev pub optional_bool : Option Bool → Value
optional_bool none = null
optional_bool (some b) = bool b

-- Every member but the fingerprint.
unfoldable pub receipt_payload : ControlReceipt → Fields
receipt_payload r = field "kind" (str r.kind) (
    field "schema_version" (str r.schema_version) (
      field "receipt_id" (str r.receipt_id) (
        field "command_id" (str r.command_id) (
          field "tenant_id" (str r.tenant_id) (
            field "run_id" (str r.run_id) (
              field "repair_id" (optional_text r.repair_id) (
                field "session_id" (str r.session_id) (
                  field "runner_provider_id" (str r.runner_provider_id) (
                    field "runner_instance_id" (str r.runner_instance_id) (
                      field "logical_target_id" (str r.logical_target_id) (
                        field "platform" (str r.platform) (
                          field "intent_hash_algorithm_id" (str r.intent_hash_algorithm_id) (
                            field "intent_hash" (str r.intent_hash) (
                              field "outcome" (str (outcome_text r.outcome)) (
                                field "command_result_certain" (bool r.command_result_certain) (
                                  field "reason_code" (str (reason_text r.reason_code)) (
                                    field "prior_outcome" (optional_outcome r.prior_outcome) (
                                      field "prior_command_result_certain"
                                        (optional_bool r.prior_command_result_certain)
                                        (field "observed_at" (str r.observed_at)
                                          end)))))))))))))))))))

abbrev pub is_prior_outcome : Option ControlOutcome → Bool
is_prior_outcome none = false
is_prior_outcome (some already_applied) = false
is_prior_outcome (some _) = true

abbrev pub same_bool : Bool → Bool → Bool
same_bool true b = b
same_bool false b = not b

-- `prior[1]` is a Boolean and `certain is prior[1]`
abbrev pub is_certainty : Option Bool → Bool → Bool
is_certainty none certain = false
is_certainty (some prior) certain = same_bool certain prior

abbrev is_applied : ControlReason → Bool
is_applied control_applied = true
is_applied _ = false

abbrev is_already : ControlReason → Bool
is_already already_applied_reason = true
is_already _ = false

abbrev is_uncertain : ControlReason → Bool
is_uncertain stop_uncertain_reason = true
is_uncertain _ = false

abbrev is_invalid : ControlReason → Bool
is_invalid intent_conflict = true
is_invalid intent_expired = true
is_invalid invalid_intent_reason = true
is_invalid _ = false

-- The rules that tie outcome, certainty, reason and prior result together. Each `if` of the source
-- names its outcomes, so one clause holds those that apply to an outcome.
unfoldable pub check_outcome :
    ControlOutcome
    → Bool
    → ControlReason
    → Option ControlOutcome
    → Option Bool
    → Result TrustedRepairErrorCode Unit
check_outcome already_applied certain reason prior prior_certain =
    require (is_prior_outcome prior && (is_certainty prior_certain certain && is_already reason))
      validation_failed
check_outcome closed certain reason prior prior_certain =
    refuse (is_some prior || is_some prior_certain) validation_failed
    >> require (certain && is_applied reason) validation_failed
check_outcome stopped_confirmed certain reason prior prior_certain =
    refuse (is_some prior || is_some prior_certain) validation_failed
    >> require (certain && is_applied reason) validation_failed
check_outcome stop_uncertain certain reason prior prior_certain =
    refuse (is_some prior || is_some prior_certain) validation_failed
    >> require (not certain && is_uncertain reason) validation_failed
check_outcome invalid_intent certain reason prior prior_certain =
    refuse (is_some prior || is_some prior_certain) validation_failed
    >> require (not certain && is_invalid reason) validation_failed

module _ (nfc : String → String) (sha256_hex : Value → String) where
  unfoldable pub compute_control_receipt_fingerprint :
      ControlReceipt → Result TrustedRepairErrorCode String
  compute_control_receipt_fingerprint r = canonical_digest nfc sha256_hex (obj (receipt_payload r))

  unfoldable pub validate_control_receipt :
      (String → Option String)
      → (ControlReceipt → Bool)
      → ControlReceipt
      → Result TrustedRepairErrorCode String
  validate_control_receipt uuid_text conforms r =
      validate_wire_object (λ x. x.schema_version) conforms r >>= λ _.
      require (str_eq r.kind "control_receipt") validation_failed >>= λ _.
      require (str_eq r.intent_hash_algorithm_id control_intent_hash_algorithm_id) validation_failed
      >>= λ _. canonical_uuid uuid_text r.receipt_id >>= λ _.
          canonical_uuid uuid_text r.command_id >>= λ _. canonical_uuid uuid_text r.run_id >>= λ _.
          canonical_uuid uuid_text r.session_id >>= λ _.
          canonical_uuid uuid_text r.runner_provider_id >>= λ _.
          canonical_uuid uuid_text r.runner_instance_id >>= λ _.
          check_outcome r.outcome r.command_result_certain r.reason_code r.prior_outcome
            r.prior_command_result_certain
          >>= λ _. compute_control_receipt_fingerprint r >>= λ expected.
              require (str_eq r.receipt_fingerprint expected) event_content_conflict >>= λ _.
              ok expected
