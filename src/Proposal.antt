-- ===== src/Proposal.antt =====
-- `RepairProposal` v1 and `validate_and_hash_proposal` of
-- runner/runner/trusted_repair_contract.py.
pub mod Draft
pub mod Risk
pub mod Hash
use aiops_runner.Prelude.{
  ◌≡◌, ℕ, zero, suc, String, Bool, true, false, ◌&&◌, List, [], ◌∷◌, str_eq, ◌==◌, concat, Result,
  ok, err, ◌>>=◌, require, map,
}
use aiops_runner.Contract.Lifecycle.{
  TrustedRepairErrorCode, validation_failed, proposal_hash_mismatch,
}
use aiops_runner.Contract.Wire.{validate_wire_object}
use aiops_runner.Contract.Json.{
  Value, bool, int, str, obj, arr, Items, nil, cons, Fields, end, field, normalize,
  canonical_digest,
}

pub record Evidence : Type 0 where
  pub summary : String
  pub source : String
  pub observed_at : String
  pub reference : String

pub record Command : Type 0 where
  pub sequence : ℕ
  pub command : String
  pub cwd : String
  pub reason : String
  pub expected_result : String
  pub expected_impact : String
  pub timeout_seconds : ℕ
  pub high_risk : Bool
  pub on_failure : String

pub record VerificationStep : Type 0 where
  pub sequence : ℕ
  pub command : String
  pub success_criteria : String
  pub timeout_seconds : ℕ

pub record Target : Type 0 where
  pub runner_provider_id : String
  pub logical_target_id : String
  pub platform : String

pub record RepairProposal : Type 0 where
  pub kind : String
  pub schema_version : String
  pub proposal_revision : ℕ
  pub proposal_hash_algorithm_id : String
  pub proposal_hash : String
  pub diagnosis_summary : String
  pub root_cause : String
  pub evidence : List Evidence
  pub confidence : String
  pub target : Target
  pub initial_commands : List Command
  pub expected_impact : String
  pub affected_scope : String
  pub rollback_instructions : String
  pub verification_steps : List VerificationStep
  pub risk_summary : String

abbrev pub proposal_hash_algorithm_id : String
proposal_hash_algorithm_id = "aiops-trusted-repair-proposalhash-v1"

-- The members as JSON.
abbrev array {ℓ} : {A : Type ℓ} → (A → Value) → List A → Items
array f [] = nil
array f (x ∷ xs) = cons (f x) (array f xs)

unfoldable pub evidence_value : Evidence → Value
evidence_value e = obj (
    field "summary" (str e.summary) (
      field "source" (str e.source)
        (field "observed_at" (str e.observed_at) (field "reference" (str e.reference) end))))

unfoldable pub command_value : Command → Value
command_value c = obj (
    field "sequence" (int c.sequence) (
      field "command" (str c.command) (
        field "cwd" (str c.cwd) (
          field "reason" (str c.reason) (
            field "expected_result" (str c.expected_result) (
              field "expected_impact" (str c.expected_impact) (
                field "timeout_seconds" (int c.timeout_seconds) (
                  field "high_risk" (bool c.high_risk)
                    (field "on_failure" (str c.on_failure) end)))))))))

unfoldable pub step_value : VerificationStep → Value
step_value s = obj (
    field "sequence" (int s.sequence) (
      field "command" (str s.command) (
        field "success_criteria" (str s.success_criteria)
          (field "timeout_seconds" (int s.timeout_seconds) end))))

unfoldable pub target_value : Target → Value
target_value t = obj (
    field "runner_provider_id" (str t.runner_provider_id)
      (field "logical_target_id" (str t.logical_target_id) (field "platform" (str t.platform) end)))

-- `{key: proposal[key] for key in PROPOSAL_HASH_FIELDS}`
unfoldable pub hash_payload : RepairProposal → Value
unfolding evidence_value command_value step_value target_value
hash_payload p = obj (
    field "schema_version" (str p.schema_version) (
      field "proposal_revision" (int p.proposal_revision) (
        field "diagnosis_summary" (str p.diagnosis_summary) (
          field "root_cause" (str p.root_cause) (
            field "evidence" (arr (array evidence_value p.evidence)) (
              field "confidence" (str p.confidence) (
                field "target" (target_value p.target) (
                  field "initial_commands" (arr (array command_value p.initial_commands)) (
                    field "expected_impact" (str p.expected_impact) (
                      field "affected_scope" (str p.affected_scope) (
                        field "rollback_instructions" (str p.rollback_instructions) (
                          field "verification_steps" (arr (array step_value p.verification_steps))
                            (field "risk_summary" (str p.risk_summary) end)))))))))))))

-- `sequences == list(range(1, len(values) + 1))`, from a first number on.
abbrev pub is_range : ℕ → List ℕ → Bool
is_range n [] = true
is_range n (s ∷ ss) = s == n && is_range (suc n) ss

abbrev pub sequences : RepairProposal → List ℕ × List ℕ
sequences p = (map (λ c. c.sequence) p.initial_commands, map (λ s. s.sequence) p.verification_steps)

module _ (conforms : RepairProposal → Bool) (nfc : String → String)
    (sha256_hex : Value → String) where
  unfoldable pub expected_hash : RepairProposal → Result TrustedRepairErrorCode String
  unfolding hash_payload normalize canonical_digest
  expected_hash p =
      normalize nfc (hash_payload p) >>= λ payload. canonical_digest nfc sha256_hex payload

  unfoldable pub validate_and_hash_proposal : RepairProposal → Result TrustedRepairErrorCode String
  unfolding validate_wire_object
  validate_and_hash_proposal p = validate_wire_object (λ q. q.schema_version) conforms p >>= λ _.
      require (str_eq p.kind "repair_proposal") validation_failed >>= λ _.
      require (str_eq p.proposal_hash_algorithm_id proposal_hash_algorithm_id) validation_failed
      >>= λ _. require (is_range 1 (sequences p).0) validation_failed >>= λ _.
          require (is_range 1 (sequences p).1) validation_failed >>= λ _.
          expected_hash p >>= λ expected.
          require (str_eq p.proposal_hash expected) proposal_hash_mismatch >>= λ _. ok expected
