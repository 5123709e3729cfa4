-- ===== src/Proposal/Draft.antt =====
-- The private draft of a diagnosis and its expansion to `RepairProposal` v1:
-- `validate_diagnosis_draft`, `_confidence_string`, `_observed_at`, `_runner_timeout` and
-- `expand_diagnosis_draft_to_v1` of runner/runner/trusted_proposal_draft.py. The draft's JSON Schema
-- is a parameter, and so is the text of the aware time of observation, `none` where there is none.
pub mod Bounds
use aiops_runner.Prelude.{
  ℕ, zero, suc, ◌/◌, ◌%◌, String, Bool, true, false, Option, none, some, List, [], ◌∷◌, get_elem?,
  min, max, map, ◌==◌, concat, codes, if◌then◌else◌, Result, ok, err, ◌>>=◌, require, found,
}
use aiops_runner.Contract.Lifecycle.{TrustedRepairErrorCode}
use aiops_runner.Contract.Wire.{schema_version}
use aiops_runner.Contract.Json.{Value, canonical_digest}
use aiops_runner.Proposal.{
  Evidence, Command, VerificationStep, Target, RepairProposal, proposal_hash_algorithm_id,
  hash_payload,
}
use aiops_runner.Proposal.Risk.{command_is_high_risk}

pub record DraftEvidence : Type 0 where
  pub summary : String
  pub source : String
  pub reference : String

pub record DraftCommand : Type 0 where
  pub command : String
  pub reason : String
  pub expected_result : String

pub record DraftStep : Type 0 where
  pub command : String
  pub success_criteria : String

-- The four sections, one after the other.
pub record Draft : Type 0 where
  pub summary : String
  pub root_cause : String
  pub evidence : List DraftEvidence
  pub confidence_percent : ℕ
  pub repair_commands : List DraftCommand
  pub expected_impact : String
  pub affected_scope : String
  pub risk_summary : String
  pub rollback_instructions : String
  pub verification_steps : List DraftStep

-- `draft` is a TrustedProposalDraftError, `contract` an error of the canonical JSON.
pub data DraftError : Type 0 where
  draft : DraftError
  contract : TrustedRepairErrorCode → DraftError

abbrev digits : List String
digits = "0" ∷ "1" ∷ "2" ∷ "3" ∷ "4" ∷ "5" ∷ "6" ∷ "7" ∷ "8" ∷ "9" ∷ []

abbrev digit : ℕ → String
digit n = elim (get_elem? digits n) [ none ↦ "" | some d ↦ d ]

-- For a percentage of at most 100, which the schema asks: `f"{percent / 100:.2f}"` is `0.` and two
-- digits, of which `rstrip` takes a last `0`.
unfoldable pub confidence_string : ℕ → String
confidence_string percent =
    if percent == 0
    then "0"
    else if percent == 100
    then "1"
    else concat "0." (
        if percent % 10 == 0
        then digit (percent / 10)
        else concat (digit (percent / 10)) (digit (percent % 10)))

unfoldable pub runner_timeout : ℕ → ℕ
runner_timeout value = max 1 (min value 1800)

abbrev with_time : String → DraftEvidence → Evidence
with_time observed_at item = record {
  summary = item.summary;
  source = item.source;
  observed_at = observed_at;
  reference = item.reference;
}

module _ (split : List ℕ → Option (List (List ℕ))) where
  unfoldable pub expand_command : String → ℕ → ℕ → DraftCommand → Command
  unfolding command_is_high_risk
  expand_command expected_impact timeout sequence item = record {
    sequence = sequence;
    command = item.command;
    cwd = "/";
    reason = item.reason;
    expected_result = item.expected_result;
    expected_impact = expected_impact;
    timeout_seconds = timeout;
    high_risk = command_is_high_risk split (codes item.command);
    on_failure = "stop_and_reassess";
  }

  -- `enumerate(…, start=n)`
  unfoldable pub expand_commands : String → ℕ → ℕ → List DraftCommand → List Command
  unfolding expand_command
  expand_commands expected_impact timeout n [] = []
  expand_commands expected_impact timeout n (item ∷ items) =
      expand_command expected_impact timeout n item
      ∷ expand_commands expected_impact timeout (suc n) items

unfoldable pub expand_steps : ℕ → ℕ → List DraftStep → List VerificationStep
expand_steps timeout n [] = []
expand_steps timeout n (item ∷ items) =
    record {
      sequence = n;
      command = item.command;
      success_criteria = item.success_criteria;
      timeout_seconds = timeout;
    }
    ∷ expand_steps timeout (suc n) items

module _ (split : List ℕ → Option (List (List ℕ))) (conforms : Draft → Bool) (nfc : String → String)
    (sha256_hex : Value → String) where
  -- The proposal before its hash is set.
  unfoldable pub unhashed : Draft → Target → String → ℕ → RepairProposal
  unfolding confidence_string expand_commands expand_steps
  unhashed d target observed_at timeout = record {
    kind = "repair_proposal";
    schema_version = schema_version;
    proposal_revision = 1;
    proposal_hash_algorithm_id = proposal_hash_algorithm_id;
    proposal_hash = "";
    diagnosis_summary = d.summary;
    root_cause = d.root_cause;
    evidence = map (with_time observed_at) d.evidence;
    confidence = confidence_string d.confidence_percent;
    target = target;
    initial_commands = expand_commands split d.expected_impact timeout 1 d.repair_commands;
    expected_impact = d.expected_impact;
    affected_scope = d.affected_scope;
    rollback_instructions = d.rollback_instructions;
    verification_steps = expand_steps timeout 1 d.verification_steps;
    risk_summary = d.risk_summary;
  }

  -- `proposal["proposal_hash"] = …`
  unfoldable pub hashed :
      RepairProposal → Result TrustedRepairErrorCode String → Result DraftError RepairProposal
  hashed p (ok hash) = ok (record p { proposal_hash = hash })
  hashed p (err code) = err (contract code)

  unfoldable pub expand_diagnosis_draft_to_v1 :
      Draft → String → String → Option String → ℕ → Result DraftError RepairProposal
  unfolding unhashed hashed runner_timeout hash_payload canonical_digest
  expand_diagnosis_draft_to_v1 d runner_provider_id logical_target_id observed_at
        command_timeout_seconds =
      require (conforms d) draft >>= λ _. found observed_at draft >>= λ timestamp.
      let target : Target = record {
        runner_provider_id = runner_provider_id;
        logical_target_id = logical_target_id;
        platform = "linux";
      } in
      let p = unhashed d target timestamp (runner_timeout command_timeout_seconds) in
      hashed p (canonical_digest nfc sha256_hex (hash_payload p))
