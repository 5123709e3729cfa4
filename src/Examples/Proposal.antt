-- ===== src/Examples/Proposal.antt =====
-- Witnesses for the proposals of runner/runner/trusted_proposal_draft.py.
use aiops_runner.Prelude.{
  ◌≡◌, refl, ℕ, String, Bool, true, false, some, Option, List, [], ◌∷◌, All, length, ok,
}
use aiops_runner.Contract.Json.{Value, normalize}
use aiops_runner.Proposal.{RepairProposal, validate_and_hash_proposal}
use aiops_runner.Proposal.Draft.{Draft, expand_diagnosis_draft_to_v1}
use aiops_runner.Proposal.Draft.Bounds.{IsBounded, expand-bounds}
use aiops_runner.Proposal.Hash.{expand-validates}

-- One word.
abbrev split : List ℕ → Option (List (List ℕ))
split command = some (command ∷ [])

abbrev accepts : Draft → Bool
accepts d = true

abbrev conforms : RepairProposal → Bool
conforms p = true

abbrev same_text : String → String
same_text t = t

abbrev short_digest : Value → String
short_digest v = "d"

abbrev uptime_draft : Draft
uptime_draft = record {
  summary = "s";
  root_cause = "r";
  evidence = [];
  confidence_percent = 50;
  repair_commands = record { command = "uptime"; reason = "r"; expected_result = "e" } ∷ [];
  expected_impact = "i";
  affected_scope = "a";
  risk_summary = "k";
  rollback_instructions = "b";
  verification_steps = record { command = "ls"; success_criteria = "c" } ∷ [];
}

abbrev uptime_proposal : RepairProposal
uptime_proposal = record {
  kind = "repair_proposal";
  schema_version = "1.0";
  proposal_revision = 1;
  proposal_hash_algorithm_id = "aiops-trusted-repair-proposalhash-v1";
  proposal_hash = "sha256:d";
  diagnosis_summary = "s";
  root_cause = "r";
  evidence = [];
  confidence = "0.5";
  target = record { runner_provider_id = "p"; logical_target_id = "t"; platform = "linux" };
  initial_commands =
      record {
        sequence = 1;
        command = "uptime";
        cwd = "/";
        reason = "r";
        expected_result = "e";
        expected_impact = "i";
        timeout_seconds = 1800;
        high_risk = false;
        on_failure = "stop_and_reassess";
      }
      ∷ [];
  expected_impact = "i";
  affected_scope = "a";
  rollback_instructions = "b";
  verification_steps =
      record { sequence = 1; command = "ls"; success_criteria = "c"; timeout_seconds = 1800 } ∷ [];
  risk_summary = "k";
}

uptime-expands :
    expand_diagnosis_draft_to_v1 split accepts same_text short_digest uptime_draft "p" "t"
      (some "now")
      9999
    ≡ ok uptime_proposal
unfolding expand_diagnosis_draft_to_v1 normalize
uptime-expands = refl

expand-validates_example :
    validate_and_hash_proposal conforms same_text short_digest uptime_proposal ≡ ok "sha256:d"
expand-validates_example =
    expand-validates split accepts same_text short_digest uptime_draft "p" "t" (some "now") 9999
      conforms uptime_proposal (λ t. refl) uptime-expands refl

expand-bounds_example :
    All (IsBounded split) uptime_proposal.initial_commands
    × (length uptime_proposal.initial_commands ≡ length uptime_draft.repair_commands)
expand-bounds_example =
    expand-bounds split accepts same_text short_digest uptime_draft "p" "t" (some "now") 9999
      uptime_proposal uptime-expands
