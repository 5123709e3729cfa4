-- ===== src/Examples/Launch.antt =====
-- Witnesses for the launch of an approved proposal in runner/runner/trusted_session.py.
use aiops_runner.Prelude.{◌≡◌, refl, ℕ, String, true, false, none, some, Option, [], Result, ok}
use aiops_runner.Session.Codes.{SessionCode}
use aiops_runner.Session.Metadata.{
  executing, pending_approval, is_running, same_status, ProposalBinding, Metadata,
}
use aiops_runner.Session.Journal.Records.{Records}
use aiops_runner.Session.Outcome.{ClaudeRunResult, success}
use aiops_runner.Session.Launch.{Facts, Checks, returned, Prompt}
use aiops_runner.Session.Resume.{Environment, resume}
use aiops_runner.Session.Resume.Approved.{IsEnabled, IsApproved, IsRecorded, resume-starts}
use aiops_runner.Examples.Session.{session}

abbrev binding : ProposalBinding
binding = record {
  proposal_revision = some 1;
  proposal_hash_algorithm_id = some "a";
  proposal_hash = some "h";
}

abbrev checks : Checks String
checks = record {
  record_fingerprint = λ p. p;
  binding_of = λ p. binding;
  proposal_validator = λ p. returned (some "h");
}

abbrev files : Records String String
files = record {
  has_metadata = true;
  proposal = some "p";
  outbox = some "p";
  proposal_fingerprint = some "p";
  risks = [];
}

abbrev waiting : Metadata
waiting = record (session pending_approval) {
  proposal = binding;
  proposal_content_fingerprint = some "p";
  approval_expires_at = some 10;
}

abbrev facts : ℕ → Facts
facts now = record {
  identity_proven = true;
  kill_switch = false;
  enabled = true;
  target_authorizer = λ t. none;
  expected = waiting.launch;
  clock = some now;
}

abbrev environment : Environment
environment = record {
  at_entry = facts 1;
  at_lock = facts 2;
  at_start = facts 3;
  before_lock = λ m. m;
  before_claim = λ m. m;
  before_start = λ m. m;
  before_process = λ m. m;
  before_record = λ m. m;
  resolve_profile = λ t. none;
  append_event = none;
  spawn = ok tt;
}

abbrev run : Prompt String → Metadata → Metadata × Result (Option SessionCode) ClaudeRunResult
run prompt m = (
  record m { cancel_requested_at = none },
  ok (record { remote_command_seen = false; risk_pause = false; verification_outcome = success }),
)

abbrev started : Metadata
started = record waiting { status = executing; launching = true }

resume-starts_example :
    (IsEnabled (facts 3) started × IsApproved checks (facts 3) files binding started)
    × (started ≡ started)
    × IsRecorded started
unfolding resume same_status is_running
resume-starts_example =
    resume-starts checks environment files binding run waiting started started refl refl
