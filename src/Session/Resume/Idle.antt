-- ===== src/Session/Resume/Idle.antt =====
-- What is left of an execution once `resume` answers.
use aiops_runner.Prelude.{◌≡◌, true, false, Option, some, Result, ok, err, is_some}
use aiops_runner.Session.Codes.{SessionCode}
use aiops_runner.Session.Metadata.{executing, same_status, ProposalBinding, Metadata}
use aiops_runner.Session.Journal.Records.{Records}
use aiops_runner.Session.Outcome.{ClaudeRunResult}
use aiops_runner.Session.Launch.{Step, Checks, Prompt}
use aiops_runner.Session.Resume.{Environment}

-- `status != "EXECUTING"`
abbrev pub IsIdle : Metadata → Type 0
IsIdle m = same_status m.status executing ≡ false

-- Why a session may be EXECUTING when `resume` has answered: it is not, or the journal did not take the
-- event of the claim, or somebody has asked to cancel it, or another thread started an execution
-- before this one took the lock or made its claim.
pub data IsAccounted (env : Environment) (first : Metadata) (left : Metadata) : Type 0 where
  idle : IsIdle left → IsAccounted env first left
  not_recorded : (code : SessionCode) → env.append_event ≡ some code → IsAccounted env first left
  cancelling : is_some left.cancel_requested_at ≡ true → IsAccounted env first left
  locked_elsewhere :
      same_status (env.before_lock first).status executing ≡ true → IsAccounted env first left
  claimed_elsewhere :
      (m : Metadata)
      → IsIdle m
      → same_status (env.before_claim m).status executing ≡ true
      → IsAccounted env first left

module _ {P R : Type 0} (checks : Checks P) (env : Environment) (files : Records P R)
    (approved : ProposalBinding)
    (run : Prompt P → Metadata → Metadata × Result (Option SessionCode) ClaudeRunResult)
    (first : Metadata) where
  -- The metadata of a step that raises is accounted for.
  unfoldable RaisesAccounted : {A : Type 0} → Step A → Type 0
  RaisesAccounted (m, ok a) = Unit
  RaisesAccounted (m, err code) = IsAccounted env first m
