-- ===== src/Session/Resume.antt =====
-- `resume` and `_resume_bound` of runner/runner/trusted_session.py: the claim of a session whose
-- proposal is approved, the last checks before Claude starts, and what its run leaves. The session
-- exists, its identifier is canonical, and its lock is taken. The session lock is not held from the last
-- check to the start of the process, which `record_process` checks again before the prompt is written.
-- What `adapter.run` does from the prompt on is a parameter, and so are the answers of `append_event`
-- and of the start of the process.
pub mod Approved
pub mod Idle
use aiops_runner.Prelude.{
  String, Bool, true, false, not, ◌&&◌, ◌||◌, Option, none, some, is_some, if◌then◌else◌, Result,
  ok, err, ◌>>◌, require, raised,
}
use aiops_runner.Session.Codes.{SessionCode, resume_state_changed, launch_cancelled}
use aiops_runner.Session.Metadata.{
  LocalStatus, pending_approval, executing, proposal_generating, is_running, same_status,
  ProposalBinding, Metadata,
}
use aiops_runner.Session.Journal.Records.{Records}
use aiops_runner.Session.Outcome.{ClaudeRunResult, persist_result, record_uncertain}
use aiops_runner.Session.Launch.{
  Facts, enabled_for, validate_binding, same_text, Step, guarded, pre_spawn, Checks, Prompt,
  validate_initial_launch, build_prompt,
}

-- What the runner reads at the entry, under the session lock and before the process starts, and
-- what other threads do to the metadata before the lock, the claim, the last check, the record of the
-- process, and a failure's record. `resolve_profile` and `append_event` answer the error that they raise.
pub record Environment : Type 0 where
  pub at_entry : Facts
  pub at_lock : Facts
  pub at_start : Facts
  pub before_lock : Metadata → Metadata
  pub before_claim : Metadata → Metadata
  pub before_start : Metadata → Metadata
  pub before_process : Metadata → Metadata
  pub before_record : Metadata → Metadata
  pub resolve_profile : String → Option SessionCode
  pub append_event : Option SessionCode
  pub spawn : Result (Option SessionCode) (Unit {0})

-- The metadata that is left, the metadata that the last check read and the one that `record_process`
-- read where Claude was given the prompt, and the answer.
pub record Resumed : Type 0 where
  pub left : Metadata
  pub checked : Option Metadata
  pub started : Option Metadata
  pub answer : Result SessionCode ClaudeRunResult

-- `status`, `cancel_requested_at` and `claude_session_id` against the record read at first.
unfoldable pub is_unchanged : Metadata → Metadata → Bool
is_unchanged first current =
    same_status current.status pending_approval
    && (not (is_some current.cancel_requested_at)
        && same_text current.claude_session_id first.claude_session_id)

-- `status in {"DIAGNOSING", "EXECUTING", "PROPOSAL_GENERATING"}`
unfoldable pub is_launchable : LocalStatus → Bool
is_launchable status = is_running status || same_status status proposal_generating

-- `record_process`; the process identifiers that it stores are not part of the metadata here.
unfoldable pub record_process : Bool → Metadata → Result (Option SessionCode) (Unit {0})
unfolding is_launchable
record_process kill_switch m =
    require (not kill_switch && (not (is_some m.cancel_requested_at) && is_launchable m.status))
      (some launch_cancelled)

-- `compare_and_update`
unfoldable pub claim : Metadata → Metadata → Step (Unit {0})
unfolding is_unchanged
claim first current =
    if is_unchanged first current
    then (record current { status = executing; launching = true }, ok tt)
    else (current, err resume_state_changed)

abbrev pub and_then : {A B : Type 0} → Step A → (A → Metadata → Step B) → Step B
and_then (m, ok a) next = next a m
and_then (m, err code) next = (m, err code)

-- `update_if` on EXECUTING, with `launching` off
unfoldable pub launched : Metadata → Metadata
launched m = if same_status m.status executing then record m { launching = false } else m

-- The checks of `resume` and `_resume_bound` before the session is locked.
unfoldable pub entry_guard : Environment → Metadata → Result SessionCode (Unit {0})
unfolding enabled_for validate_binding
entry_guard env first =
    enabled_for env.at_entry first.logical_target_id
    >> raised (env.resolve_profile first.logical_target_id)
    >> validate_binding env.at_entry first
    >> raised (env.resolve_profile first.logical_target_id)

module _ {P R : Type 0} (checks : Checks P) (env : Environment) (files : Records P R)
    (approved : ProposalBinding)
    (run : Prompt P → Metadata → Metadata × Result (Option SessionCode) ClaudeRunResult) where
  -- What happens under the session lock.
  unfoldable pub claimed_prompt : Metadata → Step (Prompt P)
  unfolding enabled_for validate_binding guarded is_unchanged build_prompt claim
  claimed_prompt first =
      let current = env.before_lock first in
      and_then
        (guarded
          (enabled_for env.at_lock first.logical_target_id
            >> validate_binding env.at_lock current
            >> require (is_unchanged first current) resume_state_changed)
          current (build_prompt checks env.at_lock files approved current))
        (λ prompt m.
          and_then (claim first (env.before_claim m))
            (λ u claimed. (claimed, raised env.append_event >> ok prompt)))

  abbrev failed : Option SessionCode → Metadata → SessionCode × Metadata
  unfolding record_uncertain
  failed exc m = record_uncertain env.before_record exc m

  -- The end of the run.
  unfoldable pub settle :
      Metadata → Metadata → Metadata × Result (Option SessionCode) ClaudeRunResult → Resumed
  unfolding persist_result launched failed
  settle checked started (m, ok result) = record {
    left = persist_result result true (launched m);
    checked = some checked;
    started = some started;
    answer = ok result;
  }
  settle checked started (m, err exc) = record {
    left = (failed exc m).1;
    checked = some checked;
    started = some started;
    answer = err (failed exc m).0;
  }

  -- The process is started and recorded, and only then given the prompt.
  unfoldable pub spawned :
      Prompt P → Metadata → Metadata → Result (Option SessionCode) (Unit {0}) → Resumed
  unfolding settle failed
  spawned prompt checked m (ok u) = settle checked m (run prompt m)
  spawned prompt checked m (err exc) = record {
    left = (failed exc m).1;
    checked = none;
    started = none;
    answer = err (failed exc m).0;
  }

  -- `adapter.run` after the last checks.
  unfoldable pub start : Prompt P → Step (Unit {0}) → Resumed
  unfolding spawned record_process failed
  start prompt (m, ok u) =
      let now = env.before_process m in
      spawned prompt m now (env.spawn >> record_process env.at_start.kill_switch now)
  start prompt (m, err code) = record {
    left = (failed (some code) m).1;
    checked = none;
    started = none;
    answer = err code;
  }

  unfoldable pub execute : Step (Prompt P) → Resumed
  unfolding start pre_spawn validate_initial_launch
  execute (m, ok prompt) = start prompt (
      pre_spawn env.at_start executing (validate_initial_launch checks env.at_start files approved)
        (env.before_start m))
  execute (m, err code) = record { left = m; checked = none; started = none; answer = err code }

  unfoldable pub resume : Metadata → Resumed
  unfolding entry_guard guarded claimed_prompt execute
  resume first = execute (guarded (entry_guard env first) first (claimed_prompt first))
