-- ===== src/Inspection/Batch.antt =====
-- The life of an inspection batch (runner/runner/inspection.py, `_run_batch`, `_update_target`,
-- `_finish_batch`, `_mark_cancelled` and `_recover`). Each operation is one update of the store,
-- which counts its snapshots. Times are texts that the caller gives, and a failure is the text of its
-- object. Reports and the other members of a target that an update sets are a function.
pub mod Cancelled
pub mod Finished
use aiops_runner.Prelude.{
  ℕ, suc, String, Bool, true, false, ◌&&◌, Option, none, some, List, [], ◌∷◌, all, any, str_eq,
  is_some, holds_text, if◌then◌else◌, Result, ok, err,
}

pub data TargetStatus : Type 0 where
  queued diagnosing healthy warning critical unknown target_failed target_cancelled : TargetStatus

pub data BatchStatus : Type 0 where
  preparing running succeeded partial_success failed cancelled : BatchStatus

pub record Target : Type 0 where
  pub session_id : String
  pub status : TargetStatus
  pub failure : Option String
  pub terminal_reason : Option String
  pub finished_at : Option String

pub record Batch : Type 0 where
  pub status : BatchStatus
  pub failure : Option String
  pub started_at : Option String
  pub finished_at : Option String
  pub snapshot_revision : ℕ
  pub targets : List Target

-- The arguments of `_update_target`: every call of it sets the status.
pub record TargetChange : Type 0 where
  pub status : TargetStatus
  pub others : Target → Target

pub data BatchCode : Type 0 where
  inspection_target_not_found : BatchCode

-- `_VALID_REPORT`
unfoldable pub is_valid_report : TargetStatus → Bool
is_valid_report healthy = true
is_valid_report warning = true
is_valid_report critical = true
is_valid_report unknown = true
is_valid_report _ = false

unfoldable pub is_cancelled : TargetStatus → Bool
is_cancelled target_cancelled = true
is_cancelled _ = false

-- `_TERMINAL`
unfoldable pub is_final : TargetStatus → Bool
is_final queued = false
is_final diagnosing = false
is_final _ = true

unfoldable pub is_queued : TargetStatus → Bool
is_queued queued = true
is_queued _ = false

-- `InspectionStore.save` counts the snapshot.
unfoldable pub saved : Batch → Batch
saved b = record b { snapshot_revision = suc b.snapshot_revision }

unfoldable pub or_now : Option String → String → Option String
or_now none now = some now
or_now (some at) now = some at

-- The first update of `_run_batch`.
unfoldable pub begin_batch : String → Batch → Batch
begin_batch now b = saved (record b { status = running; started_at = or_now b.started_at now })

unfoldable pub apply_change : TargetChange → Target → Target
apply_change c t = record (c.others t) { session_id = t.session_id; status = c.status }

-- Cancellation of a target is final.
unfoldable pub change_target : TargetChange → Target → Target
change_target c t =
    if is_cancelled t.status
    then (if is_cancelled c.status then apply_change c t else t)
    else apply_change c t

unfoldable pub change_first : String → TargetChange → List Target → Option (List Target)
change_first session_id c [] = none
change_first session_id c (t ∷ rest) =
    let later = change_first session_id c rest in
    if str_eq t.session_id session_id
    then some (change_target c t ∷ rest)
    else elim later [ none ↦ none | some changed ↦ some (t ∷ changed) ]

-- `_update_target`; when it raises, nothing is saved.
unfoldable pub update_target : String → TargetChange → Batch → Result BatchCode Batch
update_target session_id c b = elim (change_first session_id c b.targets) [
  | none ↦ err inspection_target_not_found
  | some changed ↦ ok (saved (record b { targets = changed }))
]

unfoldable pub verdict : List Target → BatchStatus
verdict targets =
    if all (λ t. is_valid_report t.status) targets
    then succeeded
    else if any (λ t. is_valid_report t.status) targets
    then partial_success
    else failed

unfoldable pub shared_failure : Option String → List Target → Option String
shared_failure none rest = none
shared_failure (some f) rest = if all (λ u. holds_text u.failure f) rest then some f else none

-- The failure that all targets share.
unfoldable pub common_failure : List Target → Option String
common_failure [] = none
common_failure (t ∷ rest) = shared_failure t.failure rest

unfoldable pub failure_of : BatchStatus → List Target → Option String
failure_of failed targets = common_failure targets
failure_of _ targets = none

unfoldable pub is_batch_cancelled : BatchStatus → Bool
is_batch_cancelled cancelled = true
is_batch_cancelled _ = false

-- `_finish_batch`
unfoldable pub finish_batch : String → Batch → Batch
finish_batch now b = saved (
    if is_batch_cancelled b.status then b else record b {
      status = verdict b.targets;
      failure = failure_of (verdict b.targets) b.targets;
      finished_at = some now;
    })

unfoldable pub cancel_target : String → Target → Target
cancel_target now t = if is_final t.status then t else record t {
  status = target_cancelled;
  failure = none;
  terminal_reason = none;
  finished_at = some now;
}

unfoldable pub cancel_targets : String → List Target → List Target
cancel_targets now [] = []
cancel_targets now (t ∷ rest) = cancel_target now t ∷ cancel_targets now rest

-- `_mark_cancelled`
unfoldable pub mark_cancelled : String → Batch → Batch
mark_cancelled now b = saved (record b {
  status = cancelled;
  failure = none;
  finished_at = some now;
  targets = cancel_targets now b.targets;
})

unfoldable pub recover_target : String → Target → Target
recover_target now t = elim t.status [
  | diagnosing ↦ record t {
    status = unknown;
    failure = some "RUNNER_RESTARTED_DURING_INSPECTION";
    terminal_reason = some "RUNNER_RESTARTED_DURING_INSPECTION";
    finished_at = some now;
  }
  | _ ↦ t
]

unfoldable pub recover_targets : String → List Target → List Target
recover_targets now [] = []
recover_targets now (t ∷ rest) = recover_target now t ∷ recover_targets now rest

-- `_recover`, on the batch that was active.
unfoldable pub recover_batch : String → Batch → Batch
recover_batch now b = saved (record b { targets = recover_targets now b.targets })

-- The sessions that `_run_batch` inspects.
unfoldable pub queued_targets : List Target → List String
queued_targets [] = []
queued_targets (t ∷ rest) =
    let later = queued_targets rest in if is_queued t.status then t.session_id ∷ later else later
