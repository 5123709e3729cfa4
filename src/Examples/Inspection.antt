-- ===== src/Examples/Inspection.antt =====
-- Witnesses for runner/runner/inspection.py.
use aiops_runner.Prelude.{
  All, one_of, String, Bool, false, ◌≡◌, refl, ℕ, zero, suc, ◌-◌, ◌≤◌, true, none, some, [], ◌∷◌,
  count, List, str_eq, if◌then◌else◌, arith,
}
use aiops_runner.Inspection.Batch.{
  Batch, Target, running, preparing, cancelled, failed, queued, diagnosing, healthy, target_failed,
  is_valid_report, begin_batch, finish_batch, cancel_targets, mark_cancelled,
}
use aiops_runner.Inspection.Batch.Cancelled.{
  Event, updates, finishes, steps, Kept, mark_cancelled-stays, mark_cancelled-lost,
}
use aiops_runner.Inspection.Create.{
  StoredBatch, CreateRequest, existing, idempotency_conflict, is_unfinished, by_key, by_id, active,
  prepared, admit, check_id, check_key, create,
}
use aiops_runner.Inspection.Create.Admitted.{
  StoreEvent, requests, progresses, store_steps, create-replayed,
}
use aiops_runner.Inspection.Report.{
  Report, critical, severe, mild, unverified_checks, baseline_categories, all_distinct,
  sort_severities, insert_severity, same_severities, same_status, is_severe, categories,
  is_complete, severities, expected_report_status, validate_report_evidence,
}
use aiops_runner.Inspection.Report.Judged.{
  times, IsStatusOf, SevereFirst, validate_report_evidence-IsSound,
}
use aiops_runner.Inspection.Callback.{Answer, Stored, attempt_from, max_attempts}
use aiops_runner.Inspection.Callback.Attempts.{EndsWell, attempt_from-ends}

abbrev queued_target : Target
queued_target = record {
  session_id = "s1";
  status = queued;
  failure = none;
  terminal_reason = none;
  finished_at = none;
}

abbrev diagnosed_target : Target
diagnosed_target = record queued_target { session_id = "s2"; status = diagnosing }

abbrev two_targets : Batch
two_targets = record {
  status = running;
  failure = none;
  started_at = some "t0";
  finished_at = none;
  snapshot_revision = 2;
  targets = diagnosed_target ∷ queued_target ∷ [];
}

abbrev late_report : Event
late_report = updates "s2" (record { status = healthy; others = λ t. t })

mark_cancelled-stays_example :
    ((steps (mark_cancelled "t1" two_targets) (late_report ∷ finishes "t2" ∷ [])).status
      ≡ cancelled)
    × Kept
        (cancel_targets "t1" two_targets.targets)
        (steps (mark_cancelled "t1" two_targets) (late_report ∷ finishes "t2" ∷ [])).targets
mark_cancelled-stays_example =
    mark_cancelled-stays "t1" two_targets (late_report ∷ finishes "t2" ∷ [])

abbrev new_batch : Batch
new_batch = record two_targets {
  status = preparing;
  started_at = none;
  targets = queued_target ∷ [];
}

mark_cancelled-lost_example :
    ((begin_batch "t2" (mark_cancelled "t1" new_batch)).status ≡ running)
    × ((finish_batch "t3" (begin_batch "t2" (mark_cancelled "t1" new_batch))).status ≡ failed)
unfolding is_valid_report
mark_cancelled-lost_example =
    mark_cancelled-lost "t1" "t2" "t3" queued_target [] new_batch refl (refl, tt)

abbrev lost_target : Target
lost_target = record queued_target { status = target_failed; failure = some "no route" }

abbrev lost_batch : Batch
lost_batch = record two_targets { targets = lost_target ∷ lost_target ∷ [] }

-- A server that is busy at first.
abbrev busy_server : ℕ → Answer
busy_server zero = record { status_code = 500; error = [] }
busy_server (suc zero) = record { status_code = 503; error = [] }
busy_server (suc (suc n)) = record { status_code = 200; error = [] }

attempt_from-ends_example :
    EndsWell busy_server 1 max_attempts (attempt_from busy_server 1 (max_attempts - 1))
attempt_from-ends_example = attempt_from-ends busy_server

abbrev stored_batch : Stored
stored_batch = record { snapshot_revision = 4; is_terminal = true; callback_delivery = none }

abbrev first_request : CreateRequest
first_request = record {
  batch_id = "b1";
  idempotency_key = "k1";
  fingerprint = "f1";
  concurrency = 4;
  session_ids = "s1" ∷ "s2" ∷ [];
}

abbrev changed_request : CreateRequest
changed_request = record first_request { batch_id = "b2"; fingerprint = "f2" }

abbrev finishes_first : List StoreEvent
finishes_first =
    progresses "b1" (λ b. record b { status = failed; finished_at = some "t" })
    ∷ requests (record first_request { batch_id = "b3"; idempotency_key = "k3" })
    ∷ []

create-replayed_example :
    (count (λ e. is_unfinished e.batch.status) (create first_request []).1 ≤ 1)
    × (e : StoredBatch) × (e.batch_id ≡ "b1")
    × (e.request_fingerprint ≡ "f1")
    × (create changed_request (store_steps (create first_request []).1 finishes_first) ≡ (
      (if str_eq "f1" "f2" then existing e else idempotency_conflict "b1"),
      store_steps (create first_request []).1 finishes_first,
    ))
unfolding create by_key check_key by_id check_id active admit
create-replayed_example =
    create-replayed first_request changed_request [] (prepared first_request) finishes_first
      (omega arith) refl refl

abbrev two_findings : Report
two_findings = record {
  overall_status = critical;
  summary = [];
  checks = unverified_checks baseline_categories;
  findings =
      record { severity = severe; recommendation = "check the disk" }
      ∷ record { severity = mild; recommendation = "restart later" }
      ∷ [];
}

abbrev has_restart : String → Bool
has_restart = λ t. str_eq t "systemctl restart"

validate_report_evidence-IsSound_example :
    ((c : String)
      → times c (categories two_findings.checks) ≡ (if one_of c baseline_categories then 1 else 0))
    × SevereFirst (severities two_findings.findings)
    × IsStatusOf two_findings.overall_status two_findings.checks two_findings.findings
    × All (λ f. has_restart f.recommendation ≡ false) two_findings.findings
unfolding validate_report_evidence is_complete categories severities unverified_checks
    expected_report_status all_distinct sort_severities insert_severity same_severities same_status
    is_severe
validate_report_evidence-IsSound_example =
    validate_report_evidence-IsSound has_restart two_findings tt refl
