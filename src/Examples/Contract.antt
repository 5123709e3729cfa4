-- ===== src/Examples/Contract.antt =====
-- Witnesses for runner/runner/trusted_repair_contract.py.
use aiops_runner.Prelude.{
  ◌≡◌, ◌≢◌, refl, ap, str_eq, ◌+◌, String, Bool, true, false, Option, none, some, List, [], ◌∷◌,
  ◌++◌, ok,
}
use aiops_runner.Contract.Lifecycle.{
  RepairSessionStatus, RepairSessionEvent, pending_approval, executing, runner_accepted,
  proposal_created, approval_granted, transitions,
}
use aiops_runner.Contract.Lifecycle.Paths.{run, is_executed, preparing-approval}
use aiops_runner.Contract.Snapshot.{RepairSession}
use aiops_runner.Contract.Wire.{schema_version}
use aiops_runner.Contract.Json.{Value, null, int, Fields, end, field, normalize, canonical_digest}
use aiops_runner.Contract.Batch.{
  Event, EventBatch, same_numbers, range_from, all_distinct, check_events,
  compute_event_fingerprint, fingerprint_payload, validate_event_batch_semantics,
}
use aiops_runner.Contract.Ingest.{
  check_indexes, classify, find_id, find_sequence, decide_event_ingest,
}
use aiops_runner.Contract.Ingest.Order.{Classified, decide_event_ingest_iff}

abbrev approved_run : List RepairSessionEvent
approved_run = runner_accepted ∷ proposal_created ∷ approval_granted ∷ []

preparing-approval_example :
    (xs ys zs : List RepairSessionEvent) × (approved_run
      ≡ xs ++ (proposal_created ∷ (ys ++ (approval_granted ∷ zs))))
unfolding run transitions is_executed
preparing-approval_example = preparing-approval executing approved_run refl refl

abbrev snapshot : RepairSessionStatus → Option String → RepairSession
snapshot status claude = record {
  schema_version = schema_version;
  kind = "repair_session";
  session_id = "11111111-1111-1111-1111-111111111111";
  status = status;
  claude_session_id = claude;
  proposal_revision = none;
  proposal_hash_algorithm_id = none;
  proposal_hash = none;
}

abbrev conforms : RepairSession → Bool
conforms _ = true

abbrev bound_snapshot : RepairSession
bound_snapshot = record (snapshot pending_approval (some "c")) {
  proposal_revision = some 1;
  proposal_hash_algorithm_id = some "a";
  proposal_hash = some "h";
}

abbrev later_snapshots : List (RepairSession × Bool)
later_snapshots = (bound_snapshot, true) ∷ []

abbrev same_text : String → String
same_text t = t

abbrev short_digest : Value → String
short_digest _ = "0"

abbrev a_then_b : Fields
a_then_b = field "a" (int 1) (field "b" null end)

abbrev b_then_a : Fields
b_then_a = field "b" null (field "a" (int 1) end)

true≢false : true ≢ false
true≢false e = cc

a≢b : ◌≢◌ {A = String} "a" "b"
a≢b e = true≢false (ap (str_eq "a") e)

abbrev first_event : Event
first_event = record {
  event_id = "e1";
  session_id = "s";
  event_sequence = 1;
  event_fingerprint = "sha256:0";
  members = end;
}

abbrev first_batch : EventBatch
first_batch = record {
  session_id = "s";
  first_sequence = 1;
  last_sequence = 1;
  events = first_event ∷ [];
}

decide_event_ingest_iff_example :
    (validate_event_batch_semantics same_text short_digest first_batch ≡ ok tt)
    × (check_indexes 0 [] [] ≡ ok tt)
    × Classified [] [] (0 + 1) first_batch.events ("e1" ∷ [])
unfolding decide_event_ingest validate_event_batch_semantics same_numbers range_from all_distinct
    check_events compute_event_fingerprint canonical_digest normalize fingerprint_payload
    check_indexes classify find_id find_sequence
decide_event_ingest_iff_example =
    (decide_event_ingest_iff same_text short_digest first_batch 0 [] [] ("e1" ∷ [])).0 refl
