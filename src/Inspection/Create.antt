-- ===== src/Inspection/Create.antt =====
-- Admission of a batch (runner/runner/inspection.py, `create` under its gate, and `InspectionStore`). The
-- store is the list of its readable batches, in the order in which they are found; the fingerprint of a
-- request is a text. The checks of the request before the gate are left out.
pub mod Admitted
use aiops_runner.Prelude.{
  ℕ, suc, String, Bool, true, false, not, ◌&&◌, ◌||◌, Option, none, some, List, [], ◌∷◌, ◌++◌,
  str_eq, min, max, length, if◌then◌else◌,
}
use aiops_runner.Inspection.Batch.{BatchStatus, preparing, running, queued, Target, Batch, saved}

pub record StoredBatch : Type 0 where
  pub batch_id : String
  pub idempotency_key : String
  pub request_fingerprint : String
  pub requested_concurrency : ℕ
  pub effective_concurrency : ℕ
  pub batch : Batch

pub record CreateRequest : Type 0 where
  pub batch_id : String
  pub idempotency_key : String
  pub fingerprint : String
  pub concurrency : ℕ
  pub session_ids : List String

-- The answers of `create`: 202 with a batch that was there or is new, 409 with the batch in the way.
pub data Created : Type 0 where
  existing new_batch : StoredBatch → Created
  idempotency_conflict batch_active : String → Created

unfoldable pub is_unfinished : BatchStatus → Bool
is_unfinished preparing = true
is_unfinished running = true
is_unfinished _ = false

-- `by_idempotency_key`
unfoldable pub by_key : String → List StoredBatch → Option StoredBatch
by_key key [] = none
by_key key (e ∷ rest) =
    let later = by_key key rest in if str_eq e.idempotency_key key then some e else later

-- `load`
unfoldable pub by_id : String → List StoredBatch → Option StoredBatch
by_id id [] = none
by_id id (e ∷ rest) = let later = by_id id rest in if str_eq e.batch_id id then some e else later

-- `active`
unfoldable pub active : List StoredBatch → Option StoredBatch
active [] = none
active (e ∷ rest) =
    let later = active rest in if is_unfinished e.batch.status then some e else later

unfoldable pub queued_target : String → Target
queued_target session_id = record {
  session_id = session_id;
  status = queued;
  failure = none;
  terminal_reason = none;
  finished_at = none;
}

unfoldable pub queued_targets : List String → List Target
queued_targets [] = []
queued_targets (s ∷ rest) = queued_target s ∷ queued_targets rest

unfoldable pub prepared : CreateRequest → StoredBatch
prepared r = record {
  batch_id = r.batch_id;
  idempotency_key = r.idempotency_key;
  request_fingerprint = r.fingerprint;
  requested_concurrency = r.concurrency;
  effective_concurrency = min r.concurrency (length r.session_ids);
  batch = saved (record {
    status = preparing;
    failure = none;
    started_at = none;
    finished_at = none;
    snapshot_revision = 0;
    targets = queued_targets r.session_ids;
  });
}

-- A batch of the same key or id is answered when it is of the same request.
unfoldable pub answered : CreateRequest → StoredBatch → Created
answered r e =
    if str_eq e.request_fingerprint r.fingerprint
    then existing e
    else idempotency_conflict e.batch_id

unfoldable pub admit :
    CreateRequest → Option StoredBatch → List StoredBatch → Created × List StoredBatch
admit r (some e) store = (batch_active e.batch_id, store)
admit r none store = (new_batch (prepared r), store ++ (prepared r ∷ []))

unfoldable pub check_id :
    CreateRequest → Option StoredBatch → List StoredBatch → Created × List StoredBatch
check_id r (some e) store = (answered r e, store)
check_id r none store = admit r (active store) store

unfoldable pub check_key :
    CreateRequest → Option StoredBatch → List StoredBatch → Created × List StoredBatch
check_key r (some e) store = (answered r e, store)
check_key r none store = check_id r (by_id r.batch_id store) store

-- `create`, what it does under the gate.
unfoldable pub create : CreateRequest → List StoredBatch → Created × List StoredBatch
create r store = check_key r (by_key r.idempotency_key store) store
