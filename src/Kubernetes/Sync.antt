-- ===== src/Kubernetes/Sync.antt =====
-- Inventory syncs (runner/runner/kubernetes.py, `start_sync` to `cancel_sync`, `_run_sync` and
-- `_recover_jobs`). Nothing locks a job: its thread and each request that cancels it change it one
-- statement at a time, so each statement is a step here, between which other threads may run;
-- `finish_run` and `cancel_sync` are these steps with no other thread in between. `_persist_job` may
-- raise: where that ends a thread, the caller says so. `_recover_jobs` gets the jobs that its files
-- hold, and which of them it can read. Times are texts that the caller gives.
pub mod Threads
pub mod Pages
use aiops_runner.Prelude.{
  ℕ, zero, suc, ◌+◌, String, Bool, true, false, ◌||◌, Option, none, some, List, [], ◌∷◌, ◌++◌,
  str_eq, if◌then◌else◌, Result, ok, err, length, ltb, require, ◌>>◌, take, drop,
}

pub data JobStatus : Type 0 where
  pending running succeeded failed cancelled : JobStatus

pub record SyncJob (A : Type 0) : Type 0 where
  pub id : String
  pub cluster_id : String
  pub cluster_uid : String
  pub status : JobStatus
  pub assets : List A
  pub error_code : Option String
  pub created_at : String
  pub finished_at : Option String

-- How far a job's thread is: it waits, collects, has stored the assets or the error code, has set the
-- final status, or has ended; or storing the job has raised.
pub data Thread : Type 0 where
  waiting collecting succeeding failing concluded ended died : Thread

-- A job with its thread, and the requests to cancel it that have looked at its status, and that have
-- set it.
pub record Entry (A : Type 0) : Type 0 where
  pub job : SyncJob A
  pub thread : Thread
  pub cancelling : ℕ
  pub dating : ℕ

-- What the collection of `_run_sync` gives: the assets left after the exclusion, a boundary error or
-- any other exception.
pub data Collected (A : Type 0) : Type 0 where
  collected : List A → Collected A
  boundary_error : String → Collected A
  crashed : Collected A

unfoldable pub is_active : JobStatus → Bool
is_active JobStatus.pending = true
is_active JobStatus.running = true
is_active _ = false

module _ {A : Type 0} where
  unfoldable pub has_job : String → List (Entry A) → Bool
  has_job id [] = false
  has_job id (e ∷ rest) = str_eq e.job.id id || has_job id rest

  -- The entry of a job is changed in place; an unknown id changes nothing.
  unfoldable pub change : String → (Entry A → Entry A) → List (Entry A) → List (Entry A)
  change id f [] = []
  change id f (e ∷ rest) =
      let others = change id f rest in if str_eq e.job.id id then f e ∷ rest else e ∷ others

  unfoldable pub new_job : Bool → String → String → String → String → Entry A
  new_job persisted id cluster uid now = record {
    job = record {
      id = id;
      cluster_id = cluster;
      cluster_uid = uid;
      status = JobStatus.pending;
      assets = [];
      error_code = none;
      created_at = now;
      finished_at = none;
    };
    thread = if persisted then waiting else died;
    cancelling = 0;
    dating = 0;
  }

  -- `start_sync`, after its checks: an existing job is returned as it is, and a new one has no thread
  -- where it was not persisted.
  unfoldable pub start_sync :
      Bool → String → String → String → String → List (Entry A) → List (Entry A)
  start_sync persisted id cluster uid now jobs =
      if has_job id jobs then jobs else jobs ++ (new_job persisted id cluster uid now ∷ [])

  -- The start of `_run_sync`, up to its first `_persist_job`.
  unfoldable pub begin_run : Bool → Entry A → Entry A
  begin_run persisted e = elim e.thread [
    | waiting ↦ record e {
      job = record e.job { status = running };
      thread = if persisted then collecting else died;
    }
    | _ ↦ e
  ]

  -- `job.assets, _ = …`, or `job.error_code = …`
  unfoldable pub receive : Collected A → Entry A → Entry A
  receive (collected assets) e = elim e.thread [
    | collecting ↦ record e { job = record e.job { assets = assets }; thread = succeeding }
    | _ ↦ e
  ]
  receive (boundary_error code) e = elim e.thread [
    | collecting ↦ record e { job = record e.job { error_code = some code }; thread = failing }
    | _ ↦ e
  ]
  receive crashed e = elim e.thread [
    | collecting ↦ record e {
      job = record e.job { error_code = some "SYNC_FAILED" };
      thread = failing;
    }
    | _ ↦ e
  ]

  -- `job.status = "SUCCEEDED"` or `"FAILED"`. It does not look at the status.
  unfoldable pub conclude : Entry A → Entry A
  conclude e = elim e.thread [
    | succeeding ↦ record e { job = record e.job { status = succeeded }; thread = concluded }
    | failing ↦ record e { job = record e.job { status = failed }; thread = concluded }
    | _ ↦ e
  ]

  -- `job.finished_at = …`
  unfoldable pub end_run : String → Entry A → Entry A
  end_run now e = elim e.thread [
    | concluded ↦ record e { job = record e.job { finished_at = some now }; thread = ended }
    | _ ↦ e
  ]

  -- The rest of `_run_sync`, with no other thread in between.
  unfoldable pub finish_run : Collected A → String → Entry A → Entry A
  unfolding receive conclude end_run
  finish_run outcome now e = end_run now (conclude (receive outcome e))

  -- `if job.status in {"PENDING", "RUNNING"}`
  unfoldable pub check_cancel : Entry A → Entry A
  check_cancel e = if is_active e.job.status then record e { cancelling = suc e.cancelling } else e

  -- `job.status = "CANCELLED"`
  unfoldable pub set_cancelled : Entry A → Entry A
  set_cancelled e = elim e.cancelling [
    | zero ↦ e
    | suc n ↦ record e {
      job = record e.job { status = cancelled };
      cancelling = n;
      dating = suc e.dating;
    }
  ]

  -- `job.finished_at = …`
  unfoldable pub date_cancel : String → Entry A → Entry A
  date_cancel now e = elim e.dating [
    | zero ↦ e
    | suc n ↦ record e { job = record e.job { finished_at = some now }; dating = n }
  ]

  -- `cancel_sync`, with no other thread in between.
  unfoldable pub cancel_sync : String → Entry A → Entry A
  unfolding check_cancel set_cancelled date_cancel
  cancel_sync now e =
      if is_active e.job.status then date_cancel now (set_cancelled (check_cancel e)) else e

  -- One file of `_recover_jobs`; the threads of the former process are gone.
  unfoldable pub recover_job : String → SyncJob A → SyncJob A
  recover_job now job =
      if is_active job.status
      then record job {
        status = failed;
        error_code = some "RUNNER_RESTARTED";
        finished_at = some now;
      }
      else job

  unfoldable pub recover_jobs : (SyncJob A → Bool) → String → List (Entry A) → List (Entry A)
  recover_jobs readable now [] = []
  recover_jobs readable now (e ∷ rest) =
      let others = recover_jobs readable now rest in
      if readable e.job
      then record { job = recover_job now e.job; thread = ended; cancelling = 0; dating = 0 }
        ∷ others
      else others
