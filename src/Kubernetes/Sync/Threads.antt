-- ===== src/Kubernetes/Sync/Threads.antt =====
-- What holds of every sync job between two statements (runner/runner/kubernetes.py, `start_sync`,
-- `_run_sync` and `cancel_sync`), in every order of the statements of all threads.
use aiops_runner.Prelude.{
  String, Bool, true, false, List, [], ◌∷◌, ◌++◌, ◌≡◌, ◌≢◌, inl, inr, All, str_eq, is_some,
  Bool-cases, arith,
}
use aiops_runner.Kubernetes.Sync.{
  SyncJob, Entry, Collected, Thread, waiting, collecting, succeeding, failing, concluded, ended,
  died, pending, running, succeeded, failed, cancelled, is_active, has_job, change, new_job,
  start_sync, begin_run, receive, conclude, end_run, finish_run, check_cancel, set_cancelled,
  date_cancel, cancel_sync, recover_job, recover_jobs, collected, boundary_error, crashed,
}

-- One statement of a thread of the runner.
pub data Event (A : Type 0) : Type 0 where
  starts : (persisted : Bool) (id cluster uid now : String) → Event A
  begins : (persisted : Bool) (id : String) → Event A
  receives : (id : String) → Collected A → Event A
  concludes : (id : String) → Event A
  ends : (id now : String) → Event A
  checks_cancel : (id : String) → Event A
  sets_cancelled : (id : String) → Event A
  dates_cancel : (id now : String) → Event A

unfoldable pub step : {A : Type 0} → List (Entry A) → Event A → List (Entry A)
step jobs (starts persisted id cluster uid now) = start_sync persisted id cluster uid now jobs
step jobs (begins persisted id) = change id (begin_run persisted) jobs
step jobs (receives id outcome) = change id (receive outcome) jobs
step jobs (concludes id) = change id conclude jobs
step jobs (ends id now) = change id (end_run now) jobs
step jobs (checks_cancel id) = change id check_cancel jobs
step jobs (sets_cancelled id) = change id set_cancelled jobs
step jobs (dates_cancel id now) = change id (date_cancel now) jobs

unfoldable pub steps : {A : Type 0} → List (Entry A) → List (Event A) → List (Entry A)
steps jobs [] = jobs
steps jobs (e ∷ rest) = steps (step jobs e) rest

abbrev pub may_be_pending : Thread → Bool
may_be_pending waiting = true
may_be_pending died = true
may_be_pending _ = false

abbrev pub may_be_running : Thread → Bool
may_be_running collecting = true
may_be_running succeeding = true
may_be_running failing = true
may_be_running died = true
may_be_running _ = false

abbrev pub has_concluded : Thread → Bool
has_concluded concluded = true
has_concluded ended = true
has_concluded _ = false

abbrev pub may_be_coded : Thread → Bool
may_be_coded failing = true
may_be_coded concluded = true
may_be_coded ended = true
may_be_coded _ = false

-- What the status, the error code and the date of a job say of its thread.
pub record IsSound {A : Type 0} (e : Entry A) : Type 0 where
  pub pending_unbegun : e.job.status ≡ pending → may_be_pending e.thread ≡ true
  pub running_begun : e.job.status ≡ running → may_be_running e.thread ≡ true
  pub concluded_final : has_concluded e.thread ≡ true → is_active e.job.status ≡ false
  pub ended_dated : e.thread ≡ ended → is_some e.job.finished_at ≡ true
  pub failed_concluded : e.job.status ≡ failed → has_concluded e.thread ≡ true
  pub succeeded_concluded : e.job.status ≡ succeeded → has_concluded e.thread ≡ true
  pub failing_coded : e.thread ≡ failing → is_some e.job.error_code ≡ true
  pub coded_failing : is_some e.job.error_code ≡ true → may_be_coded e.thread ≡ true
  pub failed_coded : e.job.status ≡ failed → is_some e.job.error_code ≡ true
  pub succeeded_uncoded : e.job.status ≡ succeeded → is_some e.job.error_code ≡ false

module _ {A : Type 0} where
  new_job-IsSound :
      (persisted : Bool) (id cluster uid now : String)
      → IsSound (new_job {A = A} persisted id cluster uid now)
  unfolding new_job is_active
  new_job-IsSound true id cluster uid now = ground arith
  new_job-IsSound false id cluster uid now = ground arith

  begin_run-IsSound : (persisted : Bool) (e : Entry A) → IsSound e → IsSound (begin_run persisted e)
  unfolding begin_run is_active
  begin_run-IsSound true e h = ground (arith, h)
  begin_run-IsSound false e h = ground (arith, h)

  receive-IsSound : (outcome : Collected A) (e : Entry A) → IsSound e → IsSound (receive outcome e)
  unfolding receive is_active
  receive-IsSound (collected assets) e h = ground (arith, h)
  receive-IsSound (boundary_error code) e h = ground (arith, h)
  receive-IsSound crashed e h = ground (arith, h)

  conclude-IsSound : (e : Entry A) → IsSound e → IsSound (conclude e)
  unfolding conclude is_active
  conclude-IsSound e h = ground (arith, h)

  end_run-IsSound : (now : String) (e : Entry A) → IsSound e → IsSound (end_run now e)
  unfolding end_run is_active
  end_run-IsSound now e h = ground (arith, h)

  check_cancel-IsSound : (e : Entry A) → IsSound e → IsSound (check_cancel e)
  unfolding check_cancel is_active
  check_cancel-IsSound e h = ground (arith, h)

  set_cancelled-IsSound : (e : Entry A) → IsSound e → IsSound (set_cancelled e)
  unfolding set_cancelled is_active
  set_cancelled-IsSound e h = ground (arith, h)

  date_cancel-IsSound : (now : String) (e : Entry A) → IsSound e → IsSound (date_cancel now e)
  unfolding date_cancel is_active
  date_cancel-IsSound now e h = ground (arith, h)

  change-IsSound :
      (id : String) (f : Entry A → Entry A) (jobs : List (Entry A))
      → ((e : Entry A) → IsSound e → IsSound (f e))
      → All IsSound jobs
      → All IsSound (change id f jobs)
  unfolding change
  change-IsSound id f [] keeps h = h
  change-IsSound id f (e ∷ rest) keeps h = elim (Bool-cases (str_eq e.job.id id)) [
    | inl this ↦ rw (this) (keeps e h.0, h.1)
    | inr other ↦ rw (other) (h.0, change-IsSound id f rest keeps h.1)
  ]

  add-IsSound :
      (jobs : List (Entry A)) (e : Entry A)
      → IsSound e
      → All IsSound jobs
      → All IsSound (jobs ++ (e ∷ []))
  add-IsSound [] e h hs = (h, tt)
  add-IsSound (x ∷ jobs) e h hs = (hs.0, add-IsSound jobs e h hs.1)

  step-IsSound :
      (jobs : List (Entry A)) (e : Event A) → All IsSound jobs → All IsSound (step jobs e)
  unfolding step start_sync
  step-IsSound jobs (starts persisted id cluster uid now) h = elim (Bool-cases (has_job id jobs)) [
    | inl known ↦ rw (known) h
    | inr new ↦ rw (new) (add-IsSound jobs _ (new_job-IsSound persisted id cluster uid now) h)
  ]
  step-IsSound jobs (begins persisted id) h =
      change-IsSound id (begin_run persisted) jobs (begin_run-IsSound persisted) h
  step-IsSound jobs (receives id outcome) h =
      change-IsSound id (receive outcome) jobs (receive-IsSound outcome) h
  step-IsSound jobs (concludes id) h = change-IsSound id conclude jobs conclude-IsSound h
  step-IsSound jobs (ends id now) h = change-IsSound id (end_run now) jobs (end_run-IsSound now) h
  step-IsSound jobs (checks_cancel id) h =
      change-IsSound id check_cancel jobs check_cancel-IsSound h
  step-IsSound jobs (sets_cancelled id) h =
      change-IsSound id set_cancelled jobs set_cancelled-IsSound h
  step-IsSound jobs (dates_cancel id now) h =
      change-IsSound id (date_cancel now) jobs (date_cancel-IsSound now) h

  -- In every order of the statements of starts, sync threads and cancels, also where storing a job raises,
  -- each sync job is sound: a pending job's thread has yet to run and a running one's has begun and has
  -- not concluded, or storing it has raised; a job whose thread has concluded is final, and dated once
  -- the thread has ended; a job that failed or succeeded has a thread that concluded; a failed job has an
  -- error code, and a succeeded one has none.
  pub steps-IsSound :
      (events : List (Event A)) (jobs : List (Entry A))
      → All IsSound jobs
      → All IsSound (steps jobs events)
  unfolding steps
  steps-IsSound [] jobs h = h
  steps-IsSound (e ∷ rest) jobs h = steps-IsSound rest (step jobs e) (step-IsSound jobs e h)

  -- A restart leaves no job pending or running.
  recover_jobs-final :
      (readable : SyncJob A → Bool) (now : String) (jobs : List (Entry A))
      → All (λ e. is_active e.job.status ≡ false) (recover_jobs readable now jobs)
  unfolding recover_jobs recover_job is_active
  recover_jobs-final readable now [] = tt
  recover_jobs-final readable now (e ∷ rest) = elim (Bool-cases (readable e.job)) [
    | inl read ↦ rw (read) (ground arith, recover_jobs-final readable now rest)
    | inr lost ↦ rw (lost) (recover_jobs-final readable now rest)
  ]

  -- A cancel does not stop a thread that has begun: with no other thread at work, a running job whose thread
  -- is collecting has, when that thread ends, the status that it would have without the cancel.
  pub cancel_sync-overwritten :
      (outcome : Collected A) (at later : String) (e : Entry A)
      → e.thread ≡ collecting
      → e.job.status ≡ running
      → ((cancel_sync at e).job.status ≡ cancelled)
        × (finish_run outcome later (cancel_sync at e) ≡ finish_run outcome later e)
        × ((finish_run outcome later (cancel_sync at e)).job.status ≢ cancelled)
  unfolding cancel_sync finish_run is_active conclude receive end_run check_cancel set_cancelled
      date_cancel
  cancel_sync-overwritten (collected assets) at later e begun run = ground (arith, begun, run)
  cancel_sync-overwritten (boundary_error code) at later e begun run = ground (arith, begun, run)
  cancel_sync-overwritten crashed at later e begun run = ground (arith, begun, run)
