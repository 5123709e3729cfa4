-- ===== src/Examples/Kubernetes.antt =====
-- Witnesses for runner/runner/kubernetes.py.
use mathlib.Core.List.{Memᴰ}
use aiops_runner.Prelude.{
  ◌≡◌, ◌↔◌, ◌≢◌, refl, ap, sym, ℕ, zero, suc, ◌-◌, ◌<◌, ◌≤◌, ◌++◌, String, true, false, Option,
  none, some, List, [], ◌∷◌, All, length, one_of, str_eq, eq_iff, Bool-cases, inl, inr, ok, arith,
}
use aiops_runner.Kubernetes.Collection.{
  CollectionStream, new_stream, append, evict, read, select, last_sequence, oldest, first_sequence,
}
use aiops_runner.Kubernetes.Collection.Pulled.{Reached, values, read-in_order}
use aiops_runner.Kubernetes.Collection.Drained.{drain, drain-ends}
use aiops_runner.Kubernetes.Pull.{
  logs, pull_stream, page_bytes, is_exhausted, pull_stream-progress_iff,
}
use aiops_runner.Kubernetes.Ownership.{
  Asset, close, exclude_scaled_to_zero_assets, stopped_uids, scaled_to_zero_excluded_uids, sweep,
  skips, owned_in, is_stopped, is_zero, without,
}
use aiops_runner.Kubernetes.Ownership.Closure.{Below, close-Below}
use aiops_runner.Kubernetes.Ownership.Exclusion.{exclude_scaled_to_zero_assets_iff}
use aiops_runner.Kubernetes.Sync.{
  SyncJob, Entry, running, succeeded, cancelled, collecting, cancel_sync, finish_run, collected,
  boundary_error,
}
use aiops_runner.Kubernetes.Sync.Threads.{
  Event, starts, begins, receives, concludes, ends, checks_cancel, sets_cancelled, dates_cancel,
  steps, IsSound, steps-IsSound, cancel_sync-overwritten,
}
use aiops_runner.Kubernetes.Sync.Pages.{follow, offset_of, follow-assets}
use aiops_runner.Kubernetes.Projection.{
  get, new_collector, Change, added, watched, project, replace_projection, upserts, deletions,
  put_all, put, filtered, is_changed, kind_of_change,
}
use aiops_runner.Kubernetes.Projection.Received.{replay-received}
use aiops_runner.Kubernetes.Projection.Replay.{replay, known}
use aiops_runner.Kubernetes.Projection.Mirror.{Notice, collection, watch, noticed}

abbrev one_size : List ℕ
one_size = 4 ∷ []

abbrev both_sizes : List ℕ
both_sizes = 4 ∷ 5 ∷ []

-- Values are their sizes; the stream holds ten bytes.
abbrev sizes : ℕ → ℕ
sizes n = n

abbrev one_value : CollectionStream ℕ
one_value = append 4 4 (new_stream 10)

abbrev two_values : CollectionStream ℕ
two_values = append 5 5 one_value

two_values-Reached : Reached sizes 10 (4 ∷ 5 ∷ []) two_values [] 0
two_values-Reached = Reached.appends (Reached.appends Reached.started 4) 5

read_one-Reached : Reached sizes 10 (4 ∷ 5 ∷ []) two_values (4 ∷ []) 1
unfolding read select last_sequence oldest first_sequence append evict new_stream values
read_one-Reached = Reached.pulls two_values-Reached 1 100 refl

read-in_order_example :
    (unread : List ℕ) × (both_sizes ≡ one_size ++ unread) × (1 ≡ length one_size)
read-in_order_example = read-in_order sizes 10 read_one-Reached

drain-ends_example : drain 1 6 two_values 2 1 one_size ≡ some both_sizes
unfolding append evict new_stream
drain-ends_example =
    drain-ends sizes 10 1 6 2 (5 ∷ []) read_one-Reached refl (omega arith) (omega arith)
      ((omega arith), tt) (omega arith)

pull_stream-progress_iff_example :
    (1 < (pull_stream logs 3 500 1 two_values).next_sequence) ↔ (5 ≤ page_bytes logs 3)
unfolding append evict new_stream is_exhausted
pull_stream-progress_iff_example =
    pull_stream-progress_iff sizes 10 3 500 logs 5 [] read_one-Reached refl (omega arith) refl

abbrev owned_by : String → String → Asset
owned_by uid owner = record {
  api_version = "v1";
  kind = "Pod";
  namespace = some "shop";
  name = uid;
  uid = uid;
  owners = record { uid = owner; kind = "ReplicaSet"; name = owner; controller = true } ∷ [];
  desired_replicas = none;
}

abbrev stopped_deployment : Asset
stopped_deployment = record {
  api_version = "apps/v1";
  kind = "Deployment";
  namespace = some "shop";
  name = "web";
  uid = "d1";
  owners = [];
  desired_replicas = some 0;
}

abbrev small_cluster : List Asset
small_cluster = owned_by "p1" "r1" ∷ owned_by "r1" "d1" ∷ stopped_deployment ∷ owned_by "p2" "" ∷ []

close-Below_example :
    (r : List String) × (close 5 small_cluster ("d1" ∷ []) ≡ some r)
    × ((u : String) → (one_of u r ≡ true) ↔ Below small_cluster ("d1" ∷ []) u)
close-Below_example = close-Below small_cluster ("d1" ∷ [])

exclude_scaled_to_zero_assets_iff_example :
    (kept : List Asset) × (exclude_scaled_to_zero_assets 5 small_cluster ≡ some kept)
    × ((a : Asset)
        → Memᴰ a kept
          ↔ (Memᴰ a small_cluster × ¬ Below small_cluster (stopped_uids small_cluster) a.uid))
exclude_scaled_to_zero_assets_iff_example = exclude_scaled_to_zero_assets_iff small_cluster

abbrev sync_events : List (Event String)
sync_events =
    starts true "s1" "c1" "u1" "t0"
    ∷ checks_cancel "s1"
    ∷ begins true "s1"
    ∷ receives "s1" (boundary_error "E")
    ∷ sets_cancelled "s1"
    ∷ concludes "s1"
    ∷ dates_cancel "s1" "t1"
    ∷ ends "s1" "t2"
    ∷ []

steps-IsSound_example : All IsSound (steps [] sync_events)
steps-IsSound_example = steps-IsSound sync_events [] tt

abbrev running_sync : Entry String
running_sync = record {
  job = record {
    id = "s1";
    cluster_id = "c1";
    cluster_uid = "u1";
    status = running;
    assets = [];
    error_code = none;
    created_at = "t0";
    finished_at = none;
  };
  thread = collecting;
  cancelling = 0;
  dating = 0;
}

cancel_sync-overwritten_example :
    ((cancel_sync "t1" running_sync).job.status ≡ cancelled)
    × (finish_run (collected ("pod" ∷ [])) "t2" (cancel_sync "t1" running_sync)
        ≡ finish_run (collected ("pod" ∷ [])) "t2" running_sync)
    × ((finish_run (collected ("pod" ∷ [])) "t2" (cancel_sync "t1" running_sync)).job.status
        ≢ cancelled)
cancel_sync-overwritten_example =
    cancel_sync-overwritten (collected ("pod" ∷ [])) "t1" "t2" running_sync refl refl

-- A coder whose cursors are one digit each, for offsets as they come.
abbrev done_sync : SyncJob String
done_sync = record running_sync.job { status = succeeded; assets = "pod" ∷ "node" ∷ [] }

-- A cursor that is one mark longer than its offset.
abbrev unary : ℕ → String
unary zero = "x"
unary (suc n) = String.◌∷◌ "x" (unary n)

abbrev marks : String → ℕ
marks String.[] = 0
marks (String.◌∷◌ c s) = suc (marks s)

marks-unary : (n : ℕ) → marks (unary n) ≡ suc n
marks-unary zero = refl
marks-unary (suc n) = ap suc (marks-unary n)

abbrev read_marks : String → Option ℕ
read_marks s = some (marks s - 1)

cons_named : (s : String) → str_eq (String.◌∷◌ "x" s) "" ≡ false
cons_named s = elim (Bool-cases (str_eq (String.◌∷◌ "x" s) "")) [
  | inl e ↦ let same = (eq_iff (String.◌∷◌ "x" s) "").0 e in cc
  | inr e ↦ e
]

unary_read : (n : ℕ) → offset_of unary read_marks (some (unary n)) ≡ ok n
unfolding offset_of
unary_read zero = refl
unary_read (suc n) = rw (cons_named (unary n), marks-unary n) (ap (λ k. ok k) (omega arith))

follow-assets_example : follow unary read_marks 1 done_sync none ≡ ok (some ("pod" ∷ "node" ∷ []))
follow-assets_example = follow-assets unary read_marks done_sync unary_read refl

abbrev by_kind : Asset → String
by_kind a = a.kind

abbrev cluster_notices : List Notice
cluster_notices =
    collection true small_cluster
    ∷ watch false (owned_by "p3" "")
    ∷ watch true (owned_by "p2" "")
    ∷ []

abbrev one_notice : List Notice
one_notice = watch false (owned_by "p3" "") ∷ []

abbrev change_size : Change → ℕ
change_size c = 7

abbrev first_change : CollectionStream Change
first_change = append 7 (added (owned_by "p3" "")) (new_stream 10)

changes_made : (noticed by_kind new_collector one_notice).resources ≡ added (owned_by "p3" "") ∷ []
unfolding noticed watched project replace_projection new_collector upserts deletions put_all put get
    filtered is_changed kind_of_change exclude_scaled_to_zero_assets scaled_to_zero_excluded_uids
    close sweep skips owned_in stopped_uids is_stopped is_zero without
changes_made = refl

change_read-Reached :
    Reached change_size 10
      (added (owned_by "p3" "") ∷ [])
      first_change
      (added (owned_by "p3" "") ∷ [])
      1
unfolding read select last_sequence oldest first_sequence append evict new_stream values
change_read-Reached =
    Reached.pulls (Reached.appends Reached.started (added (owned_by "p3" ""))) 1 100 refl

first_change-Reached :
    Reached change_size 10
      (noticed by_kind new_collector one_notice).resources
      first_change
      (added (owned_by "p3" "") ∷ [])
      1
first_change-Reached = rw (changes_made) change_read-Reached

replay-received_example :
    known by_kind (get "p3" (replay (added (owned_by "p3" "") ∷ []) []))
    ≡ known by_kind (get "p3" (noticed by_kind new_collector one_notice).current)
replay-received_example =
    replay-received by_kind change_size 10 one_notice first_change-Reached
      (sym (ap (λ l. length l) changes_made)) "p3"
