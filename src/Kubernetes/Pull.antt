-- ===== src/Kubernetes/Pull.antt =====
-- A pull of the collected changes (runner/runner/kubernetes.py, `collection_pull`), after the request
-- is decoded and its cluster is found. Its numbers are natural numbers here; the status of the
-- collector and the envelope are left out.
use aiops_runner.Prelude.{
  ℕ, ◌≤◌, ◌<◌, min, max, String, Bool, false, ◌||◌, List, ◌∷◌, ◌++◌, ◌≡◌, ◌↔◌, Option, str_eq, leb,
  length, if◌then◌else◌, Result, ok, require, found, ◌>>◌, ◌>>=◌, arith,
}
use aiops_runner.Kubernetes.Collection.{CollectionStream, Page, read, skip_to_latest}
use aiops_runner.Kubernetes.Collection.Pulled.{Reached}
use aiops_runner.Kubernetes.Collection.Drained.{read-progress_iff}

pub data PullCode : Type 0 where
  cluster_uid_changed runner_instance_changed continuous_collection_disabled : PullCode

pub data StreamName : Type 0 where
  resources events logs : StreamName

pub record PullRequest : Type 0 where
  pub expected_cluster_uid : String
  pub expected_runner_instance_id : String
  pub sequences : StreamName → ℕ
  pub remaining_log_bytes : ℕ
  pub limit : ℕ

pub record Pulled (V : Type 0) : Type 0 where
  pub streams : StreamName → Page V
  pub truncated : Bool

-- `min(1000, max(1, int(…)))`
unfoldable pub page_limit : ℕ → ℕ
page_limit n = min 1000 (max 1 n)

-- The bytes of a page: 2 MiB, for logs at most what is left of the quota.
unfoldable pub page_bytes : StreamName → ℕ → ℕ
page_bytes logs remaining = min 2_097_152 remaining
page_bytes _ remaining = 2_097_152

-- `name == "logs" and remaining <= 0`
unfoldable pub is_exhausted : StreamName → ℕ → Bool
is_exhausted logs remaining = leb remaining 0
is_exhausted _ remaining = false

module _ {V : Type 0} where
  unfoldable pub pull_stream : StreamName → ℕ → ℕ → ℕ → CollectionStream V → Page V
  pull_stream name remaining limit after s =
      if is_exhausted name remaining
      then skip_to_latest after s
      else read after (page_limit limit) (page_bytes name remaining) s

  unfoldable pub is_full : ℕ → Page V → Bool
  is_full limit page = leb (page_limit limit) (length page.items)

  unfoldable pub pull_streams : PullRequest → (StreamName → CollectionStream V) → Pulled V
  pull_streams request streams =
      let page : StreamName → Page V = λ name.
        pull_stream name request.remaining_log_bytes request.limit (request.sequences name)
          (streams name) in
      record {
        streams = page;
        truncated =
            is_full request.limit (page resources)
            || is_full request.limit (page events)
            || is_full request.limit (page logs);
      }

  unfoldable pub collection_pull :
      String
      → String
      → Option (StreamName → CollectionStream V)
      → PullRequest
      → Result PullCode (Pulled V)
  collection_pull cluster_uid runner_instance_id collector request =
      require (str_eq cluster_uid request.expected_cluster_uid) cluster_uid_changed
      >> require (str_eq request.expected_runner_instance_id runner_instance_id)
          runner_instance_changed
      >> found collector continuous_collection_disabled
      >>= λ streams. ok (pull_streams request streams)

module _ {V : Type 0} (size_of : V → ℕ) where
  -- When a value waits, nothing behind the cursor was dropped and the quota is not used up, a pull
  -- moves the cursor exactly when the next value fits in a page: the limit asked for does not matter.
  pub pull_stream-progress_iff :
      (bound remaining limit : ℕ) (name : StreamName) {h : List V} {s : CollectionStream V}
      {r : List V} {c : ℕ} (v : V) (unread : List V)
      → Reached size_of bound h s r c
      → h ≡ r ++ (v ∷ unread)
      → s.dropped ≤ c
      → is_exhausted name remaining ≡ false
      → (c < (pull_stream name remaining limit c s).next_sequence)
        ↔ (size_of v ≤ page_bytes name remaining)
  unfolding pull_stream page_limit
  pull_stream-progress_iff bound remaining limit name v unread reached split behind left =
      let some_limit : 0 < min 1000 (max 1 limit) = omega arith in
      let (there, back) =
        read-progress_iff size_of bound (min 1000 (max 1 limit)) (page_bytes name remaining) v
          unread reached split behind in
      rw (left) ((λ moved. (there moved).1), λ fits. back (some_limit, fits))
