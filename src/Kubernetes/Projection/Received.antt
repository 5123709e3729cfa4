-- ===== src/Kubernetes/Projection/Received.antt =====
-- The stream and the projection together (runner/runner/kubernetes.py, `CollectionStream` and
-- `ClusterCollector`): what a reader of the stream `resources` knows.
use aiops_runner.Prelude.{
  ℕ, String, List, [], ◌∷◌, ◌++◌, ◌≡◌, sym, ◌∙◌, ap, length, length-append, append-nil, arith,
}
use aiops_runner.Kubernetes.Ownership.{Asset}
use aiops_runner.Kubernetes.Collection.{CollectionStream}
use aiops_runner.Kubernetes.Collection.Pulled.{Reached, read-in_order}
use aiops_runner.Kubernetes.Projection.{Change, get, new_collector}
use aiops_runner.Kubernetes.Projection.Replay.{replay, known}
use aiops_runner.Kubernetes.Projection.Mirror.{Notice, noticed, replay-noticed}

whole_received {ℓ} :
    {A : Type ℓ} (history received unread : List A)
    → history ≡ received ++ unread
    → length received ≡ length history
    → received ≡ history
whole_received history received [] split count = sym (split ∙ append-nil received)
whole_received history received (x ∷ unread) split count =
    absurd (omega (arith, count, ap (λ l. length l) split, length-append received (x ∷ unread)))

module _ (fingerprint : Asset → String) (size_of : Change → ℕ) where
  -- When the changes of a collector went through a stream of any bound, and a reader without a gap has
  -- a cursor at its end, then replaying what it received gives the collector's projection, up to
  -- fingerprints, however the pulls and the changes were interleaved.
  pub replay-received :
      (bound : ℕ) (notices : List Notice) {s : CollectionStream Change} {received : List Change}
      {c : ℕ}
      → Reached size_of bound (noticed fingerprint new_collector notices).resources s received c
      → c ≡ length (noticed fingerprint new_collector notices).resources
      → (u : String)
      → known fingerprint (get u (replay received []))
        ≡ known fingerprint (get u (noticed fingerprint new_collector notices).current)
  replay-received bound notices {received} reached at_end u =
      let (unread, split, counted) = read-in_order size_of bound reached in
      let whole =
        whole_received (noticed fingerprint new_collector notices).resources received unread split
          (sym counted ∙ at_end) in
      rw (whole) (replay-noticed fingerprint notices u)
