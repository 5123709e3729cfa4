-- ===== src/Kubernetes/Projection/Mirror.antt =====
-- The projection is what its changes say (runner/runner/kubernetes.py, `_collect_resources` and
-- `_watch_change`), over every order of collections and watch events.
use aiops_runner.Prelude.{
  String, Bool, true, false, Option, none, some, List, [], ◌∷◌, ◌++◌, ◌≡◌, refl, ◌∙◌, str_eq,
  is_some, if◌then◌else◌, Bool-cases, inl, inr,
}
use aiops_runner.Kubernetes.Ownership.{Asset}
use aiops_runner.Kubernetes.Projection.{
  baseline_complete, get, put_all, filtered, upserts, deletions, Collector, new_collector,
  replace_projection, project, relisted, watched, completed, collect_resources,
}
use aiops_runner.Kubernetes.Projection.Replay.{
  apply, replay, replay-append, known, after, replay-upserts, replay-deletions,
}
use aiops_runner.Kubernetes.Projection.Dictionary.{Distinct, put_all-Distinct}

-- What the collector is told: a full collection, a relist of one kind, a change of one asset.
pub data Notice : Type 0 where
  collection : Bool → List Asset → Notice
  relist : String → String → Option String → List Asset → Notice
  watch : Bool → Asset → Notice

module _ (fingerprint : Asset → String) where
  unfoldable pub noticed : Collector → List Notice → Collector
  noticed c [] = c
  noticed c (collection is_baseline raw ∷ rest) =
      noticed (collect_resources fingerprint is_baseline raw c) rest
  noticed c (relist api_version kind scope items ∷ rest) =
      noticed (relisted fingerprint api_version kind scope items c) rest
  noticed c (watch is_deleted a ∷ rest) = noticed (watched fingerprint is_deleted a c) rest

  -- A reader that replays every change knows each asset as the collector does.
  unfoldable pub Mirrors : Collector → Type 0
  Mirrors c =
      (u : String)
      → known fingerprint (get u (replay c.resources [])) ≡ known fingerprint (get u c.current)

  known-replaced :
      (incoming former reader g : Option Asset)
      → known fingerprint reader ≡ known fingerprint former
      → known fingerprint g ≡ known fingerprint (after fingerprint incoming reader)
      → known fingerprint (if is_some former then (if is_some incoming then g else none) else g)
        ≡ known fingerprint incoming
  unfolding known after
  known-replaced none none reader g h k = k ∙ h
  known-replaced none (some f) reader g h k = refl
  known-replaced (some a) none reader g h k = k
  known-replaced (some a) (some f) reader g h k = k

  replace_projection-Mirrors :
      (is_baseline : Bool) (incoming : List Asset) (c : Collector)
      → Distinct incoming
      → Mirrors c
      → Mirrors (replace_projection fingerprint is_baseline incoming c)
  unfolding replace_projection Mirrors
  replace_projection-Mirrors is_baseline incoming c h mirrors u =
      let reader = replay c.resources [] in
      let ups = upserts fingerprint is_baseline c.current incoming in
      let whole =
        replay-append c.resources (ups ++ deletions incoming c.current) []
        ∙ replay-append ups (deletions incoming c.current) reader in
      rw (whole, replay-deletions incoming c.current (replay ups reader) u)
        (known-replaced (get u incoming) (get u c.current) (get u reader)
          (get u (replay ups reader)) (mirrors u)
          (replay-upserts fingerprint is_baseline c.current incoming reader h
            (λ v inside. mirrors v) u))

  completed-Mirrors :
      (is_baseline : Bool) (c : Collector) → Mirrors c → Mirrors (completed is_baseline c)
  unfolding completed Mirrors replay apply
  completed-Mirrors true c h u = rw (replay-append c.resources (baseline_complete _ ∷ []) []) (h u)
  completed-Mirrors false c h u = h u

  projected-Mirrors :
      (is_baseline : Bool) (assets raw : List Asset) (c : Collector)
      → Mirrors c
      → Mirrors (
          replace_projection fingerprint is_baseline
            (put_all assets [])
            (record c { raw_current = raw }))
  unfolding Mirrors
  projected-Mirrors is_baseline assets raw c h =
      replace_projection-Mirrors is_baseline (put_all assets []) (record c { raw_current = raw })
        (put_all-Distinct assets [] (unfold Distinct in tt)) h

  noticed-Mirrors :
      (notices : List Notice) (c : Collector) → Mirrors c → Mirrors (noticed c notices)
  unfolding noticed collect_resources relisted watched project
  noticed-Mirrors [] c h = h
  noticed-Mirrors (collection is_baseline raw ∷ rest) c h =
      noticed-Mirrors rest _
        (completed-Mirrors is_baseline _ (projected-Mirrors is_baseline (filtered raw) _ c h))
  noticed-Mirrors (relist api_version kind scope items ∷ rest) c h =
      noticed-Mirrors rest _ (projected-Mirrors false (filtered _) _ c h)
  noticed-Mirrors (watch is_deleted a ∷ rest) c h = elim (Bool-cases (str_eq a.uid "")) [
    | inl empty ↦ rw (empty) (noticed-Mirrors rest c h)
    | inr named ↦ rw (named) (noticed-Mirrors rest _ (projected-Mirrors false (filtered _) _ c h))
  ]

  -- After any collections, relists and watch events, replaying the whole history of changes from
  -- nothing gives for each uid the fingerprint that the collector's projection has for it, and
  -- nothing where the projection has nothing.
  pub replay-noticed :
      (notices : List Notice) (u : String)
      → known fingerprint (get u (replay (noticed new_collector notices).resources []))
        ≡ known fingerprint (get u (noticed new_collector notices).current)
  unfolding new_collector Mirrors
  replay-noticed notices u = noticed-Mirrors notices new_collector (λ v. unfold replay in refl) u
