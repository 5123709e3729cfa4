-- ===== src/Kubernetes/Projection/Replay.antt =====
-- Replaying the changes (runner/runner/kubernetes.py, `_replace_projection`): a reader that applies
-- every change of the stream `resources` has the collector's projection.
use aiops_runner.Prelude.{
  String, Bool, true, false, ◌||◌, Option, none, some, List, [], ◌∷◌, ◌++◌, ◌≡◌, refl, ap, ◌∙◌,
  str_eq, eq_iff, is_some, if◌then◌else◌, Bool-cases, inl, inr, arith,
}
use aiops_runner.Kubernetes.Ownership.{Asset}
use aiops_runner.Kubernetes.Projection.{
  Change, baseline, added, modified, deleted, baseline_complete, get, put, remove, is_changed,
  kind_of_change, upserts, deletions,
}
use aiops_runner.Kubernetes.Projection.Dictionary.{Distinct, get-put, get-remove}

unfoldable pub apply : Change → List Asset → List Asset
apply (baseline a) d = put a d
apply (added a) d = put a d
apply (modified a) d = put a d
apply (deleted a) d = remove a.uid d
apply (baseline_complete n) d = d

unfoldable pub replay : List Change → List Asset → List Asset
replay [] d = d
replay (c ∷ rest) d = replay rest (apply c d)

pub replay-append :
    (xs ys : List Change) (d : List Asset) → replay (xs ++ ys) d ≡ replay ys (replay xs d)
unfolding replay
replay-append [] ys d = refl
replay-append (x ∷ xs) ys d = replay-append xs ys (apply x d)

module _ (fingerprint : Asset → String) where
  -- What is known of an asset: its fingerprint.
  unfoldable pub known : Option Asset → Option String
  known none = none
  known (some a) = some (fingerprint a)

  apply-kind :
      (is_baseline : Bool) (o : Option Asset) (a : Asset) (d : List Asset)
      → apply (kind_of_change fingerprint is_baseline o a) d ≡ put a d
  unfolding apply kind_of_change
  apply-kind true o a d = refl
  apply-kind false none a d = refl
  apply-kind false (some b) a d = refl

  replay-emit :
      (is_baseline : Bool) (o : Option Asset) (a : Asset) (d : List Asset) (later : List Change)
      → replay (kind_of_change fingerprint is_baseline o a ∷ later) d ≡ replay later (put a d)
  unfolding replay
  replay-emit is_baseline o a d later = ap (replay later) (apply-kind is_baseline o a d)

  -- A newer value before an older one.
  unfoldable pub after : Option Asset → Option Asset → Option Asset
  after none old = old
  after (some a) old = some a

  unchanged-known :
      (o : Option Asset) (a : Asset)
      → is_changed fingerprint o a ≡ false
      → known o ≡ some (fingerprint a)
  unfolding is_changed known
  unchanged-known none a h = cc
  unchanged-known (some b) a h = ground (arith, eq_iff (fingerprint b) (fingerprint a))

  after-put :
      (a : Asset) (rest d : List Asset) (u : String)
      → get a.uid rest ≡ none
      → known (after (get u rest) (get u (put a d))) ≡ known (after (get u (a ∷ rest)) (get u d))
  unfolding after get
  after-put a rest d u new = elim (Bool-cases (str_eq u a.uid)) [
    | inl e ↦
        let absent : get u rest ≡ none = rw ((eq_iff u a.uid).0 e) new in
        rw (get-put u a d, e, absent) refl
    | inr e ↦ rw (get-put u a d, e) refl
  ]

  after-kept :
      (a : Asset) (rest d : List Asset) (u : String)
      → get a.uid rest ≡ none
      → known (get a.uid d) ≡ some (fingerprint a)
      → known (after (get u rest) (get u d)) ≡ known (after (get u (a ∷ rest)) (get u d))
  unfolding after get known
  after-kept a rest d u new same = elim (Bool-cases (str_eq u a.uid)) [
    | inl e ↦
        let absent : get u rest ≡ none = rw ((eq_iff u a.uid).0 e) new in
        rw (e, absent) (rw ((eq_iff u a.uid).0 e) same)
    | inr e ↦ rw (e) refl
  ]

  found-first : (a : Asset) (rest : List Asset) → is_some (get a.uid (a ∷ rest)) ≡ true
  unfolding get
  found-first a rest = ground (arith, eq_iff a.uid a.uid)

  found-later :
      (a : Asset) (rest : List Asset) (u : String)
      → is_some (get u rest) ≡ true
      → is_some (get u (a ∷ rest)) ≡ true
  unfolding get
  found-later a rest u h = ground arith

  put-same :
      (a : Asset) (rest d : List Asset) (u : String) (current : List Asset)
      → get a.uid rest ≡ none
      → is_some (get u rest) ≡ true
      → (is_some (get u (a ∷ rest)) ≡ true → known (get u d) ≡ known (get u current))
      → known (get u (put a d)) ≡ known (get u current)
  put-same a rest d u current new inside same = elim (Bool-cases (str_eq u a.uid)) [
    | inl e ↦
        let absent : get u rest ≡ none = rw ((eq_iff u a.uid).0 e) new in
        absurd (ground (arith, absent, inside))
    | inr e ↦ rw (get-put u a d, e) (same (found-later a rest u inside))
  ]

  -- Replaying the first loop: every incoming asset is known as it is, and nothing else changes.
  pub replay-upserts :
      (is_baseline : Bool) (current xs d : List Asset)
      → Distinct xs
      → ((u : String) → is_some (get u xs) ≡ true → known (get u d) ≡ known (get u current))
      → (u : String)
      → known (get u (replay (upserts fingerprint is_baseline current xs) d))
        ≡ known (after (get u xs) (get u d))
  unfolding upserts replay after Distinct
  replay-upserts is_baseline current [] d h same u = (unfold get in refl)
  replay-upserts is_baseline current (a ∷ rest) d h same u =
      let new : get a.uid rest ≡ none = h.0 in
      elim (Bool-cases (is_baseline || is_changed fingerprint (get a.uid current) a)) [
        | inl change ↦
            rw (change, replay-emit is_baseline (get a.uid current) a d _)
              (replay-upserts is_baseline current rest (put a d) h.1
                  (λ v inside. put-same a rest d v current new inside (same v)) u
                ∙ after-put a rest d u new)
        | inr unchanged ↦
            let kept : known (get a.uid d) ≡ some (fingerprint a) =
              same a.uid (found-first a rest)
              ∙ unchanged-known (get a.uid current) a (ground (arith, unchanged)) in
            rw (unchanged) (
              replay-upserts is_baseline current rest d h.1
                (λ v inside. same v (found-later a rest v inside)) u
              ∙ after-kept a rest d u new kept)
      ]

pub replay-deletions :
    (incoming former d : List Asset) (u : String)
    → get u (replay (deletions incoming former) d) ≡ (
        if is_some (get u former)
        then (if is_some (get u incoming) then get u d else none)
        else get u d)
unfolding deletions replay apply get
replay-deletions incoming [] d u = refl
replay-deletions incoming (a ∷ rest) d u = ground (
  arith,
  replay-deletions incoming rest d u,
  replay-deletions incoming rest (remove a.uid d) u,
  get-remove u a.uid d,
  eq_iff u a.uid,
)
