-- ===== src/Inspection/Create/Admitted.antt =====
-- What admission guarantees (runner/runner/inspection.py, `create`).
use aiops_runner.Prelude.{
  ℕ, ◌≤◌, String, Option, none, some, List, [], ◌∷◌, ◌++◌, ◌≡◌, ◌≢◌, refl, sym, count, count-append,
  str_eq, eq_iff, if◌then◌else◌, Bool-cases, inl, inr, ◌⊎◌, arith, ap, subst, ◌∙◌,
}
use aiops_runner.Inspection.Batch.{Batch, saved}
use aiops_runner.Inspection.Create.{
  StoredBatch, CreateRequest, existing, new_batch, idempotency_conflict, is_unfinished, by_key,
  by_id, active, prepared, answered, admit, check_id, check_key, create,
}

abbrev unfinished : List StoredBatch → ℕ
unfinished store = count (λ e. is_unfinished e.batch.status) store

active-none : (store : List StoredBatch) → active store ≡ none → unfinished store ≡ 0
unfolding active
active-none [] h = refl
active-none (e ∷ rest) h = elim (Bool-cases (is_unfinished e.batch.status)) [
  | inl busy ↦ let bad = rw busy at h in cc
  | inr done ↦ rw (done) (active-none rest (rw done at h))
]

admit-unfinished :
    (r : CreateRequest) (o : Option StoredBatch) (store : List StoredBatch)
    → active store ≡ o
    → unfinished store ≤ 1
    → unfinished (admit r o store).1 ≤ 1
unfolding admit prepared saved is_unfinished
admit-unfinished r (some e) store h few = few
admit-unfinished r none store h few = omega (
  arith,
  active-none store h,
  count-append (λ e. is_unfinished e.batch.status) store (prepared r ∷ []),
)

check_id-unfinished :
    (r : CreateRequest) (o : Option StoredBatch) (store : List StoredBatch)
    → unfinished store ≤ 1
    → unfinished (check_id r o store).1 ≤ 1
unfolding check_id
check_id-unfinished r (some e) store few = few
check_id-unfinished r none store few = admit-unfinished r (active store) store refl few

check_key-unfinished :
    (r : CreateRequest) (o : Option StoredBatch) (store : List StoredBatch)
    → unfinished store ≤ 1
    → unfinished (check_key r o store).1 ≤ 1
unfolding check_key
check_key-unfinished r (some e) store few = few
check_key-unfinished r none store few = check_id-unfinished r (by_id r.batch_id store) store few

by_key-append :
    (key : String) (store : List StoredBatch) (e : StoredBatch)
    → by_key key store ≡ none
    → e.idempotency_key ≡ key
    → by_key key (store ++ (e ∷ [])) ≡ some e
unfolding by_key
by_key-append key [] e h same = rw ((eq_iff e.idempotency_key key).1 same) refl
by_key-append key (x ∷ rest) e h same = elim (Bool-cases (str_eq x.idempotency_key key)) [
  | inl this ↦ let bad = rw this at h in cc
  | inr other ↦ rw (other) (by_key-append key rest e (rw other at h) same)
]

answered-old : (r : CreateRequest) (x e : StoredBatch) → answered r x ≢ new_batch e
unfolding answered
answered-old r x e h = elim (Bool-cases (str_eq x.request_fingerprint r.fingerprint)) [
  | inl same ↦ let bad = rw same at h in cc
  | inr other ↦ let bad = rw other at h in cc
]

admit-new :
    (r : CreateRequest) (o : Option StoredBatch) (store : List StoredBatch) (e : StoredBatch)
    → (admit r o store).0 ≡ new_batch e
    → (admit r o store).1 ≡ store ++ (prepared r ∷ [])
unfolding admit
admit-new r (some x) store e h = cc
admit-new r none store e h = refl

check_id-new :
    (r : CreateRequest) (o : Option StoredBatch) (store : List StoredBatch) (e : StoredBatch)
    → (check_id r o store).0 ≡ new_batch e
    → (check_id r o store).1 ≡ store ++ (prepared r ∷ [])
unfolding check_id
check_id-new r (some x) store e h = absurd (answered-old r x e h)
check_id-new r none store e h = admit-new r (active store) store e h

check_key-new :
    (r : CreateRequest) (o : Option StoredBatch) (store : List StoredBatch) (e : StoredBatch)
    → (check_key r o store).0 ≡ new_batch e
    → (o ≡ none) × ((check_key r o store).1 ≡ store ++ (prepared r ∷ []))
unfolding check_key
check_key-new r (some x) store e h = absurd (answered-old r x e h)
check_key-new r none store e h = (refl, check_id-new r (by_id r.batch_id store) store e h)

create-found :
    (r : CreateRequest) (store : List StoredBatch) (x : StoredBatch)
    → by_key r.idempotency_key store ≡ some x
    → create r store ≡ (answered r x, store)
unfolding create check_key
create-found r store x h = rw (h) refl

-- What happens to the store after an admission: further requests, and changes of a batch's progress.
pub data StoreEvent : Type 0 where
  requests : CreateRequest → StoreEvent
  progresses : (batch_id : String) → (Batch → Batch) → StoreEvent

unfoldable moved : String → (Batch → Batch) → StoredBatch → StoredBatch
moved id f e = record e { batch = if str_eq e.batch_id id then f e.batch else e.batch }

unfoldable progress : String → (Batch → Batch) → List StoredBatch → List StoredBatch
unfolding moved
progress id f [] = []
progress id f (e ∷ rest) = moved id f e ∷ progress id f rest

unfoldable pub store_step : List StoredBatch → StoreEvent → List StoredBatch
unfolding progress
store_step store (requests r) = (create r store).1
store_step store (progresses id f) = progress id f store

unfoldable pub store_steps : List StoredBatch → List StoreEvent → List StoredBatch
unfolding store_step
store_steps store [] = store
store_steps store (e ∷ rest) = store_steps (store_step store e) rest

-- The key finds a batch of the request `r`.
abbrev pub IsKept : CreateRequest → List StoredBatch → Type 0
IsKept r store =
    (e : StoredBatch) × (by_key r.idempotency_key store ≡ some e)
    × (e.batch_id ≡ r.batch_id)
    × (e.request_fingerprint ≡ r.fingerprint)

by_key-longer :
    (key : String) (store : List StoredBatch) (e x : StoredBatch)
    → by_key key store ≡ some e
    → by_key key (store ++ (x ∷ [])) ≡ some e
unfolding by_key
by_key-longer key [] e x h = cc
by_key-longer key (y ∷ rest) e x h = elim (Bool-cases (str_eq y.idempotency_key key)) [
  | inl this ↦ rw (this) (rw this at h)
  | inr other ↦ rw (other) (by_key-longer key rest e x (rw other at h))
]

admit-grows :
    (r : CreateRequest) (o : Option StoredBatch) (store : List StoredBatch)
    → ((admit r o store).1 ≡ store) ⊎ ((admit r o store).1 ≡ store ++ (prepared r ∷ []))
unfolding admit
admit-grows r (some x) store = inl refl
admit-grows r none store = inr refl

check_id-grows :
    (r : CreateRequest) (o : Option StoredBatch) (store : List StoredBatch)
    → ((check_id r o store).1 ≡ store) ⊎ ((check_id r o store).1 ≡ store ++ (prepared r ∷ []))
unfolding check_id
check_id-grows r (some x) store = inl refl
check_id-grows r none store = admit-grows r (active store) store

check_key-grows :
    (r : CreateRequest) (o : Option StoredBatch) (store : List StoredBatch)
    → ((check_key r o store).1 ≡ store) ⊎ ((check_key r o store).1 ≡ store ++ (prepared r ∷ []))
unfolding check_key
check_key-grows r (some x) store = inl refl
check_key-grows r none store = check_id-grows r (by_id r.batch_id store) store

create-IsKept :
    (r other : CreateRequest) (store : List StoredBatch)
    → IsKept r store
    → IsKept r (create other store).1
unfolding create
create-IsKept r other store (e, found, id, print) =
    elim (check_key-grows other (by_key other.idempotency_key store) store) [
      | inl same ↦ (e, rw (same) found, id, print)
      | inr longer ↦ (
        e,
        rw (longer) (by_key-longer r.idempotency_key store e (prepared other) found),
        id,
        print,
      )
    ]

some-injective : {e x : StoredBatch} → some e ≡ some x → e ≡ x
some-injective h = cc

progress-found :
    (id key : String) (f : Batch → Batch) (store : List StoredBatch) (e : StoredBatch)
    → by_key key store ≡ some e
    → by_key key (progress id f store) ≡ some (moved id f e)
unfolding by_key progress moved
progress-found id key f [] e h = cc
progress-found id key f (y ∷ rest) e h = elim (Bool-cases (str_eq y.idempotency_key key)) [
  | inl this ↦
      let same : y ≡ e = some-injective (rw this at h) in
      rw (this) (ap (λ x. some (moved id f x)) same)
  | inr other ↦ rw (other) (progress-found id key f rest e (rw other at h))
]

progress-IsKept :
    (r : CreateRequest) (id : String) (f : Batch → Batch) (store : List StoredBatch)
    → IsKept r store
    → IsKept r (progress id f store)
unfolding moved
progress-IsKept r id f store (e, found, same, print) =
    (moved id f e, progress-found id r.idempotency_key f store e found, same, print)

answered-kept :
    (again : CreateRequest) (e : StoredBatch) (print id : String)
    → e.request_fingerprint ≡ print
    → e.batch_id ≡ id
    → answered again e
      ≡ (if str_eq print again.fingerprint then existing e else idempotency_conflict id)
unfolding answered
answered-kept again e print id same named =
    ap (λ p. if str_eq p again.fingerprint then existing e else idempotency_conflict e.batch_id)
      same
    ∙ ap (λ b. if str_eq print again.fingerprint then existing e else idempotency_conflict b) named

store_steps-IsKept :
    (r : CreateRequest) (store : List StoredBatch) (events : List StoreEvent)
    → IsKept r store
    → IsKept r (store_steps store events)
unfolding store_steps store_step
store_steps-IsKept r store [] h = h
store_steps-IsKept r store (requests other ∷ rest) h =
    store_steps-IsKept r (create other store).1 rest (create-IsKept r other store h)
store_steps-IsKept r store (progresses id f ∷ rest) h =
    store_steps-IsKept r (progress id f store) rest (progress-IsKept r id f store h)

-- Admission keeps at most one batch unfinished. After a request was admitted with a new batch, and
-- after any further requests and any progress of any batches, be it finished or not, every request with
-- its key leaves the store as it is: it is answered with the batch made for the request when it has
-- the same fingerprint, and is a conflict otherwise.
pub create-replayed :
    (r again : CreateRequest) (store : List StoredBatch) (made : StoredBatch)
    (events : List StoreEvent)
    → unfinished store ≤ 1
    → (create r store).0 ≡ new_batch made
    → again.idempotency_key ≡ r.idempotency_key
    → (unfinished (create r store).1 ≤ 1)
      × (e : StoredBatch) × (e.batch_id ≡ r.batch_id)
      × (e.request_fingerprint ≡ r.fingerprint)
      × (create again (store_steps (create r store).1 events) ≡ (
        (if str_eq r.fingerprint again.fingerprint
            then existing e
            else idempotency_conflict r.batch_id),
        store_steps (create r store).1 events,
      ))
create-replayed r again store made events few h same =
    let (absent, grown) =
      check_key-new r (by_key r.idempotency_key store) store made (unfold create in h) in
    let first : by_key r.idempotency_key (store ++ (prepared r ∷ [])) ≡ some (prepared r) =
      by_key-append r.idempotency_key store (prepared r) absent (unfold prepared in refl) in
    let kept : IsKept r (create r store).1 = (
      prepared r,
      (unfold create in rw (grown) first),
      (unfold prepared in refl),
      (unfold prepared in refl),
    ) in
    let later = store_steps (create r store).1 events in
    let (e, found, id, print) = store_steps-IsKept r (create r store).1 events kept in
    (
      (unfold create in check_key-unfinished r (by_key r.idempotency_key store) store few),
      e,
      id,
      print,
      create-found again later e (subst (λ k. by_key k later ≡ some e) (sym same) found)
          ∙ ap (λ a. (a, later)) (answered-kept again e r.fingerprint r.batch_id print id),
    )
