-- ===== src/Contract/Ingest/Order.antt =====
-- An accepted batch is a replay of stored events followed by new events that extend the history.
use mathlib.Core.List.{append-nil, append_assoc}
use text.Mathlib.TextPositions.{eq_refl}
use aiops_runner.Prelude.{
  ℕ, ◌+◌, ◌≡◌, refl, ap, ◌∙◌, ◌↔◌, ◌⊎◌, inl, inr, String, Bool, true, false, Option, none, some,
  List, [], ◌∷◌, ◌++◌, map, arith, eq_iff, All, Option-cases, ok, bind-eq-ok,
}
use aiops_runner.Contract.Json.{Value}
use aiops_runner.Contract.Batch.{Event, EventBatch, validate_event_batch_semantics}
use aiops_runner.Contract.Ingest.{
  ById, BySequence, find_id, find_sequence, is_entry, is_event, check_indexes, classify,
  decision_of, decide_event_ingest,
}

is_entry→eq :
    (o : Option (ℕ × String)) (n : ℕ) (f : String) → is_entry o n f ≡ true → o ≡ some (n, f)
is_entry→eq none n f h = cc
is_entry→eq (some (m, g)) n f h = ground (arith, eq_iff g f)

is_event→eq :
    (o : Option (String × String)) (i f : String) → is_event o i f ≡ true → o ≡ some (i, f)
is_event→eq none i f h = cc
is_event→eq (some (j, g)) i f h = ground (arith, eq_iff j i, eq_iff g f)

module _ (by_id : ById) (by_sequence : BySequence) where
  -- Both indexes hold the event, with its content.
  abbrev pub IsStored : Event → Type 0
  IsStored e =
      (find_id e.event_id by_id ≡ some (e.event_sequence, e.event_fingerprint))
      × (find_sequence e.event_sequence by_sequence ≡ some (e.event_id, e.event_fingerprint))

  -- Neither index knows the events, and their sequences go up by one from `n`.
  abbrev pub IsFresh : ℕ → List Event → Type 0
  IsFresh n [] = Unit
  IsFresh n (e ∷ es) =
      (find_id e.event_id by_id ≡ none)
      × (find_sequence e.event_sequence by_sequence ≡ none)
      × (e.event_sequence ≡ n)
      × IsFresh (n + 1) es

  -- What a stored event, and a fresh one, does to the loop.
  classify-stored :
      (n : ℕ) (acc : List String) (e : Event) (es : List Event)
      → IsStored e
      → classify by_id by_sequence n false acc (e ∷ es) ≡ classify by_id by_sequence n false acc es
  unfolding classify
  classify-stored n acc e es (p, q) =
      ground (arith, eq_refl e.event_id, eq_refl e.event_fingerprint)

  classify-fresh :
      (n : ℕ) (seen : Bool) (acc : List String) (e : Event) (es : List Event)
      → find_id e.event_id by_id ≡ none
      → find_sequence e.event_sequence by_sequence ≡ none
      → e.event_sequence ≡ n
      → classify by_id by_sequence n seen acc (e ∷ es)
        ≡ classify by_id by_sequence (n + 1) true (acc ++ (e.event_id ∷ [])) es
  unfolding classify
  classify-fresh n seen acc e es p q r = ground arith

  -- What the loop has checked where it accepts an event.
  classify-cons :
      (n : ℕ) (seen : Bool) (acc ids : List String) (e : Event) (es : List Event)
      → classify by_id by_sequence n seen acc (e ∷ es) ≡ ok ids
      → ((IsStored e × (seen ≡ false)) × (classify by_id by_sequence n seen acc es ≡ ok ids))
        ⊎ (((find_id e.event_id by_id ≡ none)
              × (find_sequence e.event_sequence by_sequence ≡ none)
              × (e.event_sequence ≡ n))
            × (classify by_id by_sequence (n + 1) true (acc ++ (e.event_id ∷ [])) es ≡ ok ids))
  unfolding classify
  classify-cons n seen acc ids e es h = elim (Option-cases (find_id e.event_id by_id)) [
    | inl missing ↦ inr ((missing, ground arith, ground arith), ground arith)
    | inr (entry, there) ↦ inl (
      (
        (
          ground (arith, is_entry→eq (some entry) e.event_sequence e.event_fingerprint),
          ground (
            arith,
            is_event→eq (find_sequence e.event_sequence by_sequence) e.event_id e.event_fingerprint,
          ),
        ),
        ground arith,
      ),
      ground arith,
    )
  ]

  -- Once a new event is seen, all that follow are new.
  classify-new :
      (n : ℕ) (acc ids : List String) (es : List Event)
      → classify by_id by_sequence n true acc es ≡ ok ids
      → IsFresh n es × (ids ≡ acc ++ map (λ e. e.event_id) es)
  classify-new n acc ids [] h = (tt, rw append-nil (ended h))
    where
      ended : classify by_id by_sequence n true acc [] ≡ ok ids → ids ≡ acc
      ended e = unfold classify in cc
  classify-new n acc ids (e ∷ es) h = elim (classify-cons n true acc ids e es h) [
    | inl ((_, impossible), _) ↦ cc
    | inr ((p, q, r), rest) ↦
        let (fresh, listed) = classify-new (n + 1) (acc ++ (e.event_id ∷ [])) ids es rest in
        ((p, q, r, fresh), listed ∙ append_assoc acc (e.event_id ∷ []) (map (λ x. x.event_id) es))
  ]

  -- A batch cut into stored events and fresh ones, with the identifiers of the fresh ones.
  abbrev pub Classified : ℕ → List Event → List String → Type 0
  Classified n es ids =
      (old fresh : List Event) × (es ≡ old ++ fresh)
      × All IsStored old
      × IsFresh n fresh
      × (ids ≡ map (λ e. e.event_id) fresh)

  classify-split :
      (n : ℕ) (ids : List String) (es : List Event)
      → classify by_id by_sequence n false [] es ≡ ok ids
      → Classified n es ids
  classify-split n ids [] h = ([], [], refl, tt, tt, ended h)
    where
      ended : classify by_id by_sequence n false [] [] ≡ ok ids → ids ≡ []
      ended e = unfold classify in cc
  classify-split n ids (e ∷ es) h = elim (classify-cons n false [] ids e es h) [
    | inl ((stored, _), rest) ↦
        let (old, fresh, cut, all_old, all_fresh, listed) = classify-split n ids es rest in
        (e ∷ old, fresh, ap (λ l. e ∷ l) cut, (stored, all_old), all_fresh, listed)
    | inr ((p, q, r), rest) ↦
        let (fresh, listed) = classify-new (n + 1) (e.event_id ∷ []) ids es rest in
        ([], e ∷ es, refl, tt, (p, q, r, fresh), listed)
  ]

  classify-IsFresh :
      (n : ℕ) (seen : Bool) (acc : List String) (es : List Event)
      → IsFresh n es
      → classify by_id by_sequence n seen acc es ≡ ok (acc ++ map (λ e. e.event_id) es)
  classify-IsFresh n seen acc [] f = unfold classify in rw append-nil
  classify-IsFresh n seen acc (e ∷ es) (p, q, r, f) =
      classify-fresh n seen acc e es p q r
      ∙ classify-IsFresh (n + 1) true (acc ++ (e.event_id ∷ [])) es f
      ∙ ap ok (append_assoc acc (e.event_id ∷ []) (map (λ x. x.event_id) es))

  classify-IsStored :
      (n : ℕ) (old fresh : List Event)
      → All IsStored old
      → IsFresh n fresh
      → classify by_id by_sequence n false [] (old ++ fresh) ≡ ok (map (λ e. e.event_id) fresh)
  classify-IsStored n [] fresh o f = classify-IsFresh n false [] fresh f
  classify-IsStored n (e ∷ old) fresh (s, o) f =
      classify-stored n [] e (old ++ fresh) s ∙ classify-IsStored n old fresh o f

-- A batch is accepted with `ids` exactly when it passes its own checks and those of the indexes, and is a
-- replay of stored events followed by new events that carry on after the last accepted sequence;
-- `ids` are the identifiers of the new events.
pub decide_event_ingest_iff :
    (nfc : String → String) (sha256_hex : Value → String) (batch : EventBatch) (last : ℕ)
    (by_id : ById) (by_sequence : BySequence) (ids : List String)
    → (decide_event_ingest nfc sha256_hex batch last by_id by_sequence
        ≡ ok (record { decision = decision_of ids; new_event_ids = ids }))
      ↔ ((validate_event_batch_semantics nfc sha256_hex batch ≡ ok tt)
          × (check_indexes last by_id by_sequence ≡ ok tt)
          × Classified by_id by_sequence (last + 1) batch.events ids)
unfolding decide_event_ingest
decide_event_ingest_iff nfc sha256_hex batch last by_id by_sequence ids = (to, from)
  where
    to :
        decide_event_ingest nfc sha256_hex batch last by_id by_sequence
          ≡ ok (record { decision = decision_of ids; new_event_ids = ids })
        → (validate_event_batch_semantics nfc sha256_hex batch ≡ ok tt)
          × (check_indexes last by_id by_sequence ≡ ok tt)
          × Classified by_id by_sequence (last + 1) batch.events ids
    to h =
        let (_, valid, h1) = bind-eq-ok (validate_event_batch_semantics nfc sha256_hex batch) _ h in
        let (_, indexed, h2) = bind-eq-ok (check_indexes last by_id by_sequence) _ h1 in
        let (found_ids, classified, h3) =
          bind-eq-ok (classify by_id by_sequence (last + 1) false [] batch.events) _ h2 in
        (
          valid,
          indexed,
          classify-split by_id by_sequence (last + 1) ids batch.events (classified ∙ cc),
        )

    from :
        (validate_event_batch_semantics nfc sha256_hex batch ≡ ok tt)
          × (check_indexes last by_id by_sequence ≡ ok tt)
          × Classified by_id by_sequence (last + 1) batch.events ids
        → decide_event_ingest nfc sha256_hex batch last by_id by_sequence
          ≡ ok (record { decision = decision_of ids; new_event_ids = ids })
    from (valid, indexed, parts) =
        let (old, fresh, cut, o, f, listed) = parts in
        rw (
          valid,
          indexed,
          cut,
          classify-IsStored by_id by_sequence (last + 1) old fresh o f,
          ← listed,
        )
