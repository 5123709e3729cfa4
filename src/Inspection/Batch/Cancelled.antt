-- ===== src/Inspection/Batch/Cancelled.antt =====
-- What a cancel of a batch leaves (runner/runner/inspection.py, `_mark_cancelled` against
-- `_update_target`, `_finish_batch` and the first update of `_run_batch`).
use aiops_runner.Prelude.{
  String, false, some, List, [], ◌∷◌, ◌≡◌, refl, any, All, str_eq, ok, err, Bool-cases,
  Option-cases, inl, inr, arith,
}
use aiops_runner.Inspection.Batch.{
  target_cancelled, cancelled, failed, running, Target, Batch, TargetChange, is_valid_report,
  is_cancelled, is_final, saved, begin_batch, change_target, apply_change, change_first,
  update_target, verdict, finish_batch, cancel_target, cancel_targets, mark_cancelled,
  is_batch_cancelled,
}

-- What other threads do to a batch whose run has begun; an update that raises changes nothing.
pub data Event : Type 0 where
  updates : String → TargetChange → Event
  finishes : String → Event
  cancels : String → Event

unfoldable pub step : Batch → Event → Batch
step b (updates session_id c) = elim (update_target session_id c b) [ ok after ↦ after | err e ↦ b ]
step b (finishes now) = finish_batch now b
step b (cancels now) = mark_cancelled now b

unfoldable pub steps : Batch → List Event → Batch
steps b [] = b
steps b (e ∷ rest) = steps (step b e) rest

-- Target by target, a cancelled one stays cancelled.
unfoldable pub Kept : List Target → List Target → Type 0
Kept [] [] = Unit
Kept [] (u ∷ us) = ⊥
Kept (t ∷ ts) [] = ⊥
Kept (t ∷ ts) (u ∷ us) = (t.status ≡ target_cancelled → u.status ≡ target_cancelled) × Kept ts us

Kept-refl : (ts : List Target) → Kept ts ts
unfolding Kept
Kept-refl [] = tt
Kept-refl (t ∷ ts) = (λ h. h, Kept-refl ts)

Kept-trans : (ts us vs : List Target) → Kept ts us → Kept us vs → Kept ts vs
unfolding Kept
Kept-trans [] [] [] h k = tt
Kept-trans [] [] (v ∷ vs) h k = k
Kept-trans [] (u ∷ us) vs h k = absurd h
Kept-trans (t ∷ ts) [] vs h k = absurd h
Kept-trans (t ∷ ts) (u ∷ us) [] h k = k
Kept-trans (t ∷ ts) (u ∷ us) (v ∷ vs) h k = (λ e. k.0 (h.0 e), Kept-trans ts us vs h.1 k.1)

change_target-kept :
    (c : TargetChange) (t : Target)
    → t.status ≡ target_cancelled
    → (change_target c t).status ≡ target_cancelled
unfolding change_target apply_change is_cancelled
change_target-kept c t h = ground arith

change_first-Kept :
    (session_id : String) (c : TargetChange) (ts changed : List Target)
    → change_first session_id c ts ≡ some changed
    → Kept ts changed
unfolding change_first Kept
change_first-Kept session_id c [] changed h = cc
change_first-Kept session_id c (t ∷ ts) changed h =
    elim (Bool-cases (str_eq t.session_id session_id)) [
      | inl this ↦
          let found = rw this at h in
          let same : change_target c t ∷ ts ≡ changed = cc in
          rw (← same) (change_target-kept c t, Kept-refl ts)
      | inr other ↦ elim (Option-cases (change_first session_id c ts)) [
        | inl missing ↦ let lost = rw (other, missing) at h in cc
        | inr (later, got) ↦
            let found = rw (other, got) at h in
            let same : t ∷ later ≡ changed = cc in
            rw (← same) ((λ e. e), change_first-Kept session_id c ts later got)
      ]
    ]

cancel_targets-Kept : (now : String) (ts : List Target) → Kept ts (cancel_targets now ts)
unfolding cancel_targets Kept cancel_target is_final
cancel_targets-Kept now [] = tt
cancel_targets-Kept now (t ∷ ts) = ((ground arith), cancel_targets-Kept now ts)

-- A batch after a cancel: cancelled, and no target that the first was cancelled in has left that.
unfoldable pub StaysCancelled : List Target → Batch → Type 0
StaysCancelled ts b = (b.status ≡ cancelled) × Kept ts b.targets

step-StaysCancelled :
    (ts : List Target) (b : Batch) (e : Event) → StaysCancelled ts b → StaysCancelled ts (step b e)
unfolding StaysCancelled step update_target saved finish_batch is_batch_cancelled mark_cancelled
step-StaysCancelled ts b (updates session_id c) h =
    elim (Option-cases (change_first session_id c b.targets)) [
      | inl missing ↦ rw (StaysCancelled, step, update_target, missing) h
      | inr (changed, got) ↦
          rw (StaysCancelled, step, update_target, got)
            (
              h.0,
              Kept-trans ts b.targets changed h.1
                  (change_first-Kept session_id c b.targets changed got),
            )
    ]
step-StaysCancelled ts b (finishes now) h = rw (StaysCancelled, step, finish_batch, h.0) (refl, h.1)
step-StaysCancelled ts b (cancels now) h = (
  refl,
  Kept-trans ts b.targets (cancel_targets now b.targets) h.1 (cancel_targets-Kept now b.targets),
)

steps-StaysCancelled :
    (ts : List Target) (b : Batch) (events : List Event)
    → StaysCancelled ts b
    → StaysCancelled ts (steps b events)
unfolding steps
steps-StaysCancelled ts b [] h = h
steps-StaysCancelled ts b (e ∷ rest) h =
    steps-StaysCancelled ts (step b e) rest (step-StaysCancelled ts b e h)

-- Once the run of a batch has begun, a cancel is final: whatever targets report, and however often the
-- batch is finished or cancelled afterwards, it stays cancelled, and so does every target that the
-- cancel found unfinished or cancelled.
pub mark_cancelled-stays :
    (now : String) (b : Batch) (events : List Event)
    → ((steps (mark_cancelled now b) events).status ≡ cancelled)
      × Kept (cancel_targets now b.targets) (steps (mark_cancelled now b) events).targets
unfolding StaysCancelled mark_cancelled saved
mark_cancelled-stays now b events =
    steps-StaysCancelled (cancel_targets now b.targets) (mark_cancelled now b) events
      (refl, Kept-refl (cancel_targets now b.targets))

cancel_targets-failed :
    (now : String) (ts : List Target)
    → All (λ t. is_valid_report t.status ≡ false) ts
    → (any (λ t. is_valid_report t.status) (cancel_targets now ts) ≡ false)
unfolding cancel_targets cancel_target is_final is_valid_report
cancel_targets-failed now [] h = refl
cancel_targets-failed now (t ∷ ts) h = ground (arith, cancel_targets-failed now ts h.1, h.0)

verdict-failed :
    (t : Target) (ts : List Target)
    → any (λ u. is_valid_report u.status) (t ∷ ts) ≡ false
    → verdict (t ∷ ts) ≡ failed
unfolding verdict
verdict-failed t ts h = ground arith

-- A cancel before the run begins is lost: when no target has a report, the cancelled batch is running
-- again after the run's first update, and failed when it is finished.
pub mark_cancelled-lost :
    (now begun end : String) (t : Target) (ts : List Target) (b : Batch)
    → b.targets ≡ t ∷ ts
    → All (λ u. is_valid_report u.status ≡ false) (t ∷ ts)
    → ((begin_batch begun (mark_cancelled now b)).status ≡ running)
      × ((finish_batch end (begin_batch begun (mark_cancelled now b))).status ≡ failed)
unfolding mark_cancelled begin_batch finish_batch saved is_batch_cancelled cancel_targets
mark_cancelled-lost now begun end t ts b split none_valid =
    let lost = cancel_targets-failed now (t ∷ ts) none_valid in
    (refl, (rw (split) (verdict-failed (cancel_target now t) (cancel_targets now ts) lost)))
