-- ===== src/Inspection/Callback/Backoff.antt =====
-- When a failed delivery is tried again (runner/runner/inspection.py, `_callback_retry_delay`,
-- `_record_callback_failure` and the test of `replay_due_callbacks`).
use aiops_runner.Prelude.{
  ℕ, zero, suc, ◌+◌, ◌-◌, ◌*◌, ◌≤◌, min, true, some, List, ◌≡◌, ◌↔◌, refl, length, length-take,
  ◌==◌, arith,
}
use aiops_runner.Inspection.Callback.{
  Delivery, Stored, two_to, callback_retry_delay, same_snapshot, retries, failed_delivery,
  record_callback_failure, is_due,
}

two_to-pos : (n : ℕ) → 1 ≤ two_to n
unfolding two_to
two_to-pos zero = omega arith
two_to-pos (suc n) = omega (arith, two_to-pos n)

-- The delay before a retry is from 5 to 300 seconds, and doubles with each failure up to that bound.
pub callback_retry_delay-bounds :
    (n : ℕ)
    → (5 ≤ callback_retry_delay n)
      × (callback_retry_delay n ≤ 300)
      × (callback_retry_delay (suc (suc n)) ≡ min (2 * callback_retry_delay (suc n)) 300)
unfolding callback_retry_delay two_to
callback_retry_delay-bounds n =
    let one : suc n - 1 ≡ n = omega arith in
    let two : suc (suc n) - 1 ≡ suc n = omega arith in
    ((omega (arith, two_to-pos (n - 1))), (omega arith), (rw (one, two) (omega arith)))

-- A failed delivery of the current snapshot that is to be retried is stored with at most 128 characters
-- of its error, one failure more than the stored delivery of the same snapshot has, and is due exactly
-- from a time that is 5 to 300 seconds later.
pub record_callback_failure-due :
    (now revision attempts status_code : ℕ) (error : List ℕ) (b : Stored)
    → b.snapshot_revision ≡ revision
    → (d : Delivery) × (at : ℕ) × ((record_callback_failure now revision attempts status_code error
          true b).callback_delivery
        ≡ some d)
      × (d.retry_count ≡ retries (same_snapshot revision b.callback_delivery))
      × (length d.error ≤ 128)
      × (now + 5_000_000 ≤ at)
      × (at ≤ now + 300_000_000)
      × ((t : ℕ) → (is_due t (some d) ≡ true) ↔ (at ≤ t))
unfolding record_callback_failure failed_delivery is_due
record_callback_failure-due now revision attempts status_code error b current =
    let previous = same_snapshot revision b.callback_delivery in
    let (low, high, doubles) = callback_retry_delay-bounds (retries previous) in
    let same : (b.snapshot_revision == revision) ≡ true = ground (arith, current) in
    (
      failed_delivery now revision attempts status_code error true previous,
      now + 1_000_000 * callback_retry_delay (retries previous),
      (rw (same) refl),
      refl,
      (omega (arith, length-take 128 error)),
      (omega (arith, low)),
      (omega (arith, high)),
      λ t. ground arith,
    )
