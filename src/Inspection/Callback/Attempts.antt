-- ===== src/Inspection/Callback/Attempts.antt =====
-- The attempts of one delivery (runner/runner/inspection.py, `_callback`).
use aiops_runner.Prelude.{
  ℕ, zero, suc, ◌+◌, ◌-◌, ◌≤◌, ◌<◌, true, false, ◌≡◌, refl, ◌==◌, Bool-cases, inl, inr, arith,
}
use aiops_runner.Inspection.Callback.{
  Answer, Attempted, is_accepted, callback_failure_retriable, gave_up, delivered, attempt_from,
  max_attempts,
}

-- An attempt that is followed by another.
unfoldable pub IsRetried : (ℕ → Answer) → ℕ → Type 0
IsRetried post k =
    (is_accepted (post k) ≡ false)
    × (callback_failure_retriable (post k).status_code (post k).error ≡ true)

pub record EndsWell (post : ℕ → Answer) (first last : ℕ) (r : Attempted) : Type 0 where
  pub not_before : first ≤ r.attempts
  pub not_after : r.attempts ≤ last
  pub judged_last : r.is_delivered ≡ is_accepted (post r.attempts)
  pub retried_before : (k : ℕ) → first ≤ k → k < r.attempts → IsRetried post k
  pub stopped_early :
      r.is_delivered ≡ false
      → r.attempts < last
      → callback_failure_retriable (post r.attempts).status_code (post r.attempts).error ≡ false

delivered-EndsWell :
    (post : ℕ → Answer) (attempt last : ℕ)
    → attempt ≤ last
    → is_accepted (post attempt) ≡ true
    → EndsWell post attempt last (delivered attempt (post attempt))
unfolding delivered
delivered-EndsWell post attempt last h accepted = record {
  not_before = omega arith;
  not_after = h;
  judged_last = (rw (accepted) refl);
  retried_before = (λ k low high. absurd (omega (arith, low, high)));
  stopped_early = (λ e below. absurd (ground (arith, e)));
}

gave_up-EndsWell :
    (post : ℕ → Answer) (attempt last : ℕ)
    → attempt ≤ last
    → is_accepted (post attempt) ≡ false
    → (attempt < last
        → callback_failure_retriable (post attempt).status_code (post attempt).error ≡ false)
    → EndsWell post attempt last (gave_up attempt (post attempt))
unfolding gave_up
gave_up-EndsWell post attempt last h refused final = record {
  not_before = omega arith;
  not_after = h;
  judged_last = (rw (refused) refl);
  retried_before = (λ k low high. absurd (omega (arith, low, high)));
  stopped_early = (λ e below. final below);
}

later-EndsWell :
    (post : ℕ → Answer) (attempt last : ℕ) (r : Attempted)
    → IsRetried post attempt
    → EndsWell post (suc attempt) last r
    → EndsWell post attempt last r
later-EndsWell post attempt last r retried h = record {
  not_before = omega (arith, h.not_before);
  not_after = h.not_after;
  judged_last = h.judged_last;
  retried_before = (λ k low high. elim (Bool-cases (k == attempt)) [
    | inl e ↦ let same : attempt ≡ k = ground (arith, e) in rw same at retried
    | inr e ↦ h.retried_before k (ground (arith, e, low)) high
  ]);
  stopped_early = h.stopped_early;
}

attempt_from-EndsWell :
    (post : ℕ → Answer) (attempt left : ℕ)
    → EndsWell post attempt (attempt + left) (attempt_from post attempt left)
unfolding attempt_from IsRetried
attempt_from-EndsWell post attempt zero = elim (Bool-cases (is_accepted (post attempt))) [
  | inl accepted ↦
      rw (accepted) (delivered-EndsWell post attempt (attempt + 0) (omega arith) accepted)
  | inr refused ↦ rw (refused) (
      gave_up-EndsWell post attempt (attempt + 0) (omega arith) refused
        (λ below. absurd (omega (arith, below))))
]
attempt_from-EndsWell post attempt (suc left) =
    let longer : attempt + suc left ≡ suc attempt + left = omega arith in
    elim (Bool-cases (is_accepted (post attempt))) [
      | inl accepted ↦
          rw (accepted)
            (delivered-EndsWell post attempt (attempt + suc left) (omega arith) accepted)
      | inr refused ↦
          elim (Bool-cases
            (callback_failure_retriable (post attempt).status_code (post attempt).error)) [
              | inl retry ↦
                  rw (refused, retry, longer)
                    (later-EndsWell post attempt (suc attempt + left) _ (refused, retry)
                      (attempt_from-EndsWell post (suc attempt) left))
              | inr final ↦
                  rw (refused, final)
                    (gave_up-EndsWell post attempt (attempt + suc left) (omega arith) refused
                      (λ below. final))
            ]
    ]

-- One delivery makes at least one attempt and at most three. It is delivered exactly when its last
-- attempt is accepted; every attempt before the last failed in a way that is retried, and a delivery
-- that gives up before the third attempt failed in a way that is not.
pub attempt_from-ends :
    (post : ℕ → Answer) → EndsWell post 1 max_attempts (attempt_from post 1 (max_attempts - 1))
attempt_from-ends post = attempt_from-EndsWell post 1 2
