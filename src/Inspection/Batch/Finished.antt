-- ===== src/Inspection/Batch/Finished.antt =====
-- How a batch is judged (runner/runner/inspection.py, `_finish_batch`).
use aiops_runner.Prelude.{
  String, Bool, true, false, Option, none, some, List, [], ◌∷◌, ◌≡◌, ◌≢◌, ◌↔◌, refl, all, any, All,
  holds_text, holds_text→eq, eq_iff, Bool-cases, inl, inr, arith,
}
use aiops_runner.Inspection.Batch.{
  BatchStatus, preparing, running, succeeded, partial_success, failed, cancelled, Target, Batch,
  is_valid_report, verdict, shared_failure, common_failure, failure_of, is_batch_cancelled,
  finish_batch, saved,
}

module _ {A : Type 0} where
  all-All : (p : A → Bool) (xs : List A) → (all p xs ≡ true) ↔ All (λ x. p x ≡ true) xs
  all-All p [] = (λ h. tt, λ h. refl)
  all-All p (x ∷ xs) =
      let (there, back) = all-All p xs in
      (
        (λ h. ((ground (arith, h)), there (ground (arith, h)))),
        λ (h, hs). ground (arith, h, back hs),
      )

  any-All : (p : A → Bool) (xs : List A) → (any p xs ≡ false) ↔ All (λ x. p x ≡ false) xs
  any-All p [] = (λ h. tt, λ h. refl)
  any-All p (x ∷ xs) =
      let (there, back) = any-All p xs in
      (
        (λ h. ((ground (arith, h)), there (ground (arith, h)))),
        λ (h, hs). ground (arith, h, back hs),
      )

holds-failure :
    (ts : List Target) (f : String)
    → (all (λ u. holds_text u.failure f) ts ≡ true) ↔ All (λ u. u.failure ≡ some f) ts
holds-failure [] f = (λ h. tt, λ h. refl)
holds-failure (t ∷ ts) f =
    let (there, back) = holds-failure ts f in
    (
      (λ h. (holds_text→eq t.failure f (ground (arith, h)), there (ground (arith, h)))),
      λ (e, es). rw (e, (eq_iff f f).1 refl, back es) refl,
    )

shared_there :
    (ts : List Target) (g f : String)
    → shared_failure (some g) ts ≡ some f
    → ◌≡◌ {A = Option String} (some g) (some f) × All (λ u. u.failure ≡ some f) ts
unfolding shared_failure
shared_there ts g f h = elim (Bool-cases (all (λ u. holds_text u.failure g) ts)) [
  | inl shared ↦
      let found = rw shared at h in
      let same : g ≡ f = cc in ((cc), (rw (← same) ((holds-failure ts g).0 shared)))
  | inr other ↦ let lost = rw other at h in absurd (ground (arith, lost))
]

shared_failure-All :
    (o : Option String) (ts : List Target) (f : String)
    → (shared_failure o ts ≡ some f) ↔ ((o ≡ some f) × All (λ u. u.failure ≡ some f) ts)
unfolding shared_failure
shared_failure-All none ts f =
    ((λ h. absurd (ground (arith, h))), λ (e, es). absurd (ground (arith, e)))
shared_failure-All (some g) ts f =
    let (there, back) = holds-failure ts g in
    (
      (λ h. shared_there ts g f h),
      λ (e, es). let same : g ≡ f = cc in let all_hold = back (rw (same) es) in rw (all_hold) e,
    )

no_failure :
    {Q : Type 0} (v : BatchStatus) (f : String)
    → v ≢ failed
    → (◌≡◌ {A = Option String} none (some f)) ↔ ((v ≡ failed) × Q)
no_failure v f other = ((λ h. cc), λ (e, q). absurd (other e))

failure_of-All :
    (v : BatchStatus) (t : Target) (ts : List Target) (f : String)
    → (failure_of v (t ∷ ts) ≡ some f) ↔ ((v ≡ failed) × All (λ u. u.failure ≡ some f) (t ∷ ts))
unfolding failure_of common_failure
failure_of-All failed t ts f =
    let (there, back) = shared_failure-All t.failure ts f in
    ((λ h. (refl, there h)), λ (e, shared). back shared)
failure_of-All preparing t ts f = no_failure preparing f (λ e. cc)
failure_of-All running t ts f = no_failure running f (λ e. cc)
failure_of-All succeeded t ts f = no_failure succeeded f (λ e. cc)
failure_of-All partial_success t ts f = no_failure partial_success f (λ e. cc)
failure_of-All cancelled t ts f = no_failure cancelled f (λ e. cc)

iff_trans : {P Q R : Type 0} → P ↔ Q → Q ↔ R → P ↔ R
iff_trans (a, b) (c, d) = ((λ p. c (a p)), λ r. b (d r))

verdict-cases :
    (t : Target) (ts : List Target)
    → ((verdict (t ∷ ts) ≡ succeeded) ↔ (all (λ u. is_valid_report u.status) (t ∷ ts) ≡ true))
      × ((verdict (t ∷ ts) ≡ failed) ↔ (any (λ u. is_valid_report u.status) (t ∷ ts) ≡ false))
unfolding verdict
verdict-cases t ts = ground arith

-- A finished batch that was not cancelled and has targets: it succeeded exactly when every target has
-- a valid report, failed exactly when none has, and carries a failure exactly when it failed and every
-- target has that failure.
pub finish_batch-verdict :
    (now : String) (b : Batch) (t : Target) (ts : List Target)
    → b.targets ≡ t ∷ ts
    → is_batch_cancelled b.status ≡ false
    → (((finish_batch now b).status ≡ succeeded)
        ↔ All (λ u. is_valid_report u.status ≡ true) (t ∷ ts))
      × (((finish_batch now b).status ≡ failed)
          ↔ All (λ u. is_valid_report u.status ≡ false) (t ∷ ts))
      × ((f : String)
          → ((finish_batch now b).failure ≡ some f)
            ↔ (((finish_batch now b).status ≡ failed) × All (λ u. u.failure ≡ some f) (t ∷ ts)))
unfolding finish_batch saved
finish_batch-verdict now b t ts split active =
    let (good, bad) = verdict-cases t ts in
    rw (active, split)
      (
        iff_trans good (all-All (λ u. is_valid_report u.status) (t ∷ ts)),
        iff_trans bad (any-All (λ u. is_valid_report u.status) (t ∷ ts)),
        λ f. failure_of-All (verdict (t ∷ ts)) t ts f,
      )
