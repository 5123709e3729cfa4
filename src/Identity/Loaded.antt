-- ===== src/Identity/Loaded.antt =====
-- Initialization is done once (runner/runner/instance_identity.py, `init_identity`).
use aiops_runner.Prelude.{
  ℕ, Bool, true, false, Option, none, some, List, [], ◌≡◌, refl, ap, sym, ◌∙◌, ◌==◌, Result, ok,
  err, require, found, bind-eq-ok, require-eq-ok, ok-injective, Option-cases, ◌⊎◌, inl, inr,
}
use aiops_runner.Identity.{
  IdentityCode, Stat, Disk, IdentitySnapshot, is_directory, given_to, secured, existing, created,
  after_secured, load_identity, load_or_create, init_identity,
}

given_to-again :
    (is_root : Bool) (owner current : ℕ)
    → given_to is_root owner (given_to is_root owner current) ≡ given_to is_root owner current
unfolding given_to
given_to-again true owner current = refl
given_to-again false owner current = refl

secured-again :
    (is_root : Bool) (owner : ℕ) (o : Option Stat) (s : Stat)
    → secured is_root owner o ≡ ok s
    → secured is_root owner (some s) ≡ ok s
unfolding secured
secured-again is_root owner o s e =
    let (t, is_some, e1) = bind-eq-ok (found o _) _ e in
    let (u, dir, e2) = bind-eq-ok (require (is_directory t.kind) _) _ e1 in
    let (v, mine, e3) = bind-eq-ok (require (given_to is_root owner t.owner == owner) _) _ e2 in
    let is_dir = require-eq-ok _ _ dir in
    let owned = require-eq-ok _ _ mine in
    let same = ok-injective e3 in
    rw (← same) (rw (is_dir, given_to-again is_root owner t.owner, owned) refl)

Result-cases : {E A : Type 0} (r : Result E A) → ((e : E) × (r ≡ err e)) ⊎ ((a : A) × (r ≡ ok a))
Result-cases (ok a) = inr (a, refl)
Result-cases (err e) = inl (e, refl)

module _ (uuid_version : List ℕ → Option ℕ) (uuid_text : List ℕ → List ℕ) where
  -- What a later initialization finds: the same directory, a file, and what that loads to.
  unfoldable IsInitialized : Bool → ℕ → Result IdentityCode IdentitySnapshot × Disk → Type 0
  IsInitialized is_root owner (answer, disk) =
      (p : Stat) × (f : Stat) × (disk.parent ≡ some p)
      × (disk.file ≡ some f)
      × (secured is_root owner (some p) ≡ ok p)
      × (load_identity uuid_version uuid_text [] owner disk ≡ answer)

  load_or_create-IsInitialized :
      (is_root : Bool) (owner : ℕ) (value : List ℕ) (fresh parent : Stat) (disk : Disk)
      → secured is_root owner (some parent) ≡ ok parent
      → disk.parent ≡ some parent
      → IsInitialized is_root owner
          (load_or_create uuid_version uuid_text is_root owner value fresh disk)
  unfolding IsInitialized load_or_create created existing
  load_or_create-IsInitialized is_root owner value fresh parent disk secure there =
      elim (Option-cases disk.file) [
        | inl none_yet ↦
            rw (IsInitialized, load_or_create, none_yet) (parent, _, there, refl, secure, refl)
        | inr (f, file) ↦
            rw (IsInitialized, load_or_create, file) (parent, f, there, refl, secure, refl)
      ]

  secured-IsInitialized :
      (is_root : Bool) (owner : ℕ) (value : List ℕ) (fresh : Stat) (disk : Disk)
      (s : IdentitySnapshot)
      → (init_identity uuid_version uuid_text is_root owner value fresh disk).0 ≡ ok s
      → IsInitialized is_root owner
          (init_identity uuid_version uuid_text is_root owner value fresh disk)
  unfolding init_identity after_secured
  secured-IsInitialized is_root owner value fresh disk s e =
      elim (Result-cases (secured is_root owner disk.parent)) [
        | inl (c, refused) ↦ let bad = rw (init_identity, after_secured, refused) at e in cc
        | inr (parent, secure) ↦
            rw (init_identity, after_secured, secure)
              (load_or_create-IsInitialized is_root owner value fresh parent
                (record disk { parent = some parent })
                (secured-again is_root owner disk.parent parent secure) refl)
      ]

  init_identity-again :
      (is_root : Bool) (owner : ℕ) (value : List ℕ) (fresh : Stat)
      (r : Result IdentityCode IdentitySnapshot) (disk : Disk)
      → IsInitialized is_root owner (r, disk)
      → init_identity uuid_version uuid_text is_root owner value fresh disk ≡ (r, disk)
  unfolding init_identity IsInitialized after_secured load_or_create existing created
  init_identity-again is_root owner value fresh r disk (p, f, there, file, secure, loaded) =
      let prepared : secured is_root owner disk.parent ≡ ok p =
        ap (secured is_root owner) there ∙ secure in
      let rest = λ (parent : Stat).
        load_or_create uuid_version uuid_text is_root owner value fresh
          (record disk { parent = some parent }) in
      let reached = ap (λ answer. after_secured answer disk rest) prepared in
      let unchanged =
        ap
          (λ o.
            load_or_create uuid_version uuid_text is_root owner value fresh
              (record disk { parent = o }))
          (sym there) in
      let kept =
        ap
          (λ o.
            existing o (load_identity uuid_version uuid_text [] owner disk, disk)
              (load_or_create uuid_version uuid_text is_root owner value fresh
                (record disk { file = none })))
          file in
      reached ∙ unchanged ∙ kept ∙ ap (λ answer. (answer, disk)) loaded

  -- Initialization never replaces an identity: after one that succeeded, another with any other UUID
  -- gives the same identity and leaves the disk as it is.
  pub init_identity-stable :
      (is_root : Bool) (owner : ℕ) (value later : List ℕ) (fresh other : Stat) (disk : Disk)
      (s : IdentitySnapshot)
      → (init_identity uuid_version uuid_text is_root owner value fresh disk).0 ≡ ok s
      → init_identity uuid_version uuid_text is_root owner later other
          (init_identity uuid_version uuid_text is_root owner value fresh disk).1
        ≡ init_identity uuid_version uuid_text is_root owner value fresh disk
  init_identity-stable is_root owner value later fresh other disk s e =
      init_identity-again is_root owner later other
        (init_identity uuid_version uuid_text is_root owner value fresh disk).0
        (init_identity uuid_version uuid_text is_root owner value fresh disk).1
        (secured-IsInitialized is_root owner value fresh disk s e)
