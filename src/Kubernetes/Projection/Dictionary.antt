-- ===== src/Kubernetes/Projection/Dictionary.antt =====
-- Dictionaries by uid: what a look-up finds after an update (runner/runner/kubernetes.py, the
-- dictionaries of `ClusterCollector`).
use aiops_runner.Prelude.{
  String, none, some, List, [], ◌∷◌, ◌≡◌, refl, str_eq, eq_iff, if◌then◌else◌, Bool-cases, inl, inr,
  arith,
}
use aiops_runner.Kubernetes.Ownership.{Asset}
use aiops_runner.Kubernetes.Projection.{get, put, remove, put_all}

-- No uid twice.
unfoldable pub Distinct : List Asset → Type 0
Distinct [] = Unit
Distinct (a ∷ rest) = (get a.uid rest ≡ none) × Distinct rest

pub get-put :
    (uid : String) (a : Asset) (d : List Asset)
    → get uid (put a d) ≡ (if str_eq uid a.uid then some a else get uid d)
unfolding get put
get-put uid a [] = refl
get-put uid a (b ∷ rest) =
    ground (arith, get-put uid a rest, eq_iff a.uid b.uid, eq_iff uid b.uid, eq_iff uid a.uid)

pub get-remove :
    (uid gone : String) (d : List Asset)
    → get uid (remove gone d) ≡ (if str_eq uid gone then none else get uid d)
unfolding get remove
get-remove uid gone [] = ground arith
get-remove uid gone (b ∷ rest) =
    ground (arith, get-remove uid gone rest, eq_iff gone b.uid, eq_iff uid b.uid, eq_iff uid gone)

put-Distinct : (a : Asset) (d : List Asset) → Distinct d → Distinct (put a d)
unfolding put Distinct get
put-Distinct a [] h = (refl, tt)
put-Distinct a (b ∷ rest) h =
    ground
      (arith, put-Distinct a rest, get-put b.uid a rest, eq_iff a.uid b.uid, eq_iff b.uid a.uid)

pub put_all-Distinct : (xs d : List Asset) → Distinct d → Distinct (put_all xs d)
unfolding put_all
put_all-Distinct [] d h = h
put_all-Distinct (a ∷ rest) d h = elim (Bool-cases (str_eq a.uid "")) [
  | inl empty ↦ rw (empty) (put_all-Distinct rest d h)
  | inr named ↦ rw (named) (put_all-Distinct rest (put a d) (put-Distinct a d h))
]
