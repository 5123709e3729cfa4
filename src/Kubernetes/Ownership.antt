-- ===== src/Kubernetes/Ownership.antt =====
-- Ownership between assets (runner/runner/kubernetes.py): the closures of
-- `_scaled_to_zero_excluded_uids` and `_descendant_uids`, which share their loop. A set of uids is the
-- list of its members; a missing uid is the empty text, as `str(… or "")` makes it. The number of
-- desired replicas is what `_integer` reads.
pub mod Closure
pub mod Exclusion
use aiops_runner.Prelude.{
  ℕ, zero, suc, String, Bool, true, false, not, ◌&&◌, ◌||◌, Option, none, some, List, [], ◌∷◌, any,
  one_of, str_eq, if◌then◌else◌, ◌==◌,
}

pub record Owner : Type 0 where
  pub uid : String
  pub kind : String
  pub name : String
  pub controller : Bool

pub record Asset : Type 0 where
  pub api_version : String
  pub uid : String
  pub kind : String
  pub namespace : Option String
  pub name : String
  pub owners : List Owner
  pub desired_replicas : Option ℕ

-- `not uid or uid in found`
unfoldable pub skips : Asset → List String → Bool
skips a found = str_eq a.uid "" || one_of a.uid found

-- `any(str(owner.get("uid") or "") in found for owner in owners)`
unfoldable pub owned_in : List Owner → List String → Bool
owned_in owners found = any (λ o. one_of o.uid found) owners

pub record Sweep : Type 0 where
  pub found : List String
  pub changed : Bool

-- One round of the `while changed` loop: the `for` over all assets, which adds to the set it tests.
unfoldable pub sweep : List Asset → List String → Sweep
sweep [] found = record { found = found; changed = false }
sweep (a ∷ rest) found =
    let kept = sweep rest found in
    let more = sweep rest (a.uid ∷ found) in
    if skips a found
    then kept
    else if owned_in a.owners found
    then record { found = more.found; changed = true }
    else kept

-- `while changed`, on fuel.
unfoldable pub close : ℕ → List Asset → List String → Option (List String)
close zero assets found = none
close (suc fuel) assets found =
    let round = sweep assets found in
    let again = close fuel assets round.found in if round.changed then again else some round.found

unfoldable pub is_zero : Option ℕ → Bool
is_zero none = false
is_zero (some n) = n == 0

-- A top-level workload that was scaled to zero starts an exclusion tree.
unfoldable pub is_stopped : Asset → Bool
is_stopped a =
    one_of a.kind ("Deployment" ∷ "StatefulSet" ∷ [])
    && is_zero a.desired_replicas
    && not (str_eq a.uid "")

unfoldable pub stopped_uids : List Asset → List String
stopped_uids [] = []
stopped_uids (a ∷ rest) =
    let uids = stopped_uids rest in if is_stopped a then a.uid ∷ uids else uids

-- `_scaled_to_zero_excluded_uids`
unfoldable pub scaled_to_zero_excluded_uids : ℕ → List Asset → Option (List String)
scaled_to_zero_excluded_uids fuel assets = close fuel assets (stopped_uids assets)

unfoldable pub without : List String → List Asset → List Asset
without excluded [] = []
without excluded (a ∷ rest) =
    let kept = without excluded rest in if one_of a.uid excluded then kept else a ∷ kept

-- The assets of `_exclude_scaled_to_zero_assets`.
unfoldable pub exclude_scaled_to_zero_assets : ℕ → List Asset → Option (List Asset)
exclude_scaled_to_zero_assets fuel assets = elim (scaled_to_zero_excluded_uids fuel assets) [
  | none ↦ none
  | some excluded ↦ some (without excluded assets)
]

-- `_descendant_uids`
unfoldable pub descendant_uids : ℕ → Asset → List Asset → Option (List String)
descendant_uids fuel parent assets = close fuel assets (parent.uid ∷ [])
