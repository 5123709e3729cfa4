-- ===== src/Kubernetes/Projection.antt =====
-- The collector's projection of the current resources (runner/runner/kubernetes.py,
-- `_collect_resources`, `_replace_projection` and `_watch_change`). A dictionary by uid is the list of
-- its values in their order. The fingerprint of an asset is a parameter; the changes are kept as the
-- history of the stream `resources`, without the times of observation. Times of success and the error
-- of the last collection are not kept.
pub mod Dictionary
pub mod Replay
pub mod Mirror
pub mod Received
use aiops_runner.Prelude.{
  ℕ, suc, String, Bool, true, false, not, ◌&&◌, ◌||◌, Option, none, some, List, [], ◌∷◌, ◌++◌,
  str_eq, holds_text, is_some, if◌then◌else◌, length,
}
use aiops_runner.Kubernetes.Ownership.{Asset, exclude_scaled_to_zero_assets}

pub data Change : Type 0 where
  baseline added modified deleted : Asset → Change
  baseline_complete : ℕ → Change

unfoldable pub get : String → List Asset → Option Asset
get uid [] = none
get uid (a ∷ rest) = let later = get uid rest in if str_eq uid a.uid then some a else later

-- `d[uid] = asset`: in place, or at the end.
unfoldable pub put : Asset → List Asset → List Asset
put a [] = a ∷ []
put a (b ∷ rest) = let later = put a rest in if str_eq a.uid b.uid then a ∷ rest else b ∷ later

-- `d.pop(uid, None)`
unfoldable pub remove : String → List Asset → List Asset
remove uid [] = []
remove uid (a ∷ rest) = let later = remove uid rest in if str_eq uid a.uid then later else a ∷ later

-- `d.update({str(item.get("uid") or ""): item for item in items if item.get("uid")})`
unfoldable pub put_all : List Asset → List Asset → List Asset
put_all [] d = d
put_all (a ∷ rest) d = put_all rest (if str_eq a.uid "" then d else put a d)

-- The assets without the stopped workloads; the fuel is enough by `exclude_scaled_to_zero_assets_iff`.
unfoldable pub filtered : List Asset → List Asset
filtered raw = elim (exclude_scaled_to_zero_assets (suc (length raw)) raw) [
  | none ↦ []
  | some kept ↦ kept
]

-- The second loop of `_replace_projection`, over the former projection.
unfoldable pub deletions : List Asset → List Asset → List Change
deletions incoming [] = []
deletions incoming (a ∷ rest) =
    let later = deletions incoming rest in
    if is_some (get a.uid incoming) then later else deleted a ∷ later

pub record Collector : Type 0 where
  pub raw_current : List Asset
  pub current : List Asset
  pub resources : List Change

unfoldable pub in_scope : String → String → Option String → Asset → Bool
in_scope api_version kind scope a =
    str_eq a.api_version api_version
    && str_eq a.kind kind
    && elim scope [ none ↦ true | some namespace ↦ holds_text a.namespace namespace ]

unfoldable pub outside : String → String → Option String → List Asset → List Asset
outside api_version kind scope [] = []
outside api_version kind scope (a ∷ rest) =
    let later = outside api_version kind scope rest in
    if in_scope api_version kind scope a then later else a ∷ later

unfoldable pub completed : Bool → Collector → Collector
completed is_baseline c =
    if is_baseline
    then record c { resources = c.resources ++ (baseline_complete (length c.current) ∷ []) }
    else c

-- A collector that has collected nothing.
unfoldable pub new_collector : Collector
new_collector = record { raw_current = []; current = []; resources = [] }

module _ (fingerprint : Asset → String) where
  unfoldable pub is_changed : Option Asset → Asset → Bool
  is_changed none a = true
  is_changed (some previous) a = not (str_eq (fingerprint previous) (fingerprint a))

  unfoldable pub kind_of_change : Bool → Option Asset → Asset → Change
  kind_of_change true previous a = baseline a
  kind_of_change false none a = added a
  kind_of_change false (some _) a = modified a

  -- The first loop of `_replace_projection`.
  unfoldable pub upserts : Bool → List Asset → List Asset → List Change
  upserts is_baseline current [] = []
  upserts is_baseline current (a ∷ rest) =
      let later = upserts is_baseline current rest in
      if is_baseline || is_changed (get a.uid current) a
      then kind_of_change is_baseline (get a.uid current) a ∷ later
      else later

  -- `_replace_projection`
  unfoldable pub replace_projection : Bool → List Asset → Collector → Collector
  replace_projection is_baseline incoming c = record c {
    current = incoming;
    resources =
        c.resources ++ (upserts is_baseline c.current incoming ++ deletions incoming c.current);
  }

  -- `_watch_change` after the raw projection is updated.
  unfoldable pub project : List Asset → Collector → Collector
  project raw c =
      replace_projection false (put_all (filtered raw) []) (record c { raw_current = raw })

  -- `_watch_change` on a relist of one kind, a deletion, and any other event.
  unfoldable pub relisted : String → String → Option String → List Asset → Collector → Collector
  relisted api_version kind scope items c =
      project (put_all items (outside api_version kind scope c.raw_current)) c

  unfoldable pub watched : Bool → Asset → Collector → Collector
  watched is_deleted a c =
      if str_eq a.uid ""
      then c
      else project (if is_deleted then remove a.uid c.raw_current else put a c.raw_current) c

  -- `_collect_resources`, with what the client listed.
  unfoldable pub collect_resources : Bool → List Asset → Collector → Collector
  collect_resources is_baseline raw c = completed is_baseline (
      replace_projection is_baseline (put_all (filtered raw) [])
        (record c { raw_current = put_all raw [] }))
