-- ===== src/Inventory.antt =====
-- The inventory of managed hosts (runner/runner/trusted_inventory.py, `ManagedInventory`). A YAML value
-- is a JSON value whose mappings have texts as keys; PyYAML is what gives the contents of a file.
pub mod Unique
pub mod Loaded
pub mod Profile
use aiops_runner.Prelude.{
  ℕ, String, Bool, true, false, not, ◌&&◌, ◌||◌, Option, none, some, List, [], ◌∷◌, str_eq, one_of,
  if◌then◌else◌, Result, ok, err, ◌>>=◌, ◌>>◌, require, refuse, found,
}
use aiops_runner.Contract.Json.{Value, str, obj, arr, Items, nil, cons, Fields, end, field, has_key}
use aiops_runner.Stream.Reading.{Library, get, is_truthy}

pub data InventoryCode : Type 0 where
  inventory_unavailable target_not_managed target_not_uniquely_resolved : InventoryCode
  target_connection_unavailable : InventoryCode

pub data File : Type 0 where
  absent unreadable : File
  contents : Value → File

-- A host as it is used; `fields` are all its members.
pub record Host : Type 0 where
  pub id : String
  pub address : String
  pub targets : List String
  pub fields : Fields

-- A member that has to be a text that is not empty.
unfoldable pub named_text : Option Value → Option String
named_text (some (str s)) = if str_eq s "" then none else some s
named_text _ = none

unfoldable pub texts : Items → Option (List String)
texts nil = some []
texts (cons (str s) rest) =
    let later = texts rest in
    if str_eq s "" then none else elim later [ none ↦ none | some ts ↦ some (s ∷ ts) ]
texts (cons _ rest) = none

-- `host.get("logical_target_ids", [])`
unfoldable pub target_list : Option Value → Option (List String)
target_list none = some []
target_list (some (arr xs)) = texts xs
target_list (some _) = none

unfoldable pub read_host : Value → Result InventoryCode Host
read_host (obj fs) = found (named_text (get "id" fs)) inventory_unavailable >>= λ id.
    found (named_text (get "addr" fs)) inventory_unavailable >>= λ address.
    found (target_list (get "logical_target_ids" fs)) inventory_unavailable >>= λ targets.
    ok (record { id = id; address = address; targets = targets; fields = fs })
read_host _ = err inventory_unavailable

-- The loop over the hosts, with the ids seen.
unfoldable pub check_hosts : List String → Items → Result InventoryCode (List Host)
check_hosts seen nil = ok []
check_hosts seen (cons v rest) = read_host v >>= λ h.
    refuse (one_of h.id seen) inventory_unavailable >>= λ _.
    check_hosts (h.id ∷ seen) rest >>= λ hosts. ok (h ∷ hosts)

unfoldable pub host_list : Option Value → Result InventoryCode (List Host)
host_list (some (arr xs)) = check_hosts [] xs
host_list _ = err inventory_unavailable

-- `set(local) - {"hosts"}` is empty.
unfoldable pub only_hosts : Fields → Bool
only_hosts end = true
only_hosts (field k v fs) = str_eq k "hosts" && only_hosts fs

unfoldable pub fields_of : Value → Option Fields
fields_of (obj fs) = some fs
fields_of _ = none

-- `{**base, "hosts": local["hosts"]}` where the overlay has hosts.
unfoldable pub hosts_of : Fields → Option Value → Option Value
hosts_of base none = get "hosts" base
hosts_of base (some hosts) = some hosts

module _ (lib : Library) where
  -- `yaml.safe_load(…) or {}`
  unfoldable pub or_empty : Value → Value
  or_empty v = if is_truthy lib v then v else obj end

  unfoldable pub read_base : File → Result InventoryCode Fields
  read_base (contents v) = found (fields_of (or_empty v)) inventory_unavailable
  read_base _ = err inventory_unavailable

  -- The hosts that the overlay has, when it is there and has some.
  unfoldable pub read_overlay : File → Result InventoryCode (Option Value)
  read_overlay absent = ok none
  read_overlay unreadable = err inventory_unavailable
  read_overlay (contents v) = found (fields_of (or_empty v)) inventory_unavailable >>= λ fs.
      require (only_hosts fs) inventory_unavailable >>= λ _. ok (get "hosts" fs)

  -- `_load_hosts`
  unfoldable pub load_hosts : File → File → Result InventoryCode (List Host)
  load_hosts base local =
      read_base base >>= λ fs. read_overlay local >>= λ overlay. host_list (hosts_of fs overlay)

-- The hosts that list a target.
unfoldable pub matching : String → List Host → List Host
matching target [] = []
matching target (h ∷ rest) =
    let later = matching target rest in if one_of target h.targets then h ∷ later else later

unfoldable pub only_match : List Host → Result InventoryCode Host
only_match [] = err target_not_managed
only_match (h ∷ []) = ok h
only_match (h ∷ g ∷ rest) = err target_not_uniquely_resolved

-- `resolve_unique_target`, on the hosts that were loaded.
unfoldable pub resolve_unique_target : String → List Host → Result InventoryCode Host
resolve_unique_target target hosts = only_match (matching target hosts)
