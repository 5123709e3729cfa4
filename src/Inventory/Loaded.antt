-- ===== src/Inventory/Loaded.antt =====
-- What a loaded inventory is (runner/runner/trusted_inventory.py, `_load_hosts`).
use aiops_runner.Prelude.{
  String, false, Option, some, List, [], ◌∷◌, ◌≡◌, one_of, str_eq, ok, bind-eq-ok, found-eq-ok,
  refuse-eq-ok, ok-injective, found, refuse, Bool-cases, inl, inr, arith,
}
use aiops_runner.Contract.Json.{Value, str, obj, arr, Items, nil, cons}
use aiops_runner.Stream.Reading.{Library, get}
use aiops_runner.Inventory.{
  inventory_unavailable, named_text, target_list, read_host, check_hosts, host_list, read_base,
  read_overlay, hosts_of, File, load_hosts, Host,
}

-- The hosts after those with the given ids: each has an id of its own, and neither its id nor its address
-- is empty.
unfoldable pub IsInventory : List String → List Host → Type 0
IsInventory seen [] = Unit
IsInventory seen (h ∷ rest) =
    (one_of h.id seen ≡ false)
    × (str_eq h.id "" ≡ false)
    × (str_eq h.address "" ≡ false)
    × IsInventory (h.id ∷ seen) rest

named_text-named : (v : Option Value) (s : String) → named_text v ≡ some s → str_eq s "" ≡ false
unfolding named_text
named_text-named (some (str t)) s e = elim (Bool-cases (str_eq t "")) [
  | inl empty ↦ let bad = rw empty at e in absurd (ground (arith, bad))
  | inr full ↦ let same : t ≡ s = (let got = rw full at e in cc) in rw (← same) full
]
named_text-named v s e = absurd (ground (arith, e))

read_host-named :
    (v : Value) (h : Host)
    → read_host v ≡ ok h
    → (str_eq h.id "" ≡ false) × (str_eq h.address "" ≡ false)
unfolding read_host
read_host-named (obj fs) h e =
    let (id, id_text, e1) = bind-eq-ok (found (named_text (get "id" fs)) _) _ e in
    let (address, address_text, e2) = bind-eq-ok (found (named_text (get "addr" fs)) _) _ e1 in
    let (targets, list, e3) =
      bind-eq-ok (found (target_list (get "logical_target_ids" fs)) _) _ e2 in
    let same : record { id = id; address = address; targets = targets; fields = fs } ≡ h =
      ok-injective e3 in
    rw (← same) (
      named_text-named _ id (found-eq-ok _ _ id_text),
      named_text-named _ address (found-eq-ok _ _ address_text),
    )
read_host-named v h e = absurd (ground (arith, e))

check_hosts-IsInventory :
    (seen : List String) (xs : Items) (hosts : List Host)
    → check_hosts seen xs ≡ ok hosts
    → IsInventory seen hosts
unfolding check_hosts IsInventory
check_hosts-IsInventory seen nil hosts e = let same : [] ≡ hosts = ok-injective e in rw (← same) tt
check_hosts-IsInventory seen (cons v rest) hosts e =
    let (h, is_host, e1) = bind-eq-ok (read_host v) _ e in
    let (u, fresh, e2) = bind-eq-ok (refuse (one_of h.id seen) inventory_unavailable) _ e1 in
    let (later, got, e3) = bind-eq-ok (check_hosts (h.id ∷ seen) rest) _ e2 in
    let same : h ∷ later ≡ hosts = ok-injective e3 in
    let (named, addressed) = read_host-named v h is_host in
    rw (← same) (
      refuse-eq-ok _ _ fresh,
      named,
      addressed,
      check_hosts-IsInventory (h.id ∷ seen) rest later got,
    )

listed : (v : Option Value) (hosts : List Host) → host_list v ≡ ok hosts → IsInventory [] hosts
unfolding host_list
listed (some (arr xs)) hosts e = check_hosts-IsInventory [] xs hosts e
listed v hosts e = absurd (ground (arith, e))

-- Every inventory that is loaded, with or without its overlay, gives each host an id of its own, and no
-- host an empty id or an empty address.
pub load_hosts-IsInventory :
    (lib : Library) (base local : File) (hosts : List Host)
    → load_hosts lib base local ≡ ok hosts
    → IsInventory [] hosts
unfolding load_hosts host_list
load_hosts-IsInventory lib base local hosts e =
    let (fs, is_base, e1) = bind-eq-ok (read_base lib base) _ e in
    let (overlay, is_overlay, e2) = bind-eq-ok (read_overlay lib local) _ e1 in
    listed (hosts_of fs overlay) hosts e2
