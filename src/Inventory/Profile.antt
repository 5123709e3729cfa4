-- ===== src/Inventory/Profile.antt =====
-- SSH profiles (runner/runner/trusted_inventory.py, `_load_connection_config` and `ssh_profile`). The
-- two regular expressions, stripping, the file system and the resolution of a path in the inventory's
-- directory are parameters.
pub mod Checked
use aiops_runner.Prelude.{
  ℕ, String, Bool, true, false, not, ◌&&◌, Option, none, some, List, [], ◌∷◌, str_eq, one_of, leb,
  if◌then◌else◌, Result, ok, err, ◌>>=◌, ◌>>◌, require, found,
}
use aiops_runner.Contract.Json.{Value, str, int, obj, Fields, end, field}
use aiops_runner.Stream.Reading.{Library, get, set, text_or_empty, is_set}
use aiops_runner.Inventory.{
  InventoryCode, target_connection_unavailable, File, absent, unreadable, contents, Host, fields_of,
  or_empty, resolve_unique_target,
}

pub record System : Type 0 where
  pub strip : String → String
  pub is_user : String → Bool
  pub is_address : String → Bool
  pub is_absolute : String → Bool
  pub resolve : String → String
  pub is_file : String → Bool

pub record SshProfile : Type 0 where
  pub user : String
  pub address : String
  pub port : ℕ
  pub key_path : String
  pub known_hosts_path : String
  pub command_timeout_sec : ℕ

-- `set(config) - allowed` is empty.
unfoldable pub only_keys : List String → Fields → Bool
only_keys allowed end = true
only_keys allowed (field k v fs) = one_of k allowed && only_keys allowed fs

abbrev pub base_keys : List String
base_keys =
    "ssh_user" ∷ "ssh_key_path" ∷ "known_hosts_path" ∷ "strict_host_key_checking"
    ∷ "connect_timeout_sec" ∷ "command_timeout_sec" ∷ []

abbrev pub local_keys : List String
local_keys = "ssh_user" ∷ "ssh_key_path" ∷ "known_hosts_path" ∷ "strict_host_key_checking" ∷ []

-- `{**base, **local}`
unfoldable pub merge : Fields → Fields → Fields
merge base end = base
merge base (field k v fs) = merge (set k v base) fs

-- `host.get(…, default)` where a Boolean, and what is no integer, is refused.
unfoldable pub int_or : ℕ → Option Value → Option ℕ
int_or default none = some default
int_or default (some (int n)) = some n
int_or default (some _) = none

module _ (lib : Library) (system : System) where
  unfoldable pub load_connection : File → Result InventoryCode Fields
  load_connection absent = ok end
  load_connection unreadable = err target_connection_unavailable
  load_connection (contents v) = found (fields_of (or_empty lib v)) target_connection_unavailable

  -- A relative path is one in the inventory's directory.
  unfoldable pub resolve_path : String → Fields → Fields
  resolve_path key fs =
      let path = text_or_empty lib (get key fs) in
      if is_set lib (get key fs) && not (system.is_absolute path)
      then set key (str (system.resolve path)) fs
      else fs

  -- `_load_connection_config`
  unfoldable pub load_connection_config : File → File → Result InventoryCode Fields
  load_connection_config base local = load_connection base >>= λ b. load_connection local >>= λ l.
      require (only_keys base_keys b && only_keys local_keys l) target_connection_unavailable
      >>= λ _. ok (resolve_path "known_hosts_path" (resolve_path "ssh_key_path" (merge b l)))

  -- `str(host.get("ssh_user") or config.get("ssh_user") or "").strip()`
  unfoldable pub ssh_user : Fields → Fields → String
  ssh_user host config = system.strip (
      if is_set lib (get "ssh_user" host)
      then text_or_empty lib (get "ssh_user" host)
      else text_or_empty lib (get "ssh_user" config))

  unfoldable pub is_usable : SshProfile → Bool
  is_usable p =
      system.is_user p.user
      && system.is_address p.address
      && leb 1 p.port
      && leb p.port 65_535
      && not (str_eq p.key_path "")
      && not (str_eq p.known_hosts_path "")
      && system.is_file p.key_path
      && system.is_file p.known_hosts_path
      && leb 1 p.command_timeout_sec

  unfoldable pub profile_with : Host → Fields → ℕ → ℕ → SshProfile
  profile_with h config port timeout = record {
    user = ssh_user h.fields config;
    address = system.strip h.address;
    port = port;
    key_path = system.strip (text_or_empty lib (get "ssh_key_path" config));
    known_hosts_path = system.strip (text_or_empty lib (get "known_hosts_path" config));
    command_timeout_sec = timeout;
  }

  -- `ssh_profile`, on the hosts that were loaded.
  unfoldable pub ssh_profile : File → File → String → List Host → Result InventoryCode SshProfile
  ssh_profile base local target hosts = resolve_unique_target target hosts >>= λ h.
      load_connection_config base local >>= λ config.
      found (int_or 22 (get "ssh_port" h.fields)) target_connection_unavailable >>= λ port.
      found (int_or 30 (get "command_timeout_sec" config)) target_connection_unavailable
      >>= λ timeout.
          require (is_usable (profile_with h config port timeout)) target_connection_unavailable
          >>= λ _. ok (profile_with h config port timeout)
