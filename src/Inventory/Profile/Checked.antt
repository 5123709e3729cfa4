-- ===== src/Inventory/Profile/Checked.antt =====
-- What an SSH profile promises (runner/runner/trusted_inventory.py, `ssh_profile`).
use aiops_runner.Prelude.{
  ◌≤◌, String, true, List, ◌≡◌, refl, ok, require, found, bind-eq-ok, require-eq-ok, ok-injective,
  arith,
}
use aiops_runner.Stream.Reading.{Library, get}
use aiops_runner.Inventory.{File, Host, resolve_unique_target}
use aiops_runner.Inventory.Unique.{IsOnly, resolve_unique_target_iff}
use aiops_runner.Inventory.Profile.{
  System, SshProfile, is_usable, ssh_profile, load_connection_config, profile_with, int_or,
}

module _ (lib : Library) (system : System) where
  pub record IsConnectable (p : SshProfile) : Type 0 where
    pub user_matches : system.is_user p.user ≡ true
    pub address_matches : system.is_address p.address ≡ true
    pub port_low : 1 ≤ p.port
    pub port_high : p.port ≤ 65_535
    pub key_is_file : system.is_file p.key_path ≡ true
    pub known_hosts_is_file : system.is_file p.known_hosts_path ≡ true
    pub timeout_positive : 1 ≤ p.command_timeout_sec

  usable-IsConnectable : (p : SshProfile) → is_usable lib system p ≡ true → IsConnectable p
  unfolding is_usable
  usable-IsConnectable p h = ground arith

  -- An SSH profile is only given for a target that exactly one host lists, with that host's address
  -- stripped, and it has a user and an address that match their patterns, a port from 1 to 65535, an
  -- existing key and known-hosts file, and a positive timeout.
  pub ssh_profile-IsConnectable :
      (base local : File) (target : String) (hosts : List Host) (p : SshProfile)
      → ssh_profile lib system base local target hosts ≡ ok p
      → (h : Host) × IsOnly target hosts h × (p.address ≡ system.strip h.address) × IsConnectable p
  unfolding ssh_profile profile_with
  ssh_profile-IsConnectable base local target hosts p e =
      let (h, unique, e1) = bind-eq-ok (resolve_unique_target target hosts) _ e in
      let (config, loaded, e2) = bind-eq-ok (load_connection_config lib system base local) _ e1 in
      let (port, is_port, e3) = bind-eq-ok (found (int_or 22 (get "ssh_port" h.fields)) _) _ e2 in
      let (timeout, is_timeout, e4) =
        bind-eq-ok (found (int_or 30 (get "command_timeout_sec" config)) _) _ e3 in
      let (u, usable, e5) =
        bind-eq-ok
          (require (is_usable lib system (profile_with lib system h config port timeout)) _) _ e4 in
      let same : profile_with lib system h config port timeout ≡ p = ok-injective e5 in
      (
        h,
        ((resolve_unique_target_iff target hosts).0 h).0 unique,
        (rw (← same) refl),
        (rw (← same) (
            usable-IsConnectable (profile_with lib system h config port timeout)
              (require-eq-ok _ _ usable))),
      )
