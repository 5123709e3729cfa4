-- ===== src/Examples/Inventory.antt =====
-- Witnesses for runner/runner/trusted_inventory.py.
use aiops_runner.Prelude.{◌≡◌, refl, true, false, not, none, List, [], ◌∷◌, str_eq}
use aiops_runner.Contract.Json.{str, obj, end, field}
use aiops_runner.Stream.Reading.{Library, is_truthy, get, is_set, text_or_empty, set}
use aiops_runner.Inventory.{
  File, absent, contents, Host, resolve_unique_target, only_match, matching, fields_of, or_empty,
}
use aiops_runner.Inventory.Unique.{IsOnly}
use aiops_runner.Inventory.Profile.{
  System, SshProfile, ssh_profile, load_connection_config, load_connection, only_keys, int_or,
  resolve_path, merge, is_usable, profile_with, ssh_user,
}
use aiops_runner.Inventory.Profile.Checked.{IsConnectable, ssh_profile-IsConnectable}

abbrev web_host : Host
web_host = record { id = "h1"; address = "10.0.0.1"; targets = "web" ∷ "db" ∷ []; fields = end }

abbrev db_host : Host
db_host = record { id = "h2"; address = "10.0.0.2"; targets = "db" ∷ []; fields = end }

abbrev two_hosts : List Host
two_hosts = web_host ∷ db_host ∷ []

abbrev readers : Library
readers = record {
  loads = λ t. none;
  text_of = λ v. "value";
  dict_of = λ v. none;
  is_zero = λ t. str_eq t "0.0";
  dumps = λ v. "[]";
  lower = λ t. t;
  substitute_secrets = λ t. t;
  command_digest = λ t. t;
  names_remote_program = λ t. false;
  is_canonical_uuid = λ t. true;
  aware_time = λ t. none;
  is_valid_draft = λ fs. true;
  http_status = λ t. none;
  says = λ p t. false;
}

abbrev machine : System
machine = record {
  strip = λ t. t;
  is_user = λ t. not (str_eq t "");
  is_address = λ t. not (str_eq t "");
  is_absolute = λ t. str_eq t "/keys/id";
  resolve = λ t. "/inventory/known_hosts";
  is_file = λ t. true;
}

abbrev connection : File
connection = contents (
    obj (
      field "ssh_user" (str "ops")
        (field "ssh_key_path" (str "/keys/id") (field "known_hosts_path" (str "known_hosts") end))))

abbrev web_profile : SshProfile
web_profile = record {
  user = "ops";
  address = "10.0.0.1";
  port = 22;
  key_path = "/keys/id";
  known_hosts_path = "/inventory/known_hosts";
  command_timeout_sec = 30;
}

ssh_profile-IsConnectable_example :
    (h : Host) × IsOnly "web" two_hosts h
    × (web_profile.address ≡ h.address)
    × IsConnectable readers machine web_profile
unfolding ssh_profile resolve_unique_target only_match matching fields_of or_empty
    load_connection_config load_connection only_keys int_or resolve_path merge is_usable
    profile_with ssh_user is_truthy get is_set text_or_empty set
ssh_profile-IsConnectable_example =
    ssh_profile-IsConnectable readers machine connection absent "web" two_hosts web_profile refl
