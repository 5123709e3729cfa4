-- ===== src/Examples/Identity.antt =====
-- Witnesses for runner/runner/instance_identity.py.
use aiops_runner.Prelude.{◌≡◌, refl, ℕ, ◌++◌, false, Option, none, some, List, [], ◌∷◌, codes}
use aiops_runner.Identity.{
  Stat, Disk, IdentitySnapshot, directory, regular, newline, init_identity, verify, after_secured,
  secured, given_to, load_or_create, existing, created, same_snapshot, load_identity,
  check_directory, is_directory, is_private, no_follow_stat, is_regular, same_file, read_text,
  before_newline, is_newline, canonical_uuid4, same_texts, check_expected,
}
use aiops_runner.Identity.Loaded.{init_identity-stable}
use aiops_runner.Identity.Guarded.{IsIntact, verify-IsIntact}

abbrev runner_id : List ℕ
runner_id = codes "5f0c4c1e-7a54-4f0e-9a57-0d3b1c2e4f66"

abbrev version_four : List ℕ → Option ℕ
version_four t = some 4

abbrev as_given : List ℕ → List ℕ
as_given t = t

abbrev state_directory : Stat
state_directory = record {
  kind = directory;
  links = 2;
  owner = 1_000;
  mode = 493;
  device = 7;
  inode = 1;
}

abbrev new_file : Stat
new_file = record { kind = regular; links = 1; owner = 1_000; mode = 384; device = 7; inode = 42 }

abbrev empty_disk : Disk
empty_disk = record { parent = some state_directory; file = none; opened = none; bytes = [] }

abbrev runner_snapshot : IdentitySnapshot
runner_snapshot = record { instance_id = runner_id; device = 7; inode = 42; owner_uid = 1_000 }

init_identity-stable_example :
    init_identity version_four as_given false 1_000
      (codes "other")
      new_file
      (init_identity version_four as_given false 1_000 runner_id new_file empty_disk).1
    ≡ init_identity version_four as_given false 1_000 runner_id new_file empty_disk
unfolding init_identity after_secured secured given_to load_or_create existing created load_identity
    check_directory is_directory is_private no_follow_stat is_regular same_file read_text
    before_newline is_newline canonical_uuid4 same_texts check_expected
init_identity-stable_example =
    init_identity-stable version_four as_given false 1_000 runner_id (codes "other") new_file
      new_file empty_disk runner_snapshot refl

abbrev identity_disk : Disk
identity_disk = record {
  parent = some (record state_directory { mode = 448 });
  file = some new_file;
  opened = some new_file;
  bytes = runner_id ++ (newline ∷ []);
}

verify-IsIntact_example : IsIntact 1_000 identity_disk runner_snapshot
unfolding verify same_snapshot load_identity check_directory is_directory is_private no_follow_stat
    is_regular same_file read_text before_newline is_newline canonical_uuid4 same_texts
    check_expected
verify-IsIntact_example =
    verify-IsIntact version_four as_given [] 1_000 runner_snapshot identity_disk refl
