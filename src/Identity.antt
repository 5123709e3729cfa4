-- ===== src/Identity.antt =====
-- The persistent identity of the runner (runner/runner/instance_identity.py). A path of the file system
-- is what `lstat` finds there with the bytes behind it; the calls of the operating system that create a
-- file are modelled as what they leave. Bytes are numbers. UUID parsing is a parameter: the version and
-- the canonical text of a text that is a UUID. The platform is Linux.
pub mod Loaded
pub mod Guarded
use aiops_runner.Prelude.{
  ℕ, suc, ◌+◌, ◌*◌, ◌/◌, ◌%◌, String, Bool, true, false, not, ◌&&◌, ◌||◌, Option, none, some, List,
  [], ◌∷◌, ◌++◌, all, count, length, ltb, leb, ◌==◌, if◌then◌else◌, Result, ok, err, ◌>>=◌, ◌>>◌,
  require, refuse, found, take,
}

pub data IdentityCode : Type 0 where
  not_canonical missing not_regular directory_missing not_a_directory directory_owner : IdentityCode
  directory_permissions wrong_owner wrong_permissions cannot_open changed_while_read : IdentityCode
  invalid_encoding not_one_newline unexpected changed_during_service cannot_secure : IdentityCode

pub data Kind : Type 0 where
  regular directory symlink other : Kind

pub record Stat : Type 0 where
  pub kind : Kind
  pub links : ℕ
  pub owner : ℕ
  pub mode : ℕ
  pub device : ℕ
  pub inode : ℕ

pub record IdentitySnapshot : Type 0 where
  pub instance_id : List ℕ
  pub device : ℕ
  pub inode : ℕ
  pub owner_uid : ℕ

-- What the calls of `load_identity` find: `lstat` of the directory and of the file, `fstat` of the opened
-- file, and its bytes.
pub record Disk : Type 0 where
  pub parent : Option Stat
  pub file : Option Stat
  pub opened : Option Stat
  pub bytes : List ℕ

unfoldable pub is_regular : Kind → Bool
is_regular regular = true
is_regular _ = false

unfoldable pub is_directory : Kind → Bool
is_directory directory = true
is_directory _ = false

-- `mode & 0o077` is zero: the last six bits.
unfoldable pub is_private : ℕ → Bool
is_private mode = mode % 64 == 0

abbrev pub newline : ℕ
newline = 10

-- `_check_directory`
unfoldable pub check_directory : ℕ → Option Stat → Result IdentityCode Stat
check_directory owner o = found o directory_missing >>= λ s.
    require (is_directory s.kind) not_a_directory >>= λ _.
    require (s.owner == owner) directory_owner >>= λ _.
    require (is_private s.mode) directory_permissions >>= λ _. ok s

-- `_no_follow_stat`
unfoldable pub no_follow_stat : Option Stat → Result IdentityCode Stat
no_follow_stat o =
    found o missing >>= λ s. require (is_regular s.kind && s.links == 1) not_regular >>= λ _. ok s

unfoldable pub is_newline : ℕ → Bool
is_newline b = b == newline

-- The text before its trailing newline, when it is the only one.
unfoldable pub before_newline : List ℕ → Option (List ℕ)
before_newline [] = none
before_newline (b ∷ []) = if is_newline b then some [] else none
before_newline (b ∷ c ∷ rest) =
    let later = before_newline (c ∷ rest) in
    if is_newline b then none else elim later [ none ↦ none | some text ↦ some (b ∷ text) ]

-- The checks of the bytes that were read.
unfoldable pub read_text : List ℕ → Result IdentityCode (List ℕ)
read_text raw = require (all (λ b. ltb b 128) raw) invalid_encoding >>= λ _.
    require (length raw == 37) not_one_newline >>= λ _. found (before_newline raw) not_one_newline

unfoldable pub same_file : Stat → Stat → Bool
same_file a b = is_regular a.kind && a.inode == b.inode && a.device == b.device

unfoldable pub same_texts : List ℕ → List ℕ → Bool
same_texts [] [] = true
same_texts [] (_ ∷ _) = false
same_texts (_ ∷ _) [] = false
same_texts (a ∷ xs) (b ∷ ys) = a == b && same_texts xs ys

-- Root gives what it made to the service user.
unfoldable pub given_to : Bool → ℕ → ℕ → ℕ
given_to is_root owner current = if is_root then owner else current

-- The directory after `init_identity` has made it private and owned by the service user.
unfoldable pub secured : Bool → ℕ → Option Stat → Result IdentityCode Stat
secured is_root owner o = found o cannot_secure >>= λ s.
    require (is_directory s.kind) not_a_directory >>= λ _.
    require (given_to is_root owner s.owner == owner) directory_owner >>= λ _.
    ok (record s { mode = 448; owner = given_to is_root owner s.owner })

-- A new file: `O_EXCL` with mode 0600, written and synchronized.
unfoldable pub created : Bool → ℕ → List ℕ → Stat → Disk → Disk
created is_root owner value fresh disk =
    let file = record fresh {
      kind = regular;
      links = 1;
      owner = given_to is_root owner fresh.owner;
      mode = 384;
    } in
    record disk { file = some file; opened = some file; bytes = value ++ (newline ∷ []) }

-- `identity_path.exists() or identity_path.is_symlink()`
unfoldable pub existing : {A : Type 0} → Option Stat → A → A → A
existing (some _) there new = there
existing none there new = new

unfoldable pub after_secured :
    Result IdentityCode Stat
    → Disk
    → (Stat → Result IdentityCode IdentitySnapshot × Disk)
    → Result IdentityCode IdentitySnapshot × Disk
after_secured (err e) disk rest = (err e, disk)
after_secured (ok parent) disk rest = rest parent

module _ (uuid_version : List ℕ → Option ℕ) (uuid_text : List ℕ → List ℕ) where
  -- `_canonical_uuid4`
  unfoldable pub canonical_uuid4 : List ℕ → Result IdentityCode (List ℕ)
  canonical_uuid4 value = found (uuid_version value) not_canonical >>= λ version.
      require (version == 4 && same_texts (uuid_text value) value) not_canonical >>= λ _. ok value

  -- `if expected and instance_id != _canonical_uuid4(expected)`
  unfoldable pub check_expected : List ℕ → List ℕ → Result IdentityCode (List ℕ)
  check_expected [] id = ok id
  check_expected (c ∷ cs) id = canonical_uuid4 (c ∷ cs) >>= λ expected.
      require (same_texts id expected) unexpected >>= λ _. ok id

  -- `load_identity`
  unfoldable pub load_identity : List ℕ → ℕ → Disk → Result IdentityCode IdentitySnapshot
  load_identity expected owner disk = check_directory owner disk.parent >>= λ _.
      no_follow_stat disk.file >>= λ info. require (info.owner == owner) wrong_owner >>= λ _.
      require (is_private info.mode) wrong_permissions >>= λ _.
      found disk.opened cannot_open >>= λ opened.
      require (same_file opened info) changed_while_read >>= λ _.
      read_text (take 128 disk.bytes) >>= λ text. canonical_uuid4 text >>= λ id.
      check_expected expected id >>= λ checked. ok (record {
        instance_id = checked;
        device = opened.device;
        inode = opened.inode;
        owner_uid = opened.owner;
      })

  unfoldable pub same_snapshot : IdentitySnapshot → IdentitySnapshot → Bool
  same_snapshot a b =
      same_texts a.instance_id b.instance_id
      && a.device == b.device
      && a.inode == b.inode
      && a.owner_uid == b.owner_uid

  -- `IdentityGuard.verify`
  unfoldable pub verify : List ℕ → ℕ → IdentitySnapshot → Disk → Result IdentityCode (Unit {0})
  verify expected owner snapshot disk = load_identity expected owner disk >>= λ current.
      require (same_snapshot current snapshot) changed_during_service

  unfoldable pub load_or_create :
      Bool → ℕ → List ℕ → Stat → Disk → Result IdentityCode IdentitySnapshot × Disk
  load_or_create is_root owner value fresh disk =
      let made = created is_root owner value fresh disk in
      existing disk.file (load_identity [] owner disk, disk) (load_identity [] owner made, made)

  -- `init_identity` under its lock, for the uid of the service and a fresh UUID: what is there is
  -- validated and never replaced. `fresh` is what the new file would be.
  unfoldable pub init_identity :
      Bool → ℕ → List ℕ → Stat → Disk → Result IdentityCode IdentitySnapshot × Disk
  init_identity is_root owner value fresh disk =
      after_secured (secured is_root owner disk.parent) disk
        (λ parent. load_or_create is_root owner value fresh (record disk { parent = some parent }))
