-- ===== src/Identity/Guarded.antt =====
-- What an identity check promises (runner/runner/instance_identity.py, `load_identity` and
-- `IdentityGuard.verify`).
use aiops_runner.Prelude.{
  ℕ, true, ◌&&◌, Option, some, List, [], ◌∷◌, ◌++◌, ◌≡◌, refl, ap, ◌∙◌, all, length, ltb, ◌==◌, ok,
  require, found, take, bind-eq-ok, require-eq-ok, found-eq-ok, ok-injective, Bool-cases,
  Option-cases, inl, inr, arith,
}
use aiops_runner.Identity.{
  Stat, regular, Disk, IdentitySnapshot, is_regular, is_private, is_newline, newline,
  check_directory, no_follow_stat, before_newline, read_text, same_file, same_texts,
  canonical_uuid4, check_expected, load_identity, same_snapshot, verify,
}

pub before_newline-split :
    (raw text : List ℕ) → before_newline raw ≡ some text → raw ≡ text ++ (newline ∷ [])
unfolding before_newline is_newline
before_newline-split [] text e = cc
before_newline-split (b ∷ []) text e = elim (Bool-cases (b == newline)) [
  | inl final ↦
      let same : [] ≡ text = (let got = rw final at e in cc) in
      let last : b ≡ newline = ground (arith, final) in rw (← same, last) refl
  | inr inner ↦ let bad = rw inner at e in absurd (ground (arith, bad))
]
before_newline-split (b ∷ c ∷ rest) text e = elim (Bool-cases (b == newline)) [
  | inl final ↦ let bad = rw final at e in absurd (ground (arith, bad))
  | inr inner ↦ elim (Option-cases (before_newline (c ∷ rest))) [
    | inl missing ↦ let bad = rw (inner, missing) at e in absurd (ground (arith, bad))
    | inr (later, got) ↦
        let found = rw (inner, got) at e in
        let same : b ∷ later ≡ text = cc in
        rw (← same) (ap (λ l. b ∷ l) (before_newline-split (c ∷ rest) later got))
  ]
]

pub same_texts→eq : (xs ys : List ℕ) → same_texts xs ys ≡ true → xs ≡ ys
unfolding same_texts
same_texts→eq [] [] h = refl
same_texts→eq [] (y ∷ ys) h = cc
same_texts→eq (x ∷ xs) [] h = cc
same_texts→eq (x ∷ xs) (y ∷ ys) h =
    let first : x ≡ y = ground (arith, h) in
    let rest : xs ≡ ys = same_texts→eq xs ys (ground (arith, h)) in cc

-- The file of a checked identity: a regular file with one link, of the service user, private, with
-- exactly the identity and a newline in it, and the very file whose number is remembered.
pub record IsIntact (owner : ℕ) (disk : Disk) (s : IdentitySnapshot) : Type 0 where
  pub info : Stat
  pub file_found : disk.file ≡ some info
  pub is_file : info.kind ≡ regular
  pub one_link : info.links ≡ 1
  pub owned : info.owner ≡ owner
  pub private : is_private info.mode ≡ true
  pub same_inode : info.inode ≡ s.inode
  pub same_device : info.device ≡ s.device
  pub content : take 128 disk.bytes ≡ s.instance_id ++ (newline ∷ [])

regular_file :
    (t : Stat) → (is_regular t.kind && t.links == 1) ≡ true → (t.kind ≡ regular) × (t.links ≡ 1)
unfolding is_regular
regular_file t h = ground arith

no_follow_stat-found :
    (o : Option Stat) (s : Stat)
    → no_follow_stat o ≡ ok s
    → (o ≡ some s) × (s.kind ≡ regular) × (s.links ≡ 1)
unfolding no_follow_stat
no_follow_stat-found o s e =
    let (t, is_some, e1) = bind-eq-ok (found o _) _ e in
    let (u, fits, e2) = bind-eq-ok (require (is_regular t.kind && t.links == 1) _) _ e1 in
    let same : t ≡ s = ok-injective e2 in
    let (kind, links) = regular_file t (require-eq-ok _ _ fits) in
    rw (← same) (found-eq-ok o _ is_some, kind, links)

read_text-split : (raw text : List ℕ) → read_text raw ≡ ok text → raw ≡ text ++ (newline ∷ [])
unfolding read_text
read_text-split raw text e =
    let (u, ascii, e1) = bind-eq-ok (require (all (λ b. ltb b 128) raw) _) _ e in
    let (v, sized, e2) = bind-eq-ok (require (length raw == 37) _) _ e1 in
    before_newline-split raw text (found-eq-ok _ _ e2)

same_file-numbers :
    (opened info : Stat)
    → same_file opened info ≡ true
    → (info.inode ≡ opened.inode) × (info.device ≡ opened.device)
unfolding same_file
same_file-numbers opened info h = ground arith

module _ (uuid_version : List ℕ → Option ℕ) (uuid_text : List ℕ → List ℕ) where
  canonical_uuid4-same :
      (value id : List ℕ) → canonical_uuid4 uuid_version uuid_text value ≡ ok id → value ≡ id
  unfolding canonical_uuid4
  canonical_uuid4-same value id e =
      let (version, known, e1) = bind-eq-ok (found (uuid_version value) _) _ e in
      let (u, fits, e2) =
        bind-eq-ok (require (version == 4 && same_texts (uuid_text value) value) _) _ e1 in
      ok-injective e2

  check_expected-same :
      (expected id checked : List ℕ)
      → check_expected uuid_version uuid_text expected id ≡ ok checked
      → id ≡ checked
  unfolding check_expected
  check_expected-same [] id checked e = ok-injective e
  check_expected-same (c ∷ cs) id checked e =
      let (given, canonical, e1) =
        bind-eq-ok (canonical_uuid4 uuid_version uuid_text (c ∷ cs)) _ e in
      let (u, fits, e2) = bind-eq-ok (require (same_texts id given) _) _ e1 in ok-injective e2

  pub load_identity-IsIntact :
      (expected : List ℕ) (owner : ℕ) (disk : Disk) (s : IdentitySnapshot)
      → load_identity uuid_version uuid_text expected owner disk ≡ ok s
      → IsIntact owner disk s
  unfolding load_identity
  load_identity-IsIntact expected owner disk s e =
      let (p, checked_parent, e1) = bind-eq-ok (check_directory owner disk.parent) _ e in
      let (info, is_info, e2) = bind-eq-ok (no_follow_stat disk.file) _ e1 in
      let (u, mine, e3) = bind-eq-ok (require (info.owner == owner) _) _ e2 in
      let (v, narrow, e4) = bind-eq-ok (require (is_private info.mode) _) _ e3 in
      let (opened, is_opened, e5) = bind-eq-ok (found disk.opened _) _ e4 in
      let (w, same, e6) = bind-eq-ok (require (same_file opened info) _) _ e5 in
      let (text, is_text, e7) = bind-eq-ok (read_text (take 128 disk.bytes)) _ e6 in
      let (id, is_id, e8) = bind-eq-ok (canonical_uuid4 uuid_version uuid_text text) _ e7 in
      let (checked, is_checked, e9) =
        bind-eq-ok (check_expected uuid_version uuid_text expected id) _ e8 in
      let (found_file, kind, links) = no_follow_stat-found disk.file info is_info in
      let (inode, device) = same_file-numbers opened info (require-eq-ok _ _ same) in
      let whole : take 128 disk.bytes ≡ checked ++ (newline ∷ []) =
        rw
          (
            ← check_expected-same expected id checked is_checked,
            ← canonical_uuid4-same text id is_id,
          )
          (read_text-split (take 128 disk.bytes) text is_text) in
      let made = ok-injective e9 in
      let mine_too : info.owner ≡ owner = ground (arith, require-eq-ok _ _ mine) in
      rw (← made) (record {
        info = info;
        file_found = found_file;
        is_file = kind;
        one_link = links;
        owned = mine_too;
        private = require-eq-ok _ _ narrow;
        same_inode = inode;
        same_device = device;
        content = whole;
      })

  snapshot_same :
      (owner : ℕ) (disk : Disk) (current snapshot : IdentitySnapshot)
      → same_snapshot uuid_version uuid_text current snapshot ≡ true
      → IsIntact owner disk current
      → IsIntact owner disk snapshot
  unfolding same_snapshot
  snapshot_same owner disk current snapshot h i =
      let texts = same_texts→eq current.instance_id snapshot.instance_id (ground (arith, h)) in
      let inode : current.inode ≡ snapshot.inode = ground (arith, h) in
      let device : current.device ≡ snapshot.device = ground (arith, h) in
      record {
        info = i.info;
        file_found = i.file_found;
        is_file = i.is_file;
        one_link = i.one_link;
        owned = i.owned;
        private = i.private;
        same_inode = i.same_inode ∙ inode;
        same_device = i.same_device ∙ device;
        content = i.content ∙ ap (λ l. l ++ (newline ∷ [])) texts;
      }

  -- While a service runs, a verification that succeeds finds the identity that the service started with:
  -- in the same file, which is regular, private, of the service user and without another link, and
  -- which begins with exactly the identity's text and a newline in its first 128 bytes.
  pub verify-IsIntact :
      (expected : List ℕ) (owner : ℕ) (snapshot : IdentitySnapshot) (disk : Disk) {u : Unit {0}}
      → verify uuid_version uuid_text expected owner snapshot disk ≡ ok u
      → IsIntact owner disk snapshot
  unfolding verify
  verify-IsIntact expected owner snapshot disk e =
      let (current, loaded, e1) =
        bind-eq-ok (load_identity uuid_version uuid_text expected owner disk) _ e in
      snapshot_same owner disk current snapshot (require-eq-ok _ _ e1)
        (load_identity-IsIntact expected owner disk current loaded)
