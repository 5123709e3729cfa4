-- ===== src/Kubernetes/Sync/Pages.antt =====
-- Reading a finished sync page by page (runner/runner/kubernetes.py, `sync_assets`). The cursor is the
-- URL-safe base64 text of the offset, without its padding: coder and decoder are parameters, and an
-- offset is a natural number.
use aiops_runner.Prelude.{
  ℕ, zero, suc, ◌+◌, ◌*◌, ◌/◌, ◌<◌, String, Bool, true, false, Option, none, some, List, [], ◌++◌,
  ◌≡◌, refl, str_eq, if◌then◌else◌, Result, ok, err, ◌>>=◌, ◌>>◌, found, require, length,
  length-append, take, drop, drop-append, take-drop, length-take, length-drop, ltb, ltb→lt, ltb→le,
  lt→ltb, le→ltb, take_all, append_assoc, arith, Bool-cases, inl, inr,
}
use aiops_runner.Kubernetes.Sync.{JobStatus, SyncJob, succeeded}

pub data PageCode : Type 0 where
  sync_not_complete cursor_invalid : PageCode

pub record SyncPage (A : Type 0) : Type 0 where
  pub items : List A
  pub next_cursor : Option String
  pub total : ℕ
  pub truncated : Bool

unfoldable pub is_succeeded : JobStatus → Bool
is_succeeded succeeded = true
is_succeeded _ = false

module _ (encode : ℕ → String) (decode : String → Option ℕ) where
  -- `if cursor: offset = int(…)`
  unfoldable pub offset_of : Option String → Result PageCode ℕ
  offset_of none = ok 0
  offset_of (some text) = if str_eq text "" then ok 0 else found (decode text) cursor_invalid

  unfoldable pub page_at : {A : Type 0} → List A → ℕ → SyncPage A
  page_at assets offset =
      let page = take 500 (drop offset assets) in
      let more = ltb (offset + length page) (length assets) in
      record {
        items = page;
        next_cursor = if more then some (encode (offset + length page)) else none;
        total = length assets;
        truncated = more;
      }

  unfoldable pub sync_assets :
      {A : Type 0} → SyncJob A → Option String → Result PageCode (SyncPage A)
  sync_assets job cursor =
      require (is_succeeded job.status) sync_not_complete >> offset_of cursor >>= λ offset.
      ok (page_at job.assets offset)

  unfoldable pub joined :
      {A : Type 0}
      → List A
      → Option String
      → Result PageCode (Option (List A))
      → Result PageCode (Option (List A))
  joined items none rest = ok (some items)
  joined items (some cursor) (ok (some more)) = ok (some (items ++ more))
  joined items (some cursor) (ok none) = ok none
  joined items (some cursor) (err e) = err e

  -- A reader that follows the cursors, at most as many pages as it has fuel.
  unfoldable pub follow :
      {A : Type 0} → ℕ → SyncJob A → Option String → Result PageCode (Option (List A))
  follow zero job cursor = ok none
  follow (suc fuel) job cursor = sync_assets job cursor >>= λ page.
      joined page.items page.next_cursor (follow fuel job page.next_cursor)

  page_at-rest :
      {A : Type 0} (assets front rest : List A)
      → assets ≡ front ++ rest
      → page_at assets (length front) ≡ record {
        items = take 500 rest;
        next_cursor = if ltb 500 (length rest) then some (encode (length front + 500)) else none;
        total = length assets;
        truncated = ltb 500 (length rest);
      }
  unfolding page_at
  page_at-rest assets front rest split =
      let dropped : drop (length front) assets ≡ rest = rw (split) (drop-append front rest) in
      let whole : length assets ≡ length front + length rest =
        rw (split) (length-append front rest) in
      elim (Bool-cases (ltb 500 (length rest))) [
        | inl more ↦
            let full : length (take 500 rest) ≡ 500 =
              omega (arith, length-take 500 rest, ltb→lt 500 (length rest) more) in
            let further : ltb (length front + 500) (length assets) ≡ true =
              lt→ltb (length front + 500) (length assets)
                (omega (arith, whole, ltb→lt 500 (length rest) more)) in
            rw (page_at, dropped, full, further, more) refl
        | inr last ↦
            let end : ltb (length front + length (take 500 rest)) (length assets) ≡ false =
              le→ltb (length front + length (take 500 rest)) (length assets)
                (omega (arith, whole, ltb→le 500 (length rest) last, length-take 500 rest)) in
            rw (page_at, dropped, end, last) refl
      ]

  follow-page :
      {A : Type 0} (job : SyncJob A) (fuel : ℕ) (front rest : List A) (cursor : Option String)
      → job.status ≡ succeeded
      → job.assets ≡ front ++ rest
      → offset_of cursor ≡ ok (length front)
      → follow (suc fuel) job cursor
        ≡ joined
            (take 500 rest)
            (if ltb 500 (length rest) then some (encode (length front + 500)) else none)
            (follow fuel job
              (if ltb 500 (length rest) then some (encode (length front + 500)) else none))
  unfolding follow sync_assets is_succeeded
  follow-page job fuel front rest cursor done split at =
      rw (done, at, page_at-rest job.assets front rest split) refl

  follow-rest :
      {A : Type 0} (job : SyncJob A) (fuel : ℕ) (front rest : List A) (cursor : Option String)
      → ((n : ℕ) → offset_of (some (encode n)) ≡ ok n)
      → job.status ≡ succeeded
      → job.assets ≡ front ++ rest
      → offset_of cursor ≡ ok (length front)
      → length rest < 500 * fuel
      → follow fuel job cursor ≡ ok (some rest)
  unfolding joined
  follow-rest job zero front rest cursor decodes done split at enough =
      absurd (omega (arith, enough))
  follow-rest job (suc fuel) front rest cursor decodes done split at enough =
      let page = follow-page job fuel front rest cursor done split at in
      elim (Bool-cases (ltb 500 (length rest))) [
        | inl more ↦
            let full : length (take 500 rest) ≡ 500 =
              omega (arith, length-take 500 rest, ltb→lt 500 (length rest) more) in
            let pieces : job.assets ≡ (front ++ take 500 rest) ++ drop 500 rest =
              rw (split, append_assoc front (take 500 rest) (drop 500 rest), take-drop 500 rest)
                refl in
            let next : offset_of (some (encode (length front + 500)))
                ≡ ok (length (front ++ take 500 rest)) =
              rw (length-append front (take 500 rest), full) (decodes (length front + 500)) in
            let others =
              follow-rest job fuel (front ++ take 500 rest) (drop 500 rest)
                (some (encode (length front + 500))) decodes done pieces next
                (omega (arith, enough, length-drop 500 rest, ltb→lt 500 (length rest) more)) in
            rw (page, more, others, take-drop 500 rest) refl
        | inr last ↦
            let whole = take_all 500 rest (ltb→le 500 (length rest) last) in
            rw (page, last, whole) refl
      ]

  -- Following the cursors of a succeeded sync ends after at most one page for each 500 assets and
  -- one more, and gives its assets in their order, each once; the condition on the coder is that an
  -- offset is read back from its cursor.
  pub follow-assets :
      {A : Type 0} (job : SyncJob A)
      → ((n : ℕ) → offset_of (some (encode n)) ≡ ok n)
      → job.status ≡ succeeded
      → follow (suc (length job.assets / 500)) job none ≡ ok (some job.assets)
  unfolding offset_of
  follow-assets job decodes done =
      follow-rest job (suc (length job.assets / 500)) [] job.assets none decodes done refl refl
        (omega arith)
