-- ===== src/Session/Journal/Claims/Authority.antt =====
-- The first durable decision on a command stands.
use text.Mathlib.TextPositions.{eq_refl}
use aiops_runner.Prelude.{
  ◌≡◌, ◌≢◌, String, true, false, Option, none, some, [], ◌∷◌, str_eq, arith, eq_iff, if◌then◌else◌,
  ok, err, ok-injective, ap, sym, ◌∙◌, Option-cases, inl, inr,
}
use aiops_runner.Session.Codes.{repair_idempotency_conflict}
use aiops_runner.Session.Journal.Claims.{
  Envelope, ControlFiles, read_file, write_file, is_sound, load_control_result, same_intent,
  claim_control_intent, finalize_control_result, save_claimed, save_control_result, claim_of,
  claimed_envelope, final_envelope,
}

pub read_file-write_file :
    {I R : Type 0} (k j : String) (e : Envelope I R) (files : ControlFiles I R)
    → read_file j (write_file k e files) ≡ (if str_eq k j then some e else read_file j files)
unfolding read_file write_file
read_file-write_file k j e [] = ground arith
read_file-write_file k j e ((i, f) ∷ files) =
    ground (arith, read_file-write_file k j e files, eq_iff i k, eq_iff i j, eq_iff k j)

pub read_file-write_file_self :
    {I R : Type 0} (k : String) (e : Envelope I R) (files : ControlFiles I R)
    → read_file k (write_file k e files) ≡ some e
read_file-write_file_self k e files = rw (read_file-write_file, eq_refl)

third : {A B C : Type 0} → A × B × C → C
third (a, b, c) = c

module _ {I R : Type 0} (intent_hash : I → Option String) (fingerprint : I → String)
    (receipt_fingerprint : R → String) (k : String) where
  -- A file that a claim or a final result has written reads back.
  load-write :
      (e : Envelope I R) (files : ControlFiles I R)
      → is_sound intent_hash fingerprint receipt_fingerprint e ≡ true
      → load_control_result intent_hash fingerprint receipt_fingerprint k (write_file k e files)
        ≡ ok e
  unfolding load_control_result
  load-write e files h = rw (read_file-write_file_self k e files, load_control_result) (rw h)

  abbrev pub decided : I → R → Envelope I R
  decided i r =
      final_envelope intent_hash fingerprint receipt_fingerprint
        (claimed_envelope intent_hash fingerprint receipt_fingerprint i) r

  abbrev pub after_save : I → R → ControlFiles I R → ControlFiles I R
  after_save i r files =
      write_file k (decided i r)
        (write_file k (claimed_envelope intent_hash fingerprint receipt_fingerprint i) files)

  finalize-claimed :
      (i : I) (r : R) (files : ControlFiles I R)
      → finalize_control_result intent_hash fingerprint receipt_fingerprint k r
          (write_file k (claimed_envelope intent_hash fingerprint receipt_fingerprint i) files)
        ≡ ok (r, after_save i r files)
  unfolding finalize_control_result is_sound
  finalize-claimed i r files = rw (
      load-write (claimed_envelope intent_hash fingerprint receipt_fingerprint i) files
        (ground (arith, eq_refl (fingerprint i))))

  save-fresh :
      (i : I) (r : R) (files : ControlFiles I R)
      → read_file k files ≡ none
      → save_control_result intent_hash fingerprint receipt_fingerprint k i r files
        ≡ ok (true, r, after_save i r files)
  unfolding save_control_result claim_control_intent save_claimed
  save-fresh i r files e = rw (e, claim_control_intent) (rw finalize-claimed)

  -- Where a decision is stored, saving again answers with it or refuses another intent.
  save-decided :
      (i : I) (r : R) (j : I) (old : R) (files : ControlFiles I R)
      → read_file k files ≡ some (decided j old)
      → save_control_result intent_hash fingerprint receipt_fingerprint k i r files ≡ (
          if same_intent intent_hash fingerprint receipt_fingerprint (decided j old) i
          then ok (false, old, files)
          else err repair_idempotency_conflict)
  unfolding save_control_result claim_control_intent save_claimed load_control_result is_sound
  save-decided i r j old files e =
      ground (arith, eq_refl (fingerprint j), eq_refl (receipt_fingerprint old))

  save_claimed-existing :
      (e : Envelope I R) (r saved : R) (files files' : ControlFiles I R)
      → save_claimed intent_hash fingerprint receipt_fingerprint k r
          (claim_of intent_hash fingerprint receipt_fingerprint e.receipt, e, files)
        ≢ ok (true, saved, files')
  unfolding save_claimed
  save_claimed-existing e r saved files files' h = elim (Option-cases e.receipt) [
    | inl n ↦ ground arith
    | inr (old, s) ↦ ground arith
  ]

  save-stored :
      (i : I) (r saved : R) (e : Envelope I R) (files files' : ControlFiles I R)
      → read_file k files ≡ some e
      → save_control_result intent_hash fingerprint receipt_fingerprint k i r files
        ≢ ok (true, saved, files')
  unfolding save_control_result claim_control_intent load_control_result
  save-stored i r saved e files files' s =
      ground (arith, save_claimed-existing e r saved files files')

  -- Only the first decision on a command is created.
  save-created :
      (i : I) (r saved : R) (files files' : ControlFiles I R)
      → save_control_result intent_hash fingerprint receipt_fingerprint k i r files
        ≡ ok (true, saved, files')
      → read_file k files ≡ none
  save-created i r saved files files' h = elim (Option-cases (read_file k files)) [
    | inl n ↦ n
    | inr (e, s) ↦ absurd (save-stored i r saved e files files' s h)
  ]

  -- What saving makes when it creates a decision.
  save-created_eq :
      (i : I) (r saved : R) (files files' : ControlFiles I R)
      → save_control_result intent_hash fingerprint receipt_fingerprint k i r files
        ≡ ok (true, saved, files')
      → files' ≡ after_save i r files
  unfolding third write_file
  save-created_eq i r saved files files' h =
      ap third (ok-injective (sym h ∙ save-fresh i r files (save-created i r saved files files' h)))

-- When saving the result of a command creates a decision from the intent `i` and the receipt `r`, then
-- every later save of the same command, with any intent and any receipt, changes no file: it answers
-- `r`, as not created, when the intent agrees with `i`, and refuses any other intent as a conflict.
pub save_control_result-replayed :
    {I R : Type 0} (intent_hash : I → Option String) (fingerprint : I → String)
    (receipt_fingerprint : R → String) (k : String) (i j : I) (r later saved : R)
    (files files' : ControlFiles I R)
    → save_control_result intent_hash fingerprint receipt_fingerprint k i r files
      ≡ ok (true, saved, files')
    → save_control_result intent_hash fingerprint receipt_fingerprint k j later files' ≡ (
        if same_intent intent_hash fingerprint receipt_fingerprint
          (decided intent_hash fingerprint receipt_fingerprint k i r)
          j
        then ok (false, r, files')
        else err repair_idempotency_conflict)
save_control_result-replayed h f rf k i j r later saved files files' e =
    save-decided h f rf k j later i r files' (
      rw (save-created_eq h f rf k i r saved files files' e) (
        read_file-write_file_self k (decided h f rf k i r)
          (write_file k (claimed_envelope h f rf i) files)))
