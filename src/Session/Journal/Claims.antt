-- ===== src/Session/Journal/Claims.antt =====
-- `claim_control_intent`, `finalize_control_result`, `load_control_result` and
-- `save_control_result` of `SessionJournal` in runner/runner/trusted_session.py. The files under
-- `control-intents` are an association list by command identifier; the JSON objects are the
-- parameters `I` and `R`, with `_record_fingerprint` and the member `intent_hash` of an intent. The
-- session's own record, which `claim_control_intent` reads first to see that it is there, can be read.
pub mod Authority
use aiops_runner.Prelude.{
  String, Bool, true, false, ◌&&◌, Option, none, some, List, [], ◌∷◌, str_eq, holds_text,
  if◌then◌else◌, is_some, Result, ok, err, ◌>>=◌, require,
}
use aiops_runner.Session.Codes.{
  SessionCode, control_result_missing, control_result_corrupt, control_result_uncertain,
  repair_idempotency_conflict,
}

pub record Envelope (I R : Type 0) : Type 0 where
  pub intent : I
  pub intent_fingerprint : String
  pub receipt : Option R
  pub receipt_fingerprint : Option String

abbrev pub ControlFiles : Type 0 → Type 0 → Type 0
ControlFiles I R = List (String × Envelope I R)

-- `"FINAL"`, `"PROCESSING"` and `"NEW"`
pub data Claim : Type 0 where
  final processing new_claim : Claim

module _ {I R : Type 0} where
  unfoldable pub read_file : String → ControlFiles I R → Option (Envelope I R)
  read_file k [] = none
  read_file k ((j, e) ∷ fs) = if str_eq j k then some e else read_file k fs

  -- `_atomic_json(path, envelope)`: the file is replaced as a whole.
  unfoldable pub write_file : String → Envelope I R → ControlFiles I R → ControlFiles I R
  write_file k e [] = (k, e) ∷ []
  write_file k e ((j, f) ∷ fs) = if str_eq j k then (k, e) ∷ fs else (j, f) ∷ write_file k e fs

module _ {I R : Type 0} (intent_hash : I → Option String) (fingerprint : I → String)
    (receipt_fingerprint : R → String) where
  unfoldable pub is_sound_receipt : Option R → Option String → Bool
  is_sound_receipt none stored = true
  is_sound_receipt (some r) stored = holds_text stored (receipt_fingerprint r)

  -- The integrity check of a stored envelope.
  unfoldable pub is_sound : Envelope I R → Bool
  unfolding is_sound_receipt
  is_sound e =
      str_eq e.intent_fingerprint (fingerprint e.intent)
      && is_sound_receipt e.receipt e.receipt_fingerprint

  unfoldable pub load_control_result : String → ControlFiles I R → Result SessionCode (Envelope I R)
  load_control_result command_id files = elim (read_file command_id files) [
    | none ↦ err control_result_missing
    | some e ↦ if is_sound e then ok e else err control_result_corrupt
  ]

  -- `existing_hash == incoming_hash if both are there else` the fingerprints.
  unfoldable pub same_intent : Envelope I R → I → Bool
  same_intent e i = elim (intent_hash e.intent) [
    | none ↦ str_eq e.intent_fingerprint (fingerprint i)
    | some old ↦ elim (intent_hash i) [
      | none ↦ str_eq e.intent_fingerprint (fingerprint i)
      | some incoming ↦ str_eq old incoming
    ]
  ]

  abbrev pub claim_of : Option R → Claim
  claim_of none = processing
  claim_of (some _) = final

  -- What a claim writes, and what a final result makes of it.
  abbrev pub claimed_envelope : I → Envelope I R
  claimed_envelope i = record {
    intent = i;
    intent_fingerprint = fingerprint i;
    receipt = none;
    receipt_fingerprint = none;
  }

  abbrev pub final_envelope : Envelope I R → R → Envelope I R
  final_envelope e r = record e {
    receipt = some r;
    receipt_fingerprint = some (receipt_fingerprint r);
  }

  unfoldable pub claim_control_intent :
      String → I → ControlFiles I R → Result SessionCode (Claim × Envelope I R × ControlFiles I R)
  claim_control_intent command_id i files = elim (read_file command_id files) [
    | none ↦ ok (new_claim, claimed_envelope i, write_file command_id (claimed_envelope i) files)
    | some _ ↦ load_control_result command_id files >>= λ e.
        require (same_intent e i) repair_idempotency_conflict >>= λ _.
        ok (claim_of e.receipt, e, files)
  ]

  unfoldable pub finalize_control_result :
      String → R → ControlFiles I R → Result SessionCode (R × ControlFiles I R)
  finalize_control_result command_id r files = load_control_result command_id files >>= λ e.
      elim e.receipt [
        | some old ↦
            require (holds_text e.receipt_fingerprint (receipt_fingerprint r))
              repair_idempotency_conflict
            >>= λ _. ok (old, files)
        | none ↦ ok (r, write_file command_id (final_envelope e r) files)
      ]

  -- What `save_control_result` does with the claim that it got.
  unfoldable pub save_claimed :
      String
      → R
      → Claim × Envelope I R × ControlFiles I R
      → Result SessionCode (Bool × R × ControlFiles I R)
  save_claimed command_id r (final, e, files) = elim e.receipt [
    | some old ↦ ok (false, old, files)
    | none ↦ err control_result_uncertain
  ]
  save_claimed command_id r (processing, e, files) = err control_result_uncertain
  save_claimed command_id r (new_claim, e, files) =
      finalize_control_result command_id r files >>= λ (saved, files'). ok (true, saved, files')

  unfoldable pub save_control_result :
      String → I → R → ControlFiles I R → Result SessionCode (Bool × R × ControlFiles I R)
  save_control_result command_id i r files =
      claim_control_intent command_id i files >>= save_claimed command_id r
