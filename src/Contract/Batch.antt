-- ===== src/Contract/Batch.antt =====
-- Execution events and their batches: `compute_event_fingerprint` and
-- `validate_event_batch_semantics` of runner/runner/trusted_repair_contract.py.
-- `members` holds what an event has beside the fields that the checks read.
use aiops_runner.Prelude.{
  ℕ, zero, suc, ◌+◌, ◌-◌, String, Bool, true, false, not, ◌&&◌, List, [], ◌∷◌, map, str_eq, one_of,
  ◌==◌, Result, ok, err, ◌>>=◌, ◌>>◌, require,
}
use aiops_runner.Contract.Lifecycle.{
  TrustedRepairErrorCode, validation_failed, event_sequence_conflict, event_content_conflict,
  binding_mismatch,
}
use aiops_runner.Contract.Json.{Value, int, str, obj, Fields, field, canonical_digest}

pub record Event : Type 0 where
  pub event_id : String
  pub session_id : String
  pub event_sequence : ℕ
  pub event_fingerprint : String
  pub members : Fields

pub record EventBatch : Type 0 where
  pub session_id : String
  pub first_sequence : ℕ
  pub last_sequence : ℕ
  pub events : List Event

-- Every member but the fingerprint itself.
unfoldable pub fingerprint_payload : Event → Value
fingerprint_payload e = obj (
    field "event_id" (str e.event_id) (
      field "session_id" (str e.session_id)
        (field "event_sequence" (int e.event_sequence) e.members)))

-- `list(range(first, first + count))`
unfoldable pub range_from : ℕ → ℕ → List ℕ
range_from first zero = []
range_from first (suc count) = first ∷ range_from (first + 1) count

unfoldable pub same_numbers : List ℕ → List ℕ → Bool
same_numbers [] [] = true
same_numbers (a ∷ xs) (b ∷ ys) = a == b && same_numbers xs ys
same_numbers _ _ = false

-- `len(set(xs)) == len(xs)`
unfoldable pub all_distinct : List String → Bool
all_distinct [] = true
all_distinct (x ∷ xs) = not (one_of x xs) && all_distinct xs

module _ (nfc : String → String) (sha256_hex : Value → String) where
  unfoldable pub compute_event_fingerprint : Event → Result TrustedRepairErrorCode String
  compute_event_fingerprint e = canonical_digest nfc sha256_hex (fingerprint_payload e)

  unfoldable pub check_events : String → List Event → Result TrustedRepairErrorCode Unit
  check_events session_id [] = ok tt
  check_events session_id (e ∷ es) =
      require (str_eq e.session_id session_id) binding_mismatch >>= λ _.
      compute_event_fingerprint e >>= λ expected.
      require (str_eq e.event_fingerprint expected) event_content_conflict >>= λ _.
      check_events session_id es

  unfoldable pub validate_event_batch_semantics : EventBatch → Result TrustedRepairErrorCode Unit
  validate_event_batch_semantics batch = elim batch.events [
    | [] ↦ err validation_failed
    | e ∷ es ↦ do
      require
          (same_numbers (map (λ x. x.event_sequence) (e ∷ es))
            (range_from batch.first_sequence (batch.last_sequence + 1 - batch.first_sequence)))
          event_sequence_conflict
      require (all_distinct (map (λ x. x.event_id) (e ∷ es))) event_content_conflict
      check_events batch.session_id (e ∷ es)
  ]
