-- ===== src/Contract/Ingest.antt =====
-- `decide_event_ingest` of runner/runner/trusted_repair_contract.py. The two indexes are
-- association lists; a Python mapping holds each key once.
pub mod Order
use aiops_runner.Prelude.{
  ℕ, suc, ◌+◌, String, Bool, true, false, not, ◌&&◌, Option, none, some, List, [], ◌∷◌, ◌++◌,
  str_eq, ◌==◌, leb, if◌then◌else◌, is_some, length, all, any, Result, ok, err, ◌>>=◌, ◌>>◌,
  require, refuse,
}
use aiops_runner.Contract.Lifecycle.{
  TrustedRepairErrorCode, event_sequence_conflict, event_content_conflict,
}
use aiops_runner.Contract.Json.{Value}
use aiops_runner.Contract.Batch.{Event, EventBatch, range_from, validate_event_batch_semantics}

pub data EventIngestDecision : Type 0 where
  new idempotent : EventIngestDecision

pub record EventIngestResult : Type 0 where
  pub decision : EventIngestDecision
  pub new_event_ids : List String

-- `existing_by_id` and `existing_by_sequence`
abbrev pub ById : Type 0
ById = List (String × (ℕ × String))

abbrev pub BySequence : Type 0
BySequence = List (ℕ × (String × String))

unfoldable pub find_id : String → ById → Option (ℕ × String)
find_id k [] = none
find_id k ((j, v) ∷ m) = if str_eq j k then some v else find_id k m

unfoldable pub find_sequence : ℕ → BySequence → Option (String × String)
find_sequence k [] = none
find_sequence k ((j, v) ∷ m) = if j == k then some v else find_sequence k m

-- `indexed == (sequence, fingerprint)`
abbrev pub is_entry : Option (ℕ × String) → ℕ → String → Bool
is_entry none n f = false
is_entry (some (m, g)) n f = m == n && str_eq g f

abbrev pub is_event : Option (String × String) → String → String → Bool
is_event none i f = false
is_event (some (j, g)) i f = str_eq j i && str_eq g f

-- `sequence in set(range(1, last + 1))`
abbrev pub in_history : ℕ → ℕ → Bool
in_history last n = leb 1 n && leb n last

unfoldable pub check_indexes : ℕ → ById → BySequence → Result TrustedRepairErrorCode Unit
check_indexes last by_id by_sequence = do
  refuse (any (λ p. not (in_history last p.0)) by_sequence) event_sequence_conflict
  require (all (λ n. is_some (find_sequence n by_sequence)) (range_from 1 last))
      event_sequence_conflict
  require (length by_id == last) event_sequence_conflict
  require
      (all (λ p. in_history last p.1.0 && is_event (find_sequence p.1.0 by_sequence) p.0 p.1.1)
        by_id)
      event_sequence_conflict
  require (all (λ p. is_entry (find_id p.1.0 by_id) p.0 p.1.1) by_sequence) event_sequence_conflict

module _ (by_id : ById) (by_sequence : BySequence) where
  -- The loop over the events, with its variables `expected_new_sequence`, `seen_new`, `new_ids`.
  unfoldable pub classify :
      ℕ → Bool → List String → List Event → Result TrustedRepairErrorCode (List String)
  classify expected seen_new new_ids [] = ok new_ids
  classify expected seen_new new_ids (e ∷ es) = elim (find_id e.event_id by_id) [
    | some entry ↦
        require (is_entry (some entry) e.event_sequence e.event_fingerprint) event_content_conflict
        >>= λ _.
            require
              (is_event (find_sequence e.event_sequence by_sequence) e.event_id e.event_fingerprint)
              event_sequence_conflict
            >>= λ _. refuse seen_new event_sequence_conflict >>= λ _.
                classify expected seen_new new_ids es
    | none ↦
        refuse (is_some (find_sequence e.event_sequence by_sequence)) event_sequence_conflict
        >>= λ _. require (e.event_sequence == expected) event_sequence_conflict >>= λ _.
            classify (expected + 1) true (new_ids ++ (e.event_id ∷ [])) es
  ]

abbrev pub decision_of : List String → EventIngestDecision
decision_of [] = idempotent
decision_of (_ ∷ _) = new

unfoldable pub decide_event_ingest :
    (String → String)
    → (Value → String)
    → EventBatch
    → ℕ
    → ById
    → BySequence
    → Result TrustedRepairErrorCode EventIngestResult
decide_event_ingest nfc sha256_hex batch last by_id by_sequence =
    validate_event_batch_semantics nfc sha256_hex batch >>= λ _.
    check_indexes last by_id by_sequence >>= λ _.
    classify by_id by_sequence (last + 1) false [] batch.events >>= λ new_ids.
    ok (record { decision = decision_of new_ids; new_event_ids = new_ids })
