-- ===== src/Examples/Journal.antt =====
-- Witnesses for the journal and the recovery of runner/runner/trusted_session.py.
use aiops_runner.Prelude.{
  ◌≡◌, refl, ℕ, String, Bool, true, false, Option, none, some, List, [], ◌∷◌, ◌++◌, map, ok, err,
}
use aiops_runner.Session.Codes.{repair_idempotency_conflict}
use aiops_runner.Session.Metadata.{executing}
use aiops_runner.Session.Journal.Claims.{
  ControlFiles, read_file, write_file, claim_control_intent, finalize_control_result, save_claimed,
  save_control_result, load_control_result, is_sound, same_intent,
}
use aiops_runner.Session.Journal.Claims.Authority.{save_control_result-replayed}
use aiops_runner.Session.Journal.Events.{
  JournalEvent, EventJournal, entry, append_event, read_events, prepare_event, last_event_sequence,
  last_from, next_number, numbered_event, write_line, interrupted_append,
}
use aiops_runner.Session.Journal.Events.Recovery.{
  Reached, created, interrupted, next_event, after_append, append_event-recovers,
}
use aiops_runner.Session.Journal.Records.{Records, envelope}
use aiops_runner.Session.Outcome.{Orphan, Stored, recover_active_as_uncertain}
use aiops_runner.Session.Outcome.Restart.{IsSettled, recover_active-settles}
use aiops_runner.Examples.Session.{session}

abbrev own_hash : String → Option String
own_hash i = some i

abbrev same_text : String → String
same_text t = t

abbrev saved_files : ControlFiles String String
saved_files =
    (
      "k",
      record {
        intent = "i";
        intent_fingerprint = "i";
        receipt = some "r";
        receipt_fingerprint = some "r";
      },
    )
    ∷ []

save_control_result-replayed_example :
    save_control_result own_hash same_text same_text "k" "j" "q" saved_files
    ≡ err repair_idempotency_conflict
unfolding save_control_result claim_control_intent write_file save_claimed finalize_control_result
    load_control_result read_file is_sound same_intent
save_control_result-replayed_example =
    save_control_result-replayed own_hash same_text same_text "k" "i" "j" "r" "q" "r" [] saved_files
      refl

abbrev any_digest : Bool → String → ℕ → String → String
any_digest body id sequence time = id

abbrev new_journal : EventJournal Bool
new_journal = record { next_event_sequence = some 1; lines = [] }

abbrev first_line : JournalEvent Bool
first_line = record {
  body = true;
  event_id = "a";
  event_sequence = 1;
  occurred_at = "t";
  event_fingerprint = "a";
}

abbrev cut_journal : EventJournal Bool
cut_journal = record { next_event_sequence = some 1; lines = entry first_line ∷ [] }

cut_journal-Reached : Reached any_digest cut_journal
unfolding interrupted_append prepare_event last_event_sequence last_from next_number numbered_event
    write_line
cut_journal-Reached = interrupted {journal = new_journal} true "a" "t" created refl

append_event-recovers_example :
    (es : List (JournalEvent Bool)) × (read_events cut_journal ≡ ok es)
    × (map entry es ≡ cut_journal.lines)
    × (append_event any_digest false "b" "u" cut_journal
        ≡ ok (
          next_event any_digest false "b" "u" es,
          after_append (next_event any_digest false "b" "u" es) cut_journal,
        ))
    × (read_events (after_append (next_event any_digest false "b" "u" es) cut_journal)
        ≡ ok (es ++ next_event any_digest false "b" "u" es ∷ []))
append_event-recovers_example =
    append_event-recovers any_digest false "b" "u" cut_journal cut_journal-Reached

abbrev gone : String → Orphan
gone _ = record { identity_matches = true; matches_afterwards = false }

abbrev stored_sessions : List Stored
stored_sessions = record { metadata = session executing; journal = cut_journal } ∷ []

recover_active-settles_example :
    IsSettled any_digest stored_sessions
      (recover_active_as_uncertain any_digest gone "b" "u" stored_sessions)
recover_active-settles_example =
    recover_active-settles any_digest gone "b" "u" stored_sessions (cut_journal-Reached, tt)

abbrev empty_records : Records String String
empty_records = record {
  has_metadata = true;
  proposal = none;
  outbox = none;
  proposal_fingerprint = none;
  risks = [];
}

abbrev with_plan : Records String String
with_plan = record {
  has_metadata = true;
  proposal = some "p";
  outbox = some "p";
  proposal_fingerprint = some "p";
  risks = [];
}

abbrev no_secret : String → Bool
no_secret _ = false

abbrev with_warning : Records String String
with_warning = record {
  has_metadata = true;
  proposal = none;
  outbox = none;
  proposal_fingerprint = none;
  risks = ("k", envelope "r" "r") ∷ [];
}
