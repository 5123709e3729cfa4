-- ===== src/Session/Journal/Events.antt =====
-- `append_event`, `_last_event_sequence` and `read_events` of `SessionJournal` in
-- runner/runner/trusted_session.py. The events' file is the list of its lines, each torn (no JSON),
-- loose (JSON with no integer `event_sequence`) or an event; the members that the caller gives are
-- the parameter `P`, the new identifier, the clock and the digest are parameters too.
pub mod Recovery
use aiops_runner.Prelude.{
  ℕ, suc, ◌+◌, String, Option, none, some, List, [], ◌∷◌, ◌++◌, if◌then◌else◌, leb, ◌==◌, Result,
  ok, err, ◌>>=◌, require, refuse, found,
}
use aiops_runner.Session.Codes.{
  SessionCode, session_journal_missing, event_journal_gap, event_journal_corrupt,
}

pub record JournalEvent (P : Type 0) : Type 0 where
  pub body : P
  pub event_id : String
  pub event_sequence : ℕ
  pub occurred_at : String
  pub event_fingerprint : String

pub data Line (P : Type 0) : Type 0 where
  torn loose : Line P
  entry : JournalEvent P → Line P

-- `next_event_sequence` is missing where the metadata cannot be loaded.
pub record EventJournal (P : Type 0) : Type 0 where
  pub next_event_sequence : Option ℕ
  pub lines : List (Line P)

-- The number of the next event, with the recovery from an interrupted append.
unfoldable pub next_number : ℕ → ℕ → Result SessionCode ℕ
next_number sequence last =
    if leb sequence last
    then ok (last + 1)
    else require (sequence == last + 1) event_journal_gap >>= λ _. ok sequence

module _ {P : Type 0} where
  -- The loop of `_last_event_sequence`.
  unfoldable pub last_from : ℕ → List (Line P) → Result SessionCode ℕ
  last_from last [] = ok last
  last_from last (torn ∷ ls) = err event_journal_corrupt
  last_from last (loose ∷ ls) = err event_journal_gap
  last_from last (entry e ∷ ls) = require (e.event_sequence == suc last) event_journal_gap >>= λ _.
      last_from e.event_sequence ls

  unfoldable pub last_event_sequence : EventJournal P → Result SessionCode ℕ
  last_event_sequence journal = last_from 0 journal.lines

  -- The loop of `read_events`.
  unfoldable pub read_from : ℕ → List (Line P) → Result SessionCode (List (JournalEvent P))
  read_from expected [] = ok []
  read_from expected (torn ∷ ls) = err event_journal_corrupt
  read_from expected (loose ∷ ls) = err event_journal_gap
  read_from expected (entry e ∷ ls) =
      require (e.event_sequence == expected) event_journal_gap >>= λ _.
      read_from (suc expected) ls >>= λ es. ok (e ∷ es)

  unfoldable pub read_events : EventJournal P → Result SessionCode (List (JournalEvent P))
  read_events journal = read_from 1 journal.lines

  -- The line is appended and synced before the metadata is replaced.
  unfoldable pub write_line : JournalEvent P → EventJournal P → EventJournal P
  write_line e journal = record journal { lines = journal.lines ++ entry e ∷ [] }

  unfoldable pub write_next : JournalEvent P → EventJournal P → EventJournal P
  write_next e journal = record journal { next_event_sequence = some (e.event_sequence + 1) }

module _ {P : Type 0} (digest : P → String → ℕ → String → String) where
  unfoldable pub numbered_event : P → String → String → ℕ → JournalEvent P
  numbered_event event id time sequence = record {
    body = event;
    event_id = id;
    event_sequence = sequence;
    occurred_at = time;
    event_fingerprint = digest event id sequence time;
  }

  unfoldable pub prepare_event :
      P → String → String → EventJournal P → Result SessionCode (JournalEvent P)
  prepare_event event id time journal =
      found journal.next_event_sequence session_journal_missing >>= λ sequence.
      last_event_sequence journal >>= λ last.
      next_number sequence last >>= λ number. ok (numbered_event event id time number)

  unfoldable pub append_event :
      P → String → String → EventJournal P → Result SessionCode (JournalEvent P × EventJournal P)
  append_event event id time journal =
      prepare_event event id time journal >>= λ e. ok (e, write_next e (write_line e journal))

  -- The process stops after the line is synced and before the metadata is replaced.
  unfoldable pub interrupted_append :
      P → String → String → EventJournal P → Result SessionCode (EventJournal P)
  interrupted_append event id time journal =
      prepare_event event id time journal >>= λ e. ok (write_line e journal)
