-- ===== src/Session/Journal/Events/Recovery.antt =====
-- Appends that are interrupted between the line and the metadata lose no event and no number.
use aiops_runner.Prelude.{
  ◌≡◌, subst, refl, ℕ, suc, ◌+◌, ◌≤◌, String, some, List, [], ◌∷◌, ◌++◌, length, arith, ok, ◌>>=◌,
  bind-eq-ok, ok-injective, ap, sym, ◌∙◌, map, require, ◌==◌,
}
use aiops_runner.Session.Codes.{event_journal_gap}
use aiops_runner.Session.Journal.Events.{
  JournalEvent, Line, torn, loose, entry, EventJournal, last_from, last_event_sequence, read_from,
  read_events, next_number, numbered_event, prepare_event, write_line, write_next, append_event,
  interrupted_append,
}

module _ {P : Type 0} where
  last_from-append :
      (a n : ℕ) (ls : List (Line P)) (e : JournalEvent P)
      → last_from a ls ≡ ok n
      → e.event_sequence ≡ suc n
      → last_from a (ls ++ entry e ∷ []) ≡ ok (suc n)
  unfolding last_from
  last_from-append a n [] e h s = ground arith
  last_from-append a n (torn ∷ ls) e h s = ground arith
  last_from-append a n (loose ∷ ls) e h s = ground arith
  last_from-append a n (entry f ∷ ls) e h s =
      ground (arith, last_from-append f.event_sequence n ls e)

  last_from-entry :
      (a n : ℕ) (f : JournalEvent P) (ls : List (Line P))
      → last_from a (entry f ∷ ls) ≡ ok n
      → (f.event_sequence ≡ suc a) × (last_from (suc a) ls ≡ ok n)
  unfolding last_from
  last_from-entry a n f ls h = ground arith

  read_from-entry :
      (a : ℕ) (f : JournalEvent P) (ls : List (Line P)) (es : List (JournalEvent P))
      → f.event_sequence ≡ a
      → read_from (suc a) ls ≡ ok es
      → read_from a (entry f ∷ ls) ≡ ok (f ∷ es)
  unfolding read_from
  read_from-entry a f ls es s r = ground arith

  -- Where the loop over the numbers succeeds, so does the loop that collects the events.
  read_from-last :
      (a n : ℕ) (ls : List (Line P))
      → last_from a ls ≡ ok n
      → (es : List (JournalEvent P)) × (read_from (suc a) ls ≡ ok es)
        × (map entry es ≡ ls)
        × (n ≡ a + length es)
  unfolding last_from read_from
  read_from-last a n [] h = ([], refl, refl, ground arith)
  read_from-last a n (torn ∷ ls) h = absurd (ground arith)
  read_from-last a n (loose ∷ ls) h = absurd (ground arith)
  read_from-last a n (entry f ∷ ls) h =
      let (s, h') = last_from-entry a n f ls h in
      let (es, r, m, c) = read_from-last (suc a) n ls h' in
      (f ∷ es, read_from-entry (suc a) f ls es s r, ap (entry f ∷◌) m, omega (arith, c))

  read_from-split :
      (a : ℕ) (f : JournalEvent P) (ls : List (Line P)) (es : List (JournalEvent P))
      → read_from a (entry f ∷ ls) ≡ ok es
      → (rest : List (JournalEvent P)) × (f.event_sequence ≡ a)
        × (read_from (suc a) ls ≡ ok rest)
        × (es ≡ f ∷ rest)
  unfolding read_from
  read_from-split a f ls es h =
      let (u, e, k) =
        bind-eq-ok (require (f.event_sequence == a) event_journal_gap)
          (λ _. read_from (suc a) ls >>= λ rest. ok (f ∷ rest)) h in
      let (rest, r, m) = bind-eq-ok (read_from (suc a) ls) (λ rest. ok (f ∷ rest)) k in
      (rest, ground arith, r, sym (ok-injective m))

  read_from-append :
      (a : ℕ) (ls : List (Line P)) (es : List (JournalEvent P)) (e : JournalEvent P)
      → read_from a ls ≡ ok es
      → e.event_sequence ≡ a + length es
      → read_from a (ls ++ entry e ∷ []) ≡ ok (es ++ e ∷ [])
  unfolding read_from
  read_from-append a [] es e h s = ground arith
  read_from-append a (torn ∷ ls) es e h s = absurd (ground arith)
  read_from-append a (loose ∷ ls) es e h s = absurd (ground arith)
  read_from-append a (entry f ∷ ls) es e h s =
      let (rest, q, r, m) = read_from-split a f ls es h in
      rw (m) (
        read_from-entry a f (ls ++ entry e ∷ []) (rest ++ e ∷ []) q
          (read_from-append (suc a) ls rest e r (omega (arith, s, ap length m))))

-- The journals that a sequence of appends makes, some of them interrupted, from `create`.
pub data Reached {P : Type 0} (digest : P → String → ℕ → String → String)
    : EventJournal P → Type 0 where
  created : Reached digest (record { next_event_sequence = some 1; lines = [] })
  appended :
      {journal journal' : EventJournal P} (event : P) (id time : String) (e : JournalEvent P)
      → Reached digest journal
      → append_event digest event id time journal ≡ ok (e, journal')
      → Reached digest journal'
  interrupted :
      {journal journal' : EventJournal P} (event : P) (id time : String)
      → Reached digest journal
      → interrupted_append digest event id time journal ≡ ok journal'
      → Reached digest journal'

-- The metadata are at most as far as the events are.
abbrev pub IsRecoverable : {P : Type 0} → EventJournal P → Type 0
IsRecoverable journal =
    (next last : ℕ) × (journal.next_event_sequence ≡ some next)
    × (last_event_sequence journal ≡ ok last)
    × (next ≤ suc last)

module _ {P : Type 0} (digest : P → String → ℕ → String → String) where
  next_number_lem : (next last : ℕ) → next ≤ suc last → next_number next last ≡ ok (suc last)
  unfolding next_number
  next_number_lem next last h = ground arith

  prepare-recovered :
      (event : P) (id time : String) (next last : ℕ) (journal : EventJournal P)
      → journal.next_event_sequence ≡ some next
      → last_event_sequence journal ≡ ok last
      → next ≤ suc last
      → prepare_event digest event id time journal
        ≡ ok (numbered_event digest event id time (suc last))
  unfolding prepare_event
  prepare-recovered event id time next last journal n l h =
      rw l (rw (n, next_number_lem next last h))

  -- What an interrupted append leaves, and what a whole one does.
  write_line-IsRecoverable :
      (event : P) (id time : String) (next last : ℕ) (journal : EventJournal P)
      → journal.next_event_sequence ≡ some next
      → last_event_sequence journal ≡ ok last
      → next ≤ suc last
      → IsRecoverable (write_line (numbered_event digest event id time (suc last)) journal)
  unfolding write_line last_event_sequence numbered_event
  write_line-IsRecoverable event id time next last journal n l h = (
    next,
    suc last,
    n,
    last_from-append 0 last journal.lines (numbered_event digest event id time (suc last)) l refl,
    omega arith,
  )

  write_next-IsRecoverable :
      (event : P) (id time : String) (last : ℕ) (journal : EventJournal P)
      → last_event_sequence journal ≡ ok last
      → IsRecoverable (
          write_next
            (numbered_event digest event id time (suc last))
            (write_line (numbered_event digest event id time (suc last)) journal))
  unfolding write_line write_next last_event_sequence numbered_event
  write_next-IsRecoverable event id time last journal l = (
    suc last + 1,
    suc last,
    refl,
    last_from-append 0 last journal.lines (numbered_event digest event id time (suc last)) l refl,
    omega arith,
  )

  append-prepared :
      (event : P) (id time : String) (journal : EventJournal P) (e : JournalEvent P)
      → prepare_event digest event id time journal ≡ ok e
      → append_event digest event id time journal ≡ ok (e, write_next e (write_line e journal))
  unfolding append_event
  append-prepared event id time journal e p = rw p

  second : {A B : Type 0} → A × B → B
  second (a, b) = b

  Reached-IsRecoverable :
      (journal : EventJournal P) → Reached digest journal → IsRecoverable journal
  unfolding last_event_sequence last_from append_event interrupted_append second
  Reached-IsRecoverable journal created = (1, 0, refl, refl, omega arith)
  Reached-IsRecoverable journal' (appended {journal} event id time e reached h) =
      let (next, last, n, l, b) = Reached-IsRecoverable journal reached in
      let (made, p, q) =
        bind-eq-ok (prepare_event digest event id time journal)
          (λ e. ok (e, write_next e (write_line e journal))) h in
      let m = ok-injective (sym (prepare-recovered event id time next last journal n l b) ∙ p) in
      subst IsRecoverable
        (ap (λ e. write_next e (write_line e journal)) m ∙ ap second (ok-injective q))
        (write_next-IsRecoverable event id time last journal l)
  Reached-IsRecoverable journal' (interrupted {journal} event id time reached h) =
      let (next, last, n, l, b) = Reached-IsRecoverable journal reached in
      let (made, p, q) =
        bind-eq-ok (prepare_event digest event id time journal) (λ e. ok (write_line e journal))
          h in
      let m = ok-injective (sym (prepare-recovered event id time next last journal n l b) ∙ p) in
      subst IsRecoverable (ap (λ e. write_line e journal) m ∙ ok-injective q)
        (write_line-IsRecoverable event id time next last journal n l b)

abbrev pub next_event :
    {P : Type 0} (digest : P → String → ℕ → String → String)
    → P
    → String
    → String
    → List (JournalEvent P)
    → JournalEvent P
next_event digest event id time es = numbered_event digest event id time (suc (length es))

abbrev pub after_append : {P : Type 0} → JournalEvent P → EventJournal P → EventJournal P
after_append e journal = write_next e (write_line e journal)

-- After any sequence of appends from a new journal, each whole or interrupted after its line was
-- written, reading the journal succeeds with all its lines in order, the next append succeeds with the
-- number after the last line's, and reading then gives the earlier events with the new one behind.
pub append_event-recovers :
    {P : Type 0} (digest : P → String → ℕ → String → String) (event : P) (id time : String)
    (journal : EventJournal P)
    → Reached digest journal
    → (es : List (JournalEvent P)) × (read_events journal ≡ ok es)
      × (map entry es ≡ journal.lines)
      × (append_event digest event id time journal
          ≡ ok (
            next_event digest event id time es,
            after_append (next_event digest event id time es) journal,
          ))
      × (read_events (after_append (next_event digest event id time es) journal)
          ≡ ok (es ++ next_event digest event id time es ∷ []))
unfolding last_event_sequence read_events append_event write_line write_next numbered_event
append_event-recovers digest event id time journal reached =
    let (next, last, n, l, b) = Reached-IsRecoverable digest journal reached in
    let (es, r, m, c) = read_from-last 0 last journal.lines l in
    let c' : last ≡ length es = omega (arith, c) in
    (
      es,
      r,
      m,
      append-prepared digest event id time journal (next_event digest event id time es) (
          prepare-recovered digest event id time next (length es) journal n (l ∙ ap ok c')
            (omega (arith, b, c))),
      read_from-append 1 journal.lines es (next_event digest event id time es) r (omega arith),
    )
