-- ===== src/Stream/Consume/Success.antt =====
-- What a run of Claude that the adapter returns has shown, and what it takes to store a success.
use aiops_runner.Prelude.{
  ◌≡◌, refl, ap, sym, ◌∙◌, ℕ, ◌++◌, Bool, true, false, Option, none, some, List, [], ◌∷◌, count,
  arith, Option-cases, inl, inr, String, Result, ok, err, Ensures, returns, raises, any-Ensures,
  bind-Ensures, Ensures-ok, bind-eq-ok, ok-injective,
}
use aiops_runner.Session.Codes.{SessionCode}
use aiops_runner.Session.Metadata.{executing, succeeded, Metadata}
use aiops_runner.Session.Outcome.{ClaudeRunResult, persist_result, result_verdict}
use aiops_runner.Session.Outcome
use aiops_runner.Stream.Reading.{Library}
use aiops_runner.Stream.State.{Phase, StreamEvent, session_finished, ParsedStream, initial_stream}
use aiops_runner.Stream.Parser.{finalize}
use aiops_runner.Stream.Parser.Effect.{is_start, is_finish, is_verification, is_end}
use aiops_runner.Stream.Parser.Balance.{
  IsSound, parse_line-IsSound, initial_stream-IsSound, finalize-ends,
}
use aiops_runner.Stream.Consume.{
  World, Arrival, line, deadline, Adapter, Reading, sink_made, early, read_parsed, read_stored,
  read_line, resume_from, read_output, outcome_of, run_result, finish_run, run_process,
}

-- A state that the loop goes on with is sound.
GoesSound : ℕ × ParsedStream → Type 0
GoesSound d = IsSound d.1

read_parsed-GoesSound :
    (adapter : Adapter) (n : ℕ) (w : World)
    {r : Result SessionCode (List StreamEvent × ParsedStream)}
    → Ensures (λ p. IsSound p.1) r
    → Ensures GoesSound (read_parsed adapter n w r).1
unfolding read_parsed GoesSound
read_parsed-GoesSound adapter n w (raises e) = raises e
read_parsed-GoesSound adapter n w (returns parsed i) =
    bind-Ensures (any-Ensures (sink_made adapter parsed.0 n w).1)
      (λ count _. bind-Ensures (any-Ensures (early parsed.1)) (λ u _. returns (count, parsed.1) i))

read_line-GoesSound :
    (lib : Library) (phase : Phase) (adapter : Adapter) (raw : String) (n : ℕ) (s : ParsedStream)
    (w : World)
    → IsSound s
    → Ensures GoesSound (read_line lib phase adapter raw n s w).1
unfolding read_line read_stored
read_line-GoesSound lib phase adapter raw n s w i = elim (Option-cases (adapter.store w raw)) [
  | inl stored ↦
      rw (stored) (read_parsed-GoesSound adapter n _ (parse_line-IsSound lib phase raw s i))
  | inr (code, refused) ↦ rw (refused) (raises code)
]

resume_from-GoesSound :
    (next : ℕ → ParsedStream → World → Reading)
    (goes : (n : ℕ) (s : ParsedStream) (w : World) → IsSound s → Ensures GoesSound (next n s w).1)
    (reading : Reading)
    → Ensures GoesSound reading.1
    → Ensures GoesSound (resume_from next reading).1
unfolding GoesSound
resume_from-GoesSound next goes (w, ok (n, s)) e = goes n s w (Ensures-ok e refl)
resume_from-GoesSound next goes (w, err code) e = raises code

read_output-GoesSound :
    (lib : Library) (phase : Phase) (adapter : Adapter) (arrivals : List Arrival) (n : ℕ)
    (s : ParsedStream) (w : World)
    → IsSound s
    → Ensures GoesSound (read_output lib phase adapter arrivals n s w).1
unfolding read_output GoesSound
read_output-GoesSound lib phase adapter [] n s w i = returns _ i
read_output-GoesSound lib phase adapter (deadline ∷ rest) n s w i = raises _
read_output-GoesSound lib phase adapter (line raw ∷ rest) n s w i =
    resume_from-GoesSound (read_output lib phase adapter rest)
      (read_output-GoesSound lib phase adapter rest) (read_line lib phase adapter raw n s w)
      (read_line-GoesSound lib phase adapter raw n s w i)

finish_run-returns :
    (exit : Option Bool) (s : ParsedStream) {result : ClaudeRunResult}
    → finish_run exit s ≡ ok result
    → (exited : Bool) × (exit ≡ some exited) × (finalize exited s ≡ ok tt) × (result ≡ run_result s)
unfolding finish_run
finish_run-returns none s h = cc
finish_run-returns (some exited) s h =
    let b = bind-eq-ok (finalize exited s) (λ u. ok (run_result s)) h in
    (exited, refl, b.1, sym (ok-injective b.2))

-- Only one marker that claims success makes a success.
success-marker :
    (s : ParsedStream)
    → IsSound s
    → outcome_of s.verification_outcome ≡ Outcome.success
    → count is_verification s.events ≡ 1
success-marker s i h = ground (arith, i.markers, i.claim, h)

-- A success is stored only for a claim of success.
persist_result-claims :
    (result : ClaudeRunResult) (m : Metadata)
    → m.status ≡ executing
    → (persist_result result true m).status ≡ succeeded
    → (result.verification_outcome ≡ Outcome.success) × (result.risk_pause ≡ false)
unfolding persist_result result_verdict
persist_result-claims result m e h = ground (arith, e, h)

-- Where `run` returns a result, Claude exited with 0 and the loop ended in a state in which as many
-- tools were finished as were started, and whose last event, and no other, marks the end.
pub run_process-ends :
    (lib : Library) (phase : Phase) (adapter : Adapter) (arrivals : List Arrival)
    (exit : Option Bool) (w : World) (result : ClaudeRunResult)
    → (run_process lib phase adapter arrivals exit initial_stream w).1 ≡ ok result
    → (exit ≡ some true)
      × (n : ℕ) × (s : ParsedStream) × ((read_output lib phase adapter arrivals 0 initial_stream
            w).1
          ≡ ok (n, s))
      × (count is_start s.events ≡ count is_finish s.events)
      × (before : List StreamEvent) × (s.events ≡ before ++ (session_finished ∷ []))
      × (count is_end before ≡ 0)
unfolding run_process GoesSound
run_process-ends lib phase adapter arrivals exit w result h =
    let (d, read, finished) =
      bind-eq-ok (read_output lib phase adapter arrivals 0 initial_stream w).1
        (λ done. finish_run exit done.1) h in
    let (exited, left, final, shown) = finish_run-returns exit d.1 finished in
    let (normal, balanced, before, last, only) =
      finalize-ends exited d.1
        (Ensures-ok
          (read_output-GoesSound lib phase adapter arrivals 0 initial_stream w
            initial_stream-IsSound)
          read)
        final in
    (left ∙ ap some normal, d.0, d.1, read, balanced, before, last, only)

-- Where the result of a run makes an executing session SUCCEEDED, the run read one verification
-- marker and no second, and no risk pause.
pub run_process-succeeds :
    (lib : Library) (phase : Phase) (adapter : Adapter) (arrivals : List Arrival)
    (exit : Option Bool) (w : World) (result : ClaudeRunResult) (m : Metadata)
    → (run_process lib phase adapter arrivals exit initial_stream w).1 ≡ ok result
    → m.status ≡ executing
    → (persist_result result true m).status ≡ succeeded
    → (n : ℕ) × (s : ParsedStream) × ((read_output lib phase adapter arrivals 0 initial_stream w).1
        ≡ ok (n, s))
      × (count is_verification s.events ≡ 1)
      × (s.risk_pause_seen ≡ false)
unfolding run_process GoesSound
run_process-succeeds lib phase adapter arrivals exit w result m h e stored =
    let (d, read, finished) =
      bind-eq-ok (read_output lib phase adapter arrivals 0 initial_stream w).1
        (λ done. finish_run exit done.1) h in
    let (exited, left, final, shown) = finish_run-returns exit d.1 finished in
    let (claimed, unpaused) = persist_result-claims result m e stored in
    (
      d.0,
      d.1,
      read,
      success-marker d.1
          (Ensures-ok
            (read_output-GoesSound lib phase adapter arrivals 0 initial_stream w
              initial_stream-IsSound)
            read)
          (sym (ap (λ r. r.verification_outcome) shown) ∙ claimed),
      sym (ap (λ r. r.risk_pause) shown) ∙ unpaused,
    )
