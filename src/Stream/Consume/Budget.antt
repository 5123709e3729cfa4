-- ===== src/Stream/Consume/Budget.antt =====
-- The budget of commands that the adapter enforces on what it delivers.
use aiops_runner.Prelude.{
  ◌≡◌, refl, ℕ, suc, ◌≤◌, Bool, ◌&&◌, Option, none, some, List, [], ◌∷◌, count, count-append, arith,
  Bool-cases, Option-cases, inl, inr, ltb, String, if◌then◌else◌, Result, ok, err, Ensures, returns,
  raises, bind-Ensures, any-Ensures, Ensures-ok,
}
use aiops_runner.Session.Codes.{SessionCode}
use aiops_runner.Stream.Reading.{Library}
use aiops_runner.Stream.State.{Phase, StreamEvent, ParsedStream, initial_stream}
use aiops_runner.Stream.Parser.{parse_line}
use aiops_runner.Stream.Consume.{
  World, Arrival, line, deadline, Adapter, is_command, Reading, sink_events, sink_made, early,
  read_parsed, read_stored, read_line, resume_from, read_output, run_process, after_sink, write,
  deliver, counted,
}

abbrev commands : World → ℕ
commands w = count is_command w.delivered

-- No more commands than the budget, and no more than are counted where the loop goes on.
record IsWithin (budget : ℕ) {A : Type 0} (counter : A → ℕ) (r : World × Result SessionCode A)
    : Type 0 where
  few : commands r.0 ≤ budget
  counts : Ensures (λ a. (commands r.0 ≤ counter a) × (counter a ≤ budget)) r.1

fail-IsWithin :
    {A : Type 0} (budget : ℕ) (counter : A → ℕ) (w : World) (code : SessionCode)
    → commands w ≤ budget
    → IsWithin budget counter (w, err code)
fail-IsWithin budget counter w code h = record { few = h; counts = raises code }

go_on-IsWithin :
    {A : Type 0} (budget : ℕ) (counter : A → ℕ) (w : World) (a : A)
    → commands w ≤ counter a
    → counter a ≤ budget
    → IsWithin budget counter (w, ok a)
go_on-IsWithin budget counter w a h k = record {
  few = omega (arith, h, k);
  counts = returns a (h, k);
}

abbrev itself : ℕ → ℕ
itself n = n

commands-deliver :
    (e : StreamEvent) (w : World)
    → commands (deliver e w) ≡ (if is_command e then suc (commands w) else commands w)
commands-deliver e w = ground (arith, count-append is_command w.delivered (e ∷ []))

after_sink-IsWithin :
    (budget : ℕ) (answer : Option SessionCode) (w : World) (rest : World × Result SessionCode ℕ)
    → commands w ≤ budget
    → IsWithin budget itself rest
    → IsWithin budget itself (after_sink answer w rest)
unfolding after_sink
after_sink-IsWithin budget none w rest h i = i
after_sink-IsWithin budget (some code) w rest h i = fail-IsWithin budget itself w code h

sink_events-IsWithin :
    (budget : ℕ) (sink : World → StreamEvent → Option SessionCode) (es : List StreamEvent) (n : ℕ)
    (w : World)
    → commands w ≤ n
    → n ≤ budget
    → IsWithin budget itself (sink_events (some budget) sink es n w)
unfolding sink_events
sink_events-IsWithin budget sink [] n w h k = go_on-IsWithin budget itself w n h k
sink_events-IsWithin budget sink (e ∷ es) n w h k =
    elim (Bool-cases (is_command e && ltb budget (suc n))) [
      | inl over ↦ rw (over) (fail-IsWithin budget itself w _ (omega (arith, h, k)))
      | inr under ↦
          let small : counted e n ≤ budget = ground (arith, under, k) in
          let kept : commands (deliver e w) ≤ counted e n =
            ground (arith, commands-deliver e w, h) in
          rw (under) (
            after_sink-IsWithin budget (sink w e) (deliver e w) _ (omega (arith, small, kept))
              (sink_events-IsWithin budget sink es (counted e n) (deliver e w) kept small))
    ]

module _ (lib : Library) (phase : Phase) (adapter : Adapter) (budget : ℕ)
    (limited : adapter.command_budget ≡ some budget) where
  sink_made-IsWithin :
      (made : List StreamEvent) (n : ℕ) (w : World)
      → commands w ≤ n
      → n ≤ budget
      → IsWithin budget itself (sink_made adapter made n w)
  unfolding sink_made
  sink_made-IsWithin made n w h k = elim (Option-cases adapter.event_sink) [
    | inl quiet ↦ rw (quiet) (go_on-IsWithin budget itself w n h k)
    | inr (sink, given) ↦ rw (given, limited) (sink_events-IsWithin budget sink made n w h k)
  ]

  abbrev counter : ℕ × ParsedStream → ℕ
  counter d = d.0

  read_parsed-IsWithin :
      (n : ℕ) (w : World) (r : Result SessionCode (List StreamEvent × ParsedStream))
      → commands w ≤ n
      → n ≤ budget
      → IsWithin budget counter (read_parsed adapter n w r)
  unfolding read_parsed
  read_parsed-IsWithin n w (err code) h k =
      fail-IsWithin budget counter w code (omega (arith, h, k))
  read_parsed-IsWithin n w (ok parsed) h k =
      let i = sink_made-IsWithin parsed.0 n w h k in
      record {
        few = i.few;
        counts = bind-Ensures i.counts (λ total j.
            bind-Ensures (any-Ensures (early parsed.1)) (λ u _. returns (total, parsed.1) j));
      }

  read_line-IsWithin :
      (raw : String) (n : ℕ) (s : ParsedStream) (w : World)
      → commands w ≤ n
      → n ≤ budget
      → IsWithin budget counter (read_line lib phase adapter raw n s w)
  unfolding read_line read_stored
  read_line-IsWithin raw n s w h k = elim (Option-cases (adapter.store w raw)) [
    | inl stored ↦
        rw (stored) (read_parsed-IsWithin n (write raw w) (parse_line lib phase raw s) h k)
    | inr (code, refused) ↦ rw (refused) (fail-IsWithin budget counter w code (omega (arith, h, k)))
  ]

  resume_from-IsWithin :
      (next : ℕ → ParsedStream → World → Reading)
      (goes : (n : ℕ) (s : ParsedStream) (w : World)
        → commands w ≤ n
        → n ≤ budget
        → IsWithin budget counter (next n s w))
      (reading : Reading)
      → IsWithin budget counter reading
      → IsWithin budget counter (resume_from next reading)
  resume_from-IsWithin next goes (w, ok (n, s)) i =
      let (h, k) = Ensures-ok i.counts refl in goes n s w h k
  resume_from-IsWithin next goes (w, err code) i = fail-IsWithin budget counter w code i.few

  read_output-IsWithin :
      (arrivals : List Arrival) (n : ℕ) (s : ParsedStream) (w : World)
      → commands w ≤ n
      → n ≤ budget
      → IsWithin budget counter (read_output lib phase adapter arrivals n s w)
  unfolding read_output
  read_output-IsWithin [] n s w h k = go_on-IsWithin budget counter w (n, s) h k
  read_output-IsWithin (deadline ∷ rest) n s w h k =
      fail-IsWithin budget counter w _ (omega (arith, h, k))
  read_output-IsWithin (line raw ∷ rest) n s w h k =
      resume_from-IsWithin (read_output lib phase adapter rest) (read_output-IsWithin rest)
        (read_line lib phase adapter raw n s w) (read_line-IsWithin raw n s w h k)

-- However a run ends, and whatever Claude writes, the sink that had been given nothing is given at
-- most as many commands as the budget.
pub run_process-budget :
    (lib : Library) (phase : Phase) (adapter : Adapter) (budget : ℕ) (arrivals : List Arrival)
    (exit : Option Bool) (w : World)
    → adapter.command_budget ≡ some budget
    → w.delivered ≡ []
    → count is_command (run_process lib phase adapter arrivals exit initial_stream w).0.delivered
      ≤ budget
unfolding run_process
run_process-budget lib phase adapter budget arrivals exit w limited fresh =
    (read_output-IsWithin lib phase adapter budget limited arrivals 0 initial_stream w
      (ground (arith, fresh)) (omega arith)).few
