-- ===== src/Stream/Parser/Balance.antt =====
-- The invariant of `StreamJsonParser` on a line: its counts are those of its events, and the end
-- marker is the last event.
use aiops_runner.Prelude.{
  ◌≡◌, refl, sym, ◌+◌, Bool, true, false, Option, none, some, List, [], ◌∷◌, ◌++◌, append_assoc,
  length, count, count-append, arith, Result, ok, Ensures, returns, raises, ensures_rules, String,
  bind-Ensures, if-Ensures, weaken-Ensures,
}
use aiops_runner.Session.Codes.{SessionCode}
use aiops_runner.Contract.Json.{Value, obj, Fields}
use aiops_runner.Stream.Reading.{Library, get, strict_json_loads}
use aiops_runner.Stream.State.{
  Phase, StreamEvent, claude_failed, session_finished, initial_stream, ParsedStream,
}
use aiops_runner.Stream.Parser.{
  result_line, fail, succeed, keep_events, parse_object, parse_value, parse_line, finalize,
}
use aiops_runner.Stream.Parser.Effect.{
  is_start, is_finish, is_verification, is_end, is_claim_sound, Effect, nothing, Does,
}
use aiops_runner.Stream.Parser.Lines.{IsOutput, line-Does, terminal_structured_output-IsOutput}

pub record IsSound (s : ParsedStream) : Type 0 where
  pub tools : count is_start s.events ≡ count is_finish s.events + length s.open_tools
  pub markers : count is_verification s.events ≡ s.verification_marker_count
  pub claim : is_claim_sound s.verification_outcome s.verification_marker_count ≡ true
  pub going : s.terminal_seen ≡ false → count is_end s.events ≡ 0
  pub ended :
      s.terminal_seen ≡ true
      → s.result_error_seen ≡ false
      → (before : List StreamEvent) × (s.events ≡ before ++ (session_finished ∷ []))
        × (count is_end before ≡ 0)

-- An effect keeps the invariant once its events are kept.
Effect-IsSound :
    {made : List StreamEvent} {s t : ParsedStream}
    → IsSound s
    → Effect made s t
    → s.terminal_seen ≡ false
    → IsSound (keep_events (made, t)).1
Effect-IsSound {made} {s} {t} i e running = record {
  tools = rw (e.events) (
      omega (
        arith,
        i.tools,
        e.tools,
        count-append is_start s.events made,
        count-append is_finish s.events made,
      ));
  markers =
      rw (e.events)
        (omega (arith, i.markers, e.markers, count-append is_verification s.events made));
  claim = e.sound i.claim;
  going = λ _.
      rw (e.events) (omega (arith, i.going running, e.ends, count-append is_end s.events made));
  ended = λ over. absurd (cc);
}

-- The invariant once the events of a step are kept.
KeepsSound : List StreamEvent × ParsedStream → Type 0
KeepsSound p = IsSound (keep_events p).1

fail-KeepsSound :
    (lib : Library) (payload : Fields) (s : ParsedStream)
    → IsSound s
    → KeepsSound (fail lib payload s)
unfolding KeepsSound fail
fail-KeepsSound lib payload s i = record {
  tools = omega (
    arith,
    i.tools,
    count-append is_start s.events (claude_failed ∷ []),
    count-append is_finish s.events (claude_failed ∷ []),
  );
  markers = omega (arith, i.markers, count-append is_verification s.events (claude_failed ∷ []));
  claim = i.claim;
  going = λ over. absurd (cc);
  ended = λ _ fine. absurd (cc);
}

succeed-KeepsSound :
    (made : List StreamEvent) (s : ParsedStream)
    → IsSound s
    → s.terminal_seen ≡ false
    → IsOutput made
    → KeepsSound (succeed made s)
unfolding KeepsSound succeed
succeed-KeepsSound made s i running o =
    let last = session_finished ∷ [] in
    let same = sym (append_assoc s.events made last) in
    record {
      tools = rw (same) (
          omega (
            arith,
            i.tools,
            o.0,
            o.1,
            count-append is_start (s.events ++ made) last,
            count-append is_start s.events made,
            count-append is_finish (s.events ++ made) last,
            count-append is_finish s.events made,
          ));
      markers = rw (same) (
          omega (
            arith,
            i.markers,
            o.2,
            count-append is_verification (s.events ++ made) last,
            count-append is_verification s.events made,
          ));
      claim = i.claim;
      going = λ over. absurd (cc);
      ended = λ _ _. (
        s.events ++ made,
        same,
        omega (arith, o.3, i.going running, count-append is_end s.events made),
      );
    }

-- A result line that is accepted is the end, whatever it says.
result_line-KeepsSound :
    (lib : Library) (phase : Phase) (payload : Fields) (s : ParsedStream)
    → IsSound s
    → s.terminal_seen ≡ false
    → Ensures KeepsSound (result_line lib phase payload s)
unfolding result_line
result_line-KeepsSound lib phase payload s i running =
    if-Ensures {m = ok (fail lib payload s)} (λ _. returns _ (fail-KeepsSound lib payload s i))
      (λ _.
        bind-Ensures {f = λ made. ok (succeed made s)}
          (terminal_structured_output-IsOutput lib phase (get "structured_output" payload))
          (λ made o. returns _ (succeed-KeepsSound made s i running o)))

kept :
    {s : ParsedStream} {r : Result SessionCode (List StreamEvent × ParsedStream)}
    → IsSound s
    → s.terminal_seen ≡ false
    → Does r s
    → Ensures KeepsSound r
unfolding KeepsSound
kept i running done = weaken-Ensures (λ p did. Effect-IsSound i did running) done

ruleset line_rules = (ensures_rules, kept, nothing, line-Does, result_line-KeepsSound)

parse_object-KeepsSound :
    (lib : Library) (phase : Phase) (payload : Fields) (s : ParsedStream)
    → IsSound s
    → Ensures KeepsSound (parse_object lib phase payload s)
unfolding parse_object
parse_object-KeepsSound lib phase payload s i =
    let did = line-Does lib phase payload s in search line_rules depth 10

parse_value-IsSound :
    (lib : Library) (phase : Phase) (value : Option Value) (s : ParsedStream)
    → IsSound s
    → Ensures (λ p. IsSound p.1) (parse_value lib phase value s)
unfolding parse_value KeepsSound
parse_value-IsSound lib phase none s i = raises _
parse_value-IsSound lib phase (some (obj payload)) s i =
    bind-Ensures (parse_object-KeepsSound lib phase payload s i) (λ p j. returns _ j)
parse_value-IsSound lib phase (some _) s i = returns _ i

pub parse_line-IsSound :
    (lib : Library) (phase : Phase) (line : String) (s : ParsedStream)
    → IsSound s
    → Ensures (λ p. IsSound p.1) (parse_line lib phase line s)
unfolding parse_line
parse_line-IsSound lib phase line s i =
    parse_value-IsSound lib phase (strict_json_loads lib line) s i

pub initial_stream-IsSound : IsSound initial_stream
initial_stream-IsSound = record {
  tools = refl;
  markers = refl;
  claim = refl;
  going = λ h. refl;
  ended = λ over. absurd (cc);
}

finalize-passes :
    (exited_normally : Bool) (s : ParsedStream) {u : Unit {0}}
    → finalize exited_normally s ≡ ok u
    → (exited_normally ≡ true)
      × (length s.open_tools ≡ 0)
      × (s.terminal_seen ≡ true)
      × (s.result_error_seen ≡ false)
unfolding finalize
finalize-passes exited_normally s h = ground (arith, h)

-- What a run that ends well leaves.
pub finalize-ends :
    (exited_normally : Bool) (s : ParsedStream) {u : Unit {0}}
    → IsSound s
    → finalize exited_normally s ≡ ok u
    → (exited_normally ≡ true)
      × (count is_start s.events ≡ count is_finish s.events)
      × (before : List StreamEvent) × (s.events ≡ before ++ (session_finished ∷ []))
      × (count is_end before ≡ 0)
finalize-ends exited_normally s i h =
    let p = finalize-passes exited_normally s h in
    let e = i.ended p.2 p.3 in (p.0, omega (arith, i.tools, p.1), e.0, e.1, e.2)
