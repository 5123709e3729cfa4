-- ===== src/Stream/Parser/Pause.antt =====
-- What `StreamJsonParser` accepts after a risk pause and after the result marker.
use aiops_runner.Prelude.{
  ◌≡◌, refl, Bool, true, false, Option, none, some, List, [], ◌∷◌, ◌++◌, arith, String, ok, err,
  Ensures, returns, raises, ensures_rules, Ensures-ok, ◌⊎◌, inl, inr, if-Ensures, bind-Ensures,
  weaken-Ensures, all,
}
use aiops_runner.Session.Codes.{stream_after_terminal, risk_marker_violation, stream_invalid_json}
use aiops_runner.Contract.Json.{Value, obj, Fields, Items, nil, cons}
use aiops_runner.Stream.Reading.{Library, get, content, strict_json_loads}
use aiops_runner.Stream.State.{
  Phase, StreamEvent, diagnosis_started, retry_limit_reached, claude_failed, session_finished,
  inspection_report_created, host_context_created, proposal_draft_created, inspecting, initializing,
  diagnosing, proposing, ParsedStream,
}
use aiops_runner.Stream.Markers.{terminal_structured_output}
use aiops_runner.Stream.Parser.{
  without_retries, api_retry, assistant_block, over_blocks, assistant, system_line, user_line,
  result_line, fail, succeed, parse_object, parse_value, parse_line,
}

-- An event that reports no activity of Claude.
abbrev pub is_quiet : StreamEvent → Bool
is_quiet diagnosis_started = true
is_quiet retry_limit_reached = true
is_quiet claude_failed = true
is_quiet session_finished = true
is_quiet (inspection_report_created _) = true
is_quiet (host_context_created _) = true
is_quiet (proposal_draft_created _) = true
is_quiet _ = false

-- After a pause a step makes quiet events and leaves the pause, the tools and the outcome alone.
StaysPaused : ParsedStream → List StreamEvent × ParsedStream → Type 0
StaysPaused s p =
    (all is_quiet p.0 ≡ true)
    × (p.1.risk_pause_seen ≡ true)
    × (p.1.open_tools ≡ s.open_tools)
    × (p.1.verification_outcome ≡ s.verification_outcome)

nothing-StaysPaused : (s : ParsedStream) → s.risk_pause_seen ≡ true → StaysPaused s ([], s)
unfolding StaysPaused
nothing-StaysPaused s h = (refl, h, refl, refl)

started-StaysPaused :
    (s : ParsedStream) → s.risk_pause_seen ≡ true → StaysPaused s (diagnosis_started ∷ [], s)
unfolding StaysPaused
started-StaysPaused s h = (refl, h, refl, refl)

api_retry-StaysPaused :
    (phase : Phase) (payload : Fields) (s : ParsedStream)
    → s.risk_pause_seen ≡ true
    → StaysPaused s (api_retry phase payload s)
unfolding api_retry StaysPaused
api_retry-StaysPaused phase payload s h = ground (arith, h)

assistant_blocks-StaysPaused :
    (lib : Library) (phase : Phase) (xs : Items) (s : ParsedStream)
    → s.risk_pause_seen ≡ true
    → Ensures (StaysPaused s) (over_blocks (assistant_block lib phase) xs s)
unfolding over_blocks assistant_block
assistant_blocks-StaysPaused lib phase nil s h = returns _ (nothing-StaysPaused s h)
assistant_blocks-StaysPaused lib phase (cons (obj block) xs) s h =
    rw (h) (raises risk_marker_violation)
assistant_blocks-StaysPaused lib phase (cons _ xs) s h =
    assistant_blocks-StaysPaused lib phase xs s h

assistant-StaysPaused :
    (lib : Library) (phase : Phase) (payload : Fields) (s : ParsedStream)
    → s.risk_pause_seen ≡ true
    → Ensures (StaysPaused s) (assistant lib phase payload (without_retries s))
unfolding assistant StaysPaused
assistant-StaysPaused lib phase payload s h =
    weaken-Ensures (λ p q. q)
      (assistant_blocks-StaysPaused lib phase (content payload) (without_retries s) h)

user_line-StaysPaused :
    (lib : Library) (payload : Fields) (s : ParsedStream)
    → s.risk_pause_seen ≡ true
    → Ensures (StaysPaused s) (user_line lib payload s)
unfolding user_line
user_line-StaysPaused lib payload s h = rw (h) (raises risk_marker_violation)

fail-StaysPaused :
    (lib : Library) (payload : Fields) (s : ParsedStream)
    → s.risk_pause_seen ≡ true
    → StaysPaused s (fail lib payload s)
unfolding StaysPaused fail
fail-StaysPaused lib payload s h = (refl, h, refl, refl)

abbrev AreQuiet : List StreamEvent → Type 0
AreQuiet made = all is_quiet made ≡ true

draft-AreQuiet : (draft : Fields) → AreQuiet (proposal_draft_created draft ∷ [])
draft-AreQuiet draft = refl

output-AreQuiet :
    (lib : Library) (phase : Phase) (value : Option Value)
    → Ensures AreQuiet (terminal_structured_output lib phase value)
unfolding terminal_structured_output
output-AreQuiet lib inspecting (some (obj fs)) = returns _ refl
output-AreQuiet lib initializing (some (obj fs)) = returns _ refl
output-AreQuiet lib diagnosing (some (obj fs)) = search (ensures_rules, draft-AreQuiet)
output-AreQuiet lib proposing (some (obj fs)) = search (ensures_rules, draft-AreQuiet)
output-AreQuiet lib _ _ = returns _ refl

append-AreQuiet : (xs ys : List StreamEvent) → AreQuiet xs → AreQuiet ys → AreQuiet (xs ++ ys)
append-AreQuiet [] ys h k = k
append-AreQuiet (x ∷ xs) ys h k = ground (arith, h, append-AreQuiet xs ys)

succeed-StaysPaused :
    (made : List StreamEvent) (s : ParsedStream)
    → s.risk_pause_seen ≡ true
    → AreQuiet made
    → StaysPaused s (succeed made s)
unfolding StaysPaused succeed
succeed-StaysPaused made s h k =
    (append-AreQuiet made (session_finished ∷ []) k refl, h, refl, refl)

result_line-StaysPaused :
    (lib : Library) (phase : Phase) (payload : Fields) (s : ParsedStream)
    → s.risk_pause_seen ≡ true
    → Ensures (StaysPaused s) (result_line lib phase payload s)
unfolding result_line
result_line-StaysPaused lib phase payload s h =
    if-Ensures {m = ok (fail lib payload s)} (λ _. returns _ (fail-StaysPaused lib payload s h))
      (λ _.
        bind-Ensures {f = λ made. ok (succeed made s)}
          (output-AreQuiet lib phase (get "structured_output" payload))
          (λ made q. returns _ (succeed-StaysPaused made s h q)))

ruleset paused_rules = (
  ensures_rules, nothing-StaysPaused, started-StaysPaused, api_retry-StaysPaused,
  assistant-StaysPaused, user_line-StaysPaused, result_line-StaysPaused,
)

parse_object-StaysPaused :
    (lib : Library) (phase : Phase) (payload : Fields) (s : ParsedStream)
    → s.risk_pause_seen ≡ true
    → Ensures (StaysPaused s) (parse_object lib phase payload s)
unfolding parse_object system_line
parse_object-StaysPaused lib phase payload s h = search paused_rules depth 12

parse_value-StaysPaused :
    (lib : Library) (phase : Phase) (value : Option Value) (s : ParsedStream)
    → s.risk_pause_seen ≡ true
    → Ensures (StaysPaused s) (parse_value lib phase value s)
unfolding parse_value StaysPaused
parse_value-StaysPaused lib phase none s h = raises _
parse_value-StaysPaused lib phase (some (obj payload)) s h =
    bind-Ensures (parse_object-StaysPaused lib phase payload s h) (λ p j. returns _ j)
parse_value-StaysPaused lib phase (some _) s h = returns _ (nothing-StaysPaused s h)

-- Once Claude has asked for a risk confirmation, a line that the parser accepts reports no tool, no
-- command, no change of plan, no verification and no second risk; the pause stays, and the tools
-- that are open and the outcome of the verification stay as they are.
pub parse_line-paused :
    (lib : Library) (phase : Phase) (line : String) (s t : ParsedStream) (made : List StreamEvent)
    → s.risk_pause_seen ≡ true
    → parse_line lib phase line s ≡ ok (made, t)
    → (all is_quiet made ≡ true)
      × (t.risk_pause_seen ≡ true)
      × (t.open_tools ≡ s.open_tools)
      × (t.verification_outcome ≡ s.verification_outcome)
unfolding parse_line StaysPaused
parse_line-paused lib phase line s t made h e =
    Ensures-ok (parse_value-StaysPaused lib phase (strict_json_loads lib line) s h) e

parse_value-ended :
    (lib : Library) (phase : Phase) (value : Option Value) (s : ParsedStream)
    → s.terminal_seen ≡ true
    → (parse_value lib phase value s ≡ ok ([], s))
      ⊎ (parse_value lib phase value s ≡ err stream_after_terminal)
      ⊎ (parse_value lib phase value s ≡ err stream_invalid_json)
unfolding parse_value parse_object
parse_value-ended lib phase none s h = inr (inr refl)
parse_value-ended lib phase (some (obj payload)) s h = inr (inl (rw h))
parse_value-ended lib phase (some _) s h = inl refl

-- Once the result marker is read, every line that holds a JSON object is refused, and no other
-- line changes the state or makes an event.
pub parse_line-ended :
    (lib : Library) (phase : Phase) (line : String) (s : ParsedStream)
    → s.terminal_seen ≡ true
    → (parse_line lib phase line s ≡ ok ([], s))
      ⊎ (parse_line lib phase line s ≡ err stream_after_terminal)
      ⊎ (parse_line lib phase line s ≡ err stream_invalid_json)
unfolding parse_line
parse_line-ended lib phase line s h = parse_value-ended lib phase (strict_json_loads lib line) s h
