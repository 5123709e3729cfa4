-- ===== src/Stream/Parser/Effect.antt =====
-- What one step of `StreamJsonParser` does to the counts of tools and of markers.
use aiops_runner.Prelude.{
  ensures_rules, ltb, ◌≡◌, refl, ℕ, suc, ◌+◌, String, Bool, true, false, Option, none, some, List,
  [], ◌∷◌, ◌++◌, ◌==◌, length, count, count-append, one_of, arith, Bool-cases, inl, inr, Ensures,
  returns, bind-Ensures, require-Ensures,
}
use aiops_runner.Contract.Json.{Fields, Items, nil, cons}
use aiops_runner.Contract.Json
use aiops_runner.Stream.Reading.{Library, get, text_or_empty, strict_json_loads}
use aiops_runner.Stream.State.{
  Phase, executing, Verification, success, plan_delta, StreamEvent, tool_started, command_started,
  tool_finished, verification_finished, session_finished, ParsedStream,
}
use aiops_runner.Stream.Markers.{
  pause, read_marker, Parsed, no_marker, plan_delta_marker, verification_verdict,
  verification_marker, risk_marker, marker_object, assistant_control_marker,
}
use aiops_runner.Stream.Parser.{
  open_tool, close_tool, tool_event, start_tool, finish_tool, remove_tool, assistant_block,
  user_block, over_blocks,
}

abbrev pub is_start : StreamEvent → Bool
is_start (tool_started _) = true
is_start (command_started _ _ _ _) = true
is_start _ = false

abbrev pub is_finish : StreamEvent → Bool
is_finish (tool_finished _ _) = true
is_finish _ = false

abbrev pub is_verification : StreamEvent → Bool
is_verification (verification_finished _ _) = true
is_verification _ = false

abbrev pub is_end : StreamEvent → Bool
is_end session_finished = true
is_end _ = false

-- `success` is claimed after one marker only.
abbrev pub is_claim_sound : Option Verification → ℕ → Bool
is_claim_sound (some success) n = n == 1
is_claim_sound _ n = true

-- The members of a state that a step inside a message leaves alone.
pub record Effect (made : List StreamEvent) (s t : ParsedStream) : Type 0 where
  pub tools : count is_start made + length s.open_tools ≡ count is_finish made + length t.open_tools
  pub markers :
      count is_verification made + s.verification_marker_count ≡ t.verification_marker_count
  pub ends : count is_end made ≡ 0
  pub sound :
      is_claim_sound s.verification_outcome s.verification_marker_count ≡ true
      → is_claim_sound t.verification_outcome t.verification_marker_count ≡ true
  pub events : t.events ≡ s.events
  pub terminal : t.terminal_seen ≡ s.terminal_seen
  pub failed : t.result_error_seen ≡ s.result_error_seen

pub nothing : (s : ParsedStream) → Effect [] s s
nothing s = record {
  tools = refl;
  markers = omega arith;
  ends = refl;
  sound = λ h. h;
  events = refl;
  terminal = refl;
  failed = refl;
}

pub then_Effect :
    {a b : List StreamEvent} {s t u : ParsedStream}
    → Effect a s t
    → Effect b t u
    → Effect (a ++ b) s u
then_Effect {a} {b} e f = record {
  tools = omega (arith, e.tools, f.tools, count-append is_start a b, count-append is_finish a b);
  markers = omega (arith, e.markers, f.markers, count-append is_verification a b);
  ends = omega (arith, e.ends, f.ends, count-append is_end a b);
  sound = λ h. f.sound (e.sound h);
  events = cc;
  terminal = cc;
  failed = cc;
}

-- What a step that returns does.
abbrev pub Makes : ParsedStream → List StreamEvent × ParsedStream → Type 0
Makes s p = Effect p.0 s p.1

abbrev pub Does : Parsed → ParsedStream → Type 0
Does r s = Ensures (Makes s) r

-- A loop over blocks does what its steps do.
pub over_blocks-Does :
    (step : Fields → ParsedStream → Parsed)
    (each : (block : Fields) (s : ParsedStream) → Does (step block s) s) (xs : Items)
    (s : ParsedStream)
    → Does (over_blocks step xs s) s
unfolding over_blocks
over_blocks-Does step each nil s = returns _ (nothing s)
over_blocks-Does step each (cons (Json.obj block) xs) s =
    bind-Ensures {P = Makes s} (each block s) (λ first did.
      bind-Ensures {P = Makes first.1} (over_blocks-Does step each xs first.1)
        (λ rest goes. returns _ (then_Effect did goes)))
over_blocks-Does step each (cons Json.null xs) s = over_blocks-Does step each xs s
over_blocks-Does step each (cons (Json.bool b) xs) s = over_blocks-Does step each xs s
over_blocks-Does step each (cons (Json.int n) xs) s = over_blocks-Does step each xs s
over_blocks-Does step each (cons (Json.negative n) xs) s = over_blocks-Does step each xs s
over_blocks-Does step each (cons (Json.float f) xs) s = over_blocks-Does step each xs s
over_blocks-Does step each (cons (Json.str f) xs) s = over_blocks-Does step each xs s
over_blocks-Does step each (cons (Json.arr f) xs) s = over_blocks-Does step each xs s

remove_tool-length :
    (t : String) (ss : List String)
    → one_of t ss ≡ true
    → suc (length (remove_tool t ss)) ≡ length ss
unfolding remove_tool
remove_tool-length t [] h = cc
remove_tool-length t (s ∷ ss) h = ground (arith, remove_tool-length t ss)

tool_event-starts :
    (lib : Library) (block : Fields) (rest : List StreamEvent)
    → (count is_start ((tool_event lib block).0 ∷ rest) ≡ suc (count is_start rest))
      × (count is_finish ((tool_event lib block).0 ∷ rest) ≡ count is_finish rest)
      × (count is_verification ((tool_event lib block).0 ∷ rest) ≡ count is_verification rest)
      × (count is_end ((tool_event lib block).0 ∷ rest) ≡ count is_end rest)
unfolding tool_event
tool_event-starts lib block rest = ground arith

open_tool-Makes :
    (lib : Library) (block : Fields) (s : ParsedStream) → Makes s (open_tool lib block s)
unfolding open_tool
open_tool-Makes lib block s = record {
  tools = omega (arith, (tool_event-starts lib block []).0, (tool_event-starts lib block []).1);
  markers = omega (arith, (tool_event-starts lib block []).2);
  ends = (tool_event-starts lib block []).3;
  sound = λ h. h;
  events = refl;
  terminal = refl;
  failed = refl;
}

close_tool-Makes :
    (lib : Library) (block : Fields) (s : ParsedStream)
    → one_of (text_or_empty lib (get "tool_use_id" block)) s.open_tools ≡ true
    → Makes s (close_tool lib block s)
unfolding close_tool
close_tool-Makes lib block s found = record {
  tools = omega (arith, remove_tool-length _ s.open_tools found);
  markers = omega arith;
  ends = refl;
  sound = λ h. h;
  events = refl;
  terminal = refl;
  failed = refl;
}

finish_tool-Does :
    (lib : Library) (block : Fields) (s : ParsedStream) → Does (finish_tool lib block s) s
unfolding finish_tool
finish_tool-Does lib block s =
    require-Ensures _ (λ found. returns _ (close_tool-Makes lib block s (ground (arith, found))))

plan-Makes : (delta : Fields) (s : ParsedStream) → Makes s (plan_delta delta ∷ [], s)
plan-Makes delta s = record {
  tools = refl;
  markers = omega arith;
  ends = refl;
  sound = λ h. h;
  events = refl;
  terminal = refl;
  failed = refl;
}

-- A marker that claims success is the first.
verification_verdict-first :
    (marker : Fields) (n : ℕ)
    → is_claim_sound (some (verification_verdict (n == 1) marker)) n ≡ true
unfolding verification_verdict
verification_verdict-first marker n = ground arith

verification_marker-Makes :
    (lib : Library) (marker : Fields) (s : ParsedStream)
    → Makes s (verification_marker lib marker s)
unfolding verification_marker
verification_marker-Makes lib marker s = record {
  tools = refl;
  markers = omega arith;
  ends = refl;
  sound = λ h. verification_verdict-first marker _;
  events = refl;
  terminal = refl;
  failed = refl;
}

pause-Makes : (lib : Library) (marker : Fields) (s : ParsedStream) → Makes s (pause lib marker s)
unfolding pause
pause-Makes lib marker s = record {
  tools = refl;
  markers = omega arith;
  ends = refl;
  sound = λ h. h;
  events = refl;
  terminal = refl;
  failed = refl;
}

no_marker-Makes : (s : ParsedStream) → Makes s ([], no_marker s)
no_marker-Makes s = elim (Bool-cases (ltb 0 s.verification_marker_count)) [
  | inl marked ↦ rw (marked) (record {
    tools = refl;
    markers = omega arith;
    ends = refl;
    sound = λ h. refl;
    events = refl;
    terminal = refl;
    failed = refl;
  })
  | inr unmarked ↦ rw (unmarked) (nothing s)
]

ruleset step_rules = (
  ensures_rules, nothing, open_tool-Makes, plan-Makes, verification_marker-Makes, pause-Makes,
  no_marker-Makes,
)

marker_object-Does :
    (lib : Library) (marker : Fields) (s : ParsedStream) → Does (marker_object lib marker s) s
unfolding marker_object plan_delta_marker risk_marker
marker_object-Does lib marker s = search step_rules depth 12

read_marker-Does :
    (lib : Library) (parsed : Option Json.Value) (s : ParsedStream)
    → Does (read_marker lib parsed s) s
unfolding read_marker
read_marker-Does lib none s = search step_rules
read_marker-Does lib (some (Json.obj marker)) s = marker_object-Does lib marker s
read_marker-Does lib (some _) s = search step_rules

assistant_control_marker-Does :
    (lib : Library) (phase : Phase) (text : String) (s : ParsedStream)
    → Does (assistant_control_marker lib phase text s) s
unfolding assistant_control_marker
assistant_control_marker-Does lib executing text s =
    read_marker-Does lib (strict_json_loads lib text) s
assistant_control_marker-Does lib _ text s = returns _ (nothing s)

pub assistant_block-Does :
    (lib : Library) (phase : Phase) (block : Fields) (s : ParsedStream)
    → Does (assistant_block lib phase block s) s
unfolding assistant_block start_tool
assistant_block-Does lib phase block s = search (step_rules, assistant_control_marker-Does) depth 12

pub user_block-Does :
    (lib : Library) (block : Fields) (s : ParsedStream) → Does (user_block lib block s) s
unfolding user_block
user_block-Does lib block s = search (step_rules, finish_tool-Does)
