-- ===== src/Stream/Parser/Lines.antt =====
-- What a line of `StreamJsonParser` that is no result does to the counts of tools and of markers, and
-- what structured output holds.
use aiops_runner.Prelude.{
  ◌≡◌, refl, Option, some, List, [], ◌∷◌, count, arith, Result, Ensures, returns, ensures_rules,
  weaken-Ensures,
}
use aiops_runner.Session.Codes.{SessionCode}
use aiops_runner.Contract.Json.{Value, obj, Fields}
use aiops_runner.Stream.Reading.{Library, content}
use aiops_runner.Stream.State.{
  Phase, inspecting, initializing, diagnosing, proposing, StreamEvent, proposal_draft_created,
  diagnosis_started, ParsedStream,
}
use aiops_runner.Stream.Markers.{terminal_structured_output}
use aiops_runner.Stream.Parser.{
  without_retries, api_retry, assistant, tool_results, system_line, user_line,
}
use aiops_runner.Stream.Parser.Effect.{
  is_start, is_finish, is_verification, is_end, nothing, then_Effect, Makes, Does, over_blocks-Does,
  assistant_block-Does, user_block-Does,
}

forget_retries-Makes : (s : ParsedStream) → Makes s ([], without_retries s)
forget_retries-Makes s = record {
  tools = refl;
  markers = omega arith;
  ends = refl;
  sound = λ h. h;
  events = refl;
  terminal = refl;
  failed = refl;
}

api_retry-Makes :
    (phase : Phase) (payload : Fields) (s : ParsedStream) → Makes s (api_retry phase payload s)
unfolding api_retry
api_retry-Makes phase payload s = record {
  tools = ground arith;
  markers = ground arith;
  ends = ground arith;
  sound = λ h. ground (arith, h);
  events = ground arith;
  terminal = ground arith;
  failed = ground arith;
}

started-Makes : (s : ParsedStream) → Makes s (diagnosis_started ∷ [], s)
started-Makes s = record {
  tools = refl;
  markers = omega arith;
  ends = refl;
  sound = λ h. h;
  events = refl;
  terminal = refl;
  failed = refl;
}

-- A step from the state with no retries is a step from the state.
without_retries-Does :
    (s : ParsedStream) {r : Result SessionCode (List StreamEvent × ParsedStream)}
    → Does r (without_retries s)
    → Does r s
without_retries-Does s done =
    weaken-Ensures (λ p did. then_Effect (forget_retries-Makes s) did) done

tool_results-Does :
    (lib : Library) (payload : Fields) (s : ParsedStream)
    → Does (tool_results lib payload (without_retries s)) s
unfolding tool_results
tool_results-Does lib payload s =
    without_retries-Does s
      (over_blocks-Does _ (user_block-Does lib) (content payload) (without_retries s))

-- The steps of a line that is no result.
pub line-Does :
    (lib : Library) (phase : Phase) (payload : Fields) (s : ParsedStream)
    → Does (system_line phase payload s) s
      × Does (assistant lib phase payload (without_retries s)) s
      × Does (user_line lib payload s) s
unfolding system_line assistant user_line
line-Does lib phase payload s = (
  search (ensures_rules, nothing, started-Makes, api_retry-Makes),
  without_retries-Does s
      (over_blocks-Does _ (assistant_block-Does lib phase) (content payload) (without_retries s)),
  search (ensures_rules, tool_results-Does),
)

-- Structured output holds no marker and no tool.
abbrev pub IsOutput : List StreamEvent → Type 0
IsOutput made =
    (count is_start made ≡ 0)
    × (count is_finish made ≡ 0)
    × (count is_verification made ≡ 0)
    × (count is_end made ≡ 0)

draft-IsOutput : (draft : Fields) → IsOutput (proposal_draft_created draft ∷ [])
draft-IsOutput draft = (refl, refl, refl, refl)

pub terminal_structured_output-IsOutput :
    (lib : Library) (phase : Phase) (value : Option Value)
    → Ensures IsOutput (terminal_structured_output lib phase value)
unfolding terminal_structured_output
terminal_structured_output-IsOutput lib inspecting (some (obj fs)) =
    returns _ (refl, refl, refl, refl)
terminal_structured_output-IsOutput lib initializing (some (obj fs)) =
    returns _ (refl, refl, refl, refl)
terminal_structured_output-IsOutput lib diagnosing (some (obj fs)) =
    search (ensures_rules, draft-IsOutput)
terminal_structured_output-IsOutput lib proposing (some (obj fs)) =
    search (ensures_rules, draft-IsOutput)
terminal_structured_output-IsOutput lib _ _ = returns _ (refl, refl, refl, refl)
