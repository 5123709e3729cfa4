-- ===== src/Stream/Parser.antt =====
-- `StreamJsonParser` of runner/runner/trusted_session.py: one line of Claude's output at a time, and
-- the end of the process. An error ends the run, so it carries no state.
pub mod Effect
pub mod Lines
pub mod Balance
pub mod Pause
use aiops_runner.Prelude.{
  ℕ, zero, suc, String, Bool, true, false, not, ◌&&◌, ◌||◌, Option, none, some, List, [], ◌∷◌, ◌++◌,
  if◌then◌else◌, ltb, ◌==◌, str_eq, one_of, is_some, Result, ok, err, ◌>>=◌, ◌>>◌, require, refuse,
}
use aiops_runner.Session.Codes.{
  SessionCode, stream_invalid_json, stream_after_terminal, risk_marker_violation,
  verification_marker_violation, stream_tool_id_invalid, stream_tool_result_unknown,
  claude_result_error, process_exit_uncertain, stream_unclosed_tool, stream_no_terminal,
}
use aiops_runner.Contract.Json.{Value, str, int, arr, obj, Items, nil, cons, Fields, end}
use aiops_runner.Stream.Reading.{
  Library, get, is_text, content, strict_json_loads, is_set, as_text, text_or_empty,
  redact_sensitive,
}
use aiops_runner.Stream.State.{
  Phase, inspecting, model_provider_unavailable, StreamEvent, diagnosis_started, session_finished,
  claude_failed, retry_limit_reached, tool_started, command_started, tool_finished, ParsedStream,
}
use aiops_runner.Stream.Markers.{
  Parsed, claude_result_failure, assistant_control_marker, terminal_structured_output,
}

-- `self.state.open_tools.remove(tool_id)`
unfoldable pub remove_tool : String → List String → List String
remove_tool t [] = []
remove_tool t (s ∷ ss) = let rest = remove_tool t ss in if str_eq t s then ss else s ∷ rest

-- The input of a tool, where it is an object.
abbrev tool_input : Option Value → Fields
tool_input (some (obj fs)) = fs
tool_input _ = end

abbrev pub without_retries : ParsedStream → ParsedStream
without_retries s = record s { provider_unavailable_retry_count = 0 }

-- `_INSPECTION_PROVIDER_UNAVAILABLE_RETRY_LIMIT`
abbrev pub retry_limit : ℕ
retry_limit = 3

abbrev is_unavailable : Option Value → Bool
is_unavailable (some (int status)) = status == 503
is_unavailable _ = false

abbrev is_inspecting : Phase → Bool
is_inspecting inspecting = true
is_inspecting _ = false

unfoldable pub api_retry : Phase → Fields → ParsedStream → List StreamEvent × ParsedStream
unfolding get
api_retry phase payload s =
    let count = suc s.provider_unavailable_retry_count in
    if is_some s.early_failure
    then ([], s)
    else if not (is_inspecting phase && is_unavailable (get "error_status" payload))
    then ([], without_retries s)
    else if ltb count retry_limit
    then ([], record s { provider_unavailable_retry_count = count })
    else (
      retry_limit_reached ∷ [],
      record s {
        provider_unavailable_retry_count = count;
        early_failure = some (record { code = model_provider_unavailable; http_status = some 503 });
      },
    )

-- The loop over the blocks of a content, which skips what is no object.
unfoldable pub over_blocks : (Fields → ParsedStream → Parsed) → Items → ParsedStream → Parsed
over_blocks step nil s = ok ([], s)
over_blocks step (cons (obj block) xs) s =
    step block s >>= λ first. over_blocks step xs first.1 >>= λ rest. ok (first.0 ++ rest.0, rest.1)
over_blocks step (cons _ xs) s = over_blocks step xs s

unfoldable pub system_line : Phase → Fields → ParsedStream → Parsed
unfolding get api_retry
system_line phase payload s =
    if is_text (get "subtype" payload) "init"
    then ok (diagnosis_started ∷ [], s)
    else if is_text (get "subtype" payload) "api_retry"
    then ok (api_retry phase payload s)
    else ok ([], s)

abbrev pub keep_events : List StreamEvent × ParsedStream → List StreamEvent × ParsedStream
keep_events (made, s) = (made, record s { events = s.events ++ made })

-- A result that is none.
unfoldable pub succeed : List StreamEvent → ParsedStream → List StreamEvent × ParsedStream
succeed created s = (created ++ (session_finished ∷ []), record s { terminal_seen = true })

module _ (lib : Library) where
  -- `content` of a tool's result as text.
  abbrev result_text : Option Value → String
  result_text none = ""
  result_text (some (arr xs)) = lib.dumps (arr xs)
  result_text (some v) = as_text lib v

  abbrev runs_shell : String → String → Bool
  runs_shell name command =
      one_of (lib.lower name) ("bash" ∷ "shell" ∷ "terminal" ∷ []) && not (str_eq command "")

  -- The event of a tool's start, and whether it may start a remote process.
  unfoldable pub tool_event : Fields → StreamEvent × Bool
  unfolding get text_or_empty redact_sensitive
  tool_event block =
      let name = text_or_empty lib (get "name" block) in
      let input = tool_input (get "input" block) in
      let command = text_or_empty lib (get "command" input) in
      if runs_shell name command
      then (
        command_started name (redact_sensitive lib 4096 command) (lib.command_digest command)
            (get "cwd" input),
        lib.names_remote_program command,
      )
      else (tool_started name, false)

  -- `self.state.open_tools.add(tool_id)` and the event.
  unfoldable pub open_tool : Fields → ParsedStream → List StreamEvent × ParsedStream
  unfolding get text_or_empty tool_event
  open_tool block s = (
    (tool_event block).0 ∷ [],
    record s {
      open_tools = text_or_empty lib (get "id" block) ∷ s.open_tools;
      remote_command_seen = s.remote_command_seen || (tool_event block).1;
    },
  )

  -- `tool_use`
  unfoldable pub start_tool : Fields → ParsedStream → Parsed
  unfolding get text_or_empty open_tool
  start_tool block s =
      let tool_id = text_or_empty lib (get "id" block) in
      refuse (ltb 0 s.verification_marker_count) verification_marker_violation
      >> refuse (str_eq tool_id "" || one_of tool_id s.open_tools) stream_tool_id_invalid
      >> ok (open_tool block s)

  -- One object of an assistant's content.
  unfoldable pub assistant_block : Phase → Fields → ParsedStream → Parsed
  unfolding get text_or_empty start_tool assistant_control_marker
  assistant_block phase block s =
      refuse s.risk_pause_seen risk_marker_violation
      >> (if is_text (get "type" block) "tool_use"
          then start_tool block s
          else if is_text (get "type" block) "text"
          then assistant_control_marker lib phase (text_or_empty lib (get "text" block)) s
          else ok ([], s))

  -- `self.state.open_tools.remove(tool_id)` and the event.
  unfoldable pub close_tool : Fields → ParsedStream → List StreamEvent × ParsedStream
  unfolding get text_or_empty remove_tool redact_sensitive is_set
  close_tool block s = (
    tool_finished (redact_sensitive lib 1000 (result_text (get "content" block)))
          (is_set lib (get "is_error" block))
        ∷ [],
    record s {
      open_tools = remove_tool (text_or_empty lib (get "tool_use_id" block)) s.open_tools;
    },
  )

  -- `tool_result`
  unfoldable pub finish_tool : Fields → ParsedStream → Parsed
  unfolding get text_or_empty close_tool
  finish_tool block s =
      let tool_id = text_or_empty lib (get "tool_use_id" block) in
      require (not (str_eq tool_id "") && one_of tool_id s.open_tools) stream_tool_result_unknown
      >> ok (close_tool block s)

  unfoldable pub user_block : Fields → ParsedStream → Parsed
  unfolding get finish_tool
  user_block block s =
      if is_text (get "type" block) "tool_result" then finish_tool block s else ok ([], s)

  unfoldable pub assistant : Phase → Fields → ParsedStream → Parsed
  unfolding content assistant_block over_blocks
  assistant phase payload s = over_blocks (assistant_block phase) (content payload) s

  unfoldable pub tool_results : Fields → ParsedStream → Parsed
  unfolding content user_block over_blocks
  tool_results payload s = over_blocks user_block (content payload) s

  unfoldable pub user_line : Fields → ParsedStream → Parsed
  unfolding tool_results
  user_line payload s =
      refuse s.risk_pause_seen risk_marker_violation
      >> refuse (ltb 0 s.verification_marker_count) verification_marker_violation
      >> tool_results payload (without_retries s)

  -- A result that is an error.
  unfoldable pub fail : Fields → ParsedStream → List StreamEvent × ParsedStream
  unfolding claude_result_failure
  fail payload s = (
    claude_failed ∷ [],
    record s {
      terminal_seen = true;
      result_error_seen = true;
      result_failure = some (claude_result_failure lib payload);
    },
  )

  unfoldable pub result_line : Phase → Fields → ParsedStream → Parsed
  unfolding get is_set fail succeed terminal_structured_output
  result_line phase payload s =
      if is_set lib (get "is_error" payload) || not (is_text (get "subtype" payload) "success")
      then ok (fail payload s)
      else terminal_structured_output lib phase (get "structured_output" payload) >>= λ created.
          ok (succeed created s)

  unfoldable pub parse_object : Phase → Fields → ParsedStream → Parsed
  unfolding get system_line assistant user_line result_line
  parse_object phase payload s =
      let kind = get "type" payload in
      refuse s.terminal_seen stream_after_terminal
      >> (if is_text kind "system"
          then system_line phase payload s
          else if is_text kind "assistant"
          then assistant phase payload (without_retries s)
          else if is_text kind "user"
          then user_line payload s
          else if is_text kind "result"
          then result_line phase payload s
          else ok ([], s))

  -- The line as it was parsed.
  unfoldable pub parse_value : Phase → Option Value → ParsedStream → Parsed
  unfolding parse_object
  parse_value phase (some (obj payload)) s =
      parse_object phase payload s >>= λ parsed. ok (keep_events parsed)
  parse_value phase (some _) s = ok ([], s)
  parse_value phase none s = err stream_invalid_json

  unfoldable pub parse_line : Phase → String → ParsedStream → Parsed
  unfolding strict_json_loads parse_value
  parse_line phase line s = parse_value phase (strict_json_loads lib line) s

abbrev pub no_tools : List String → Bool
no_tools [] = true
no_tools (_ ∷ _) = false

-- `returncode` is 0 or not.
unfoldable pub finalize : Bool → ParsedStream → Result SessionCode (Unit {0})
finalize exited_normally s =
    refuse (is_some s.result_failure) claude_result_error
    >> require exited_normally process_exit_uncertain
    >> require (no_tools s.open_tools) stream_unclosed_tool
    >> require s.terminal_seen stream_no_terminal
    >> refuse s.result_error_seen claude_result_error
