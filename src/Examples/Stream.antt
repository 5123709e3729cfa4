-- ===== src/Examples/Stream.antt =====
-- Witnesses for the stream of Claude in runner/runner/trusted_session.py.
use aiops_runner.Prelude.{
  ◌≡◌, refl, ℕ, String, true, false, Option, none, some, List, [], ◌∷◌, ◌++◌, count, ◌≤◌, str_eq,
  if◌then◌else◌, ok, err, arith, all,
}
use aiops_runner.Session.Codes.{claude_provider_retry_limit}
use aiops_runner.Session.Metadata.{same_status, succeeded}
use aiops_runner.Session.Metadata
use aiops_runner.Session.Outcome.{persist_result, ClaudeRunResult, result_verdict}
use aiops_runner.Session.Outcome
use aiops_runner.Contract.Json.{Value, str, int, has_key, obj, arr, cons, nil, Fields, field, end}
use aiops_runner.Hook.Words.{is_space}
use aiops_runner.Stream.Reading.{Library, get, strict_json_loads, is_closed}
use aiops_runner.Stream.State.{
  Phase, inspecting, ParsedStream, initial_stream, StreamEvent, session_finished,
}
use aiops_runner.Stream.Parser.{parse_line}
use aiops_runner.Stream.Parser.Effect.{is_start, is_finish, is_verification, is_end}
use aiops_runner.Stream.Parser.Pause.{is_quiet, parse_line-paused}
use aiops_runner.Stream.Consume.{
  World, Arrival, line, Adapter, is_command, run_process, read_output,
}
use aiops_runner.Stream.Consume.Success.{run_process-ends, run_process-succeeds}
use aiops_runner.Stream.Consume.Budget.{run_process-budget}
use aiops_runner.Stream.Consume.Retry.{IsUnavailable, IsTaking, read_output-retries}
use aiops_runner.Examples.Session.{session}

abbrev message : String → Fields → Value
message kind block =
    obj (field "type" (str kind) (field "content" (arr (cons (obj block) nil)) end))

abbrev tool_use : String → Value
tool_use id = message "assistant" (
    field "type" (str "tool_use") (
      field "id" (str id)
        (field "name" (str "bash") (field "input" (obj (field "command" (str "uptime") end)) end))))

abbrev tool_result : String → Value
tool_result id =
    message "user" (field "type" (str "tool_result") (field "tool_use_id" (str id) end))

abbrev verification : Value
verification = message "assistant" (field "type" (str "text") (field "text" (str "marker") end))

abbrev marker : Value
marker = obj (
    field "kind" (str "verification")
      (field "status" (str "succeeded") (field "result" (str "fine") end)))

abbrev result : Value
result = obj (field "type" (str "result") (field "subtype" (str "success") end))

abbrev retry : Fields
retry =
    field "type" (str "system")
      (field "subtype" (str "api_retry") (field "error_status" (int 503) end))

abbrev loads : String → Option Value
loads t =
    if str_eq t "use 1"
    then some (tool_use "1")
    else if str_eq t "use 2"
    then some (tool_use "2")
    else if str_eq t "done 1"
    then some (tool_result "1")
    else if str_eq t "verified"
    then some verification
    else if str_eq t "marker"
    then some marker
    else if str_eq t "result"
    then some result
    else if str_eq t "retry"
    then some (obj retry)
    else none

abbrev library : Library
library = record {
  loads = loads;
  text_of = λ v. "value";
  dict_of = λ v. none;
  is_zero = λ t. str_eq t "0.0";
  dumps = λ v. "[]";
  lower = λ t. t;
  substitute_secrets = λ t. t;
  command_digest = λ t. t;
  names_remote_program = λ t. false;
  is_canonical_uuid = λ t. true;
  aware_time = λ t. none;
  is_valid_draft = λ fs. true;
  http_status = λ t. none;
  says = λ p t. false;
}

abbrev adapter : Option ℕ → Adapter
adapter budget = record {
  store = λ w raw. none;
  event_sink = some (λ w e. none);
  command_budget = budget;
}

abbrev start : World
start = record { transcript = []; delivered = [] }

abbrev good_run : List Arrival
good_run = line "use 1" ∷ line "done 1" ∷ line "verified" ∷ line "result" ∷ []

abbrev good_result : ClaudeRunResult
good_result = record {
  remote_command_seen = false;
  risk_pause = false;
  verification_outcome = Outcome.success;
}

good_run-returns :
    (run_process library Phase.executing (adapter none) good_run (some true) initial_stream start).1
    ≡ ok good_result
unfolding run_process is_closed has_key is_space
good_run-returns = refl

run_process-ends_example :
    (some true ≡ some true)
    × (n : ℕ) × (s : ParsedStream) × ((read_output library Phase.executing
          (adapter none)
          good_run
          0
          initial_stream
          start).1
        ≡ ok (n, s))
    × (count is_start s.events ≡ count is_finish s.events)
    × (before : List StreamEvent) × (s.events ≡ before ++ (session_finished ∷ []))
    × (count is_end before ≡ 0)
run_process-ends_example =
    run_process-ends library Phase.executing (adapter none) good_run (some true) start good_result
      good_run-returns

run_process-succeeds_example :
    (n : ℕ) × (s : ParsedStream) × ((read_output library Phase.executing
        (adapter none)
        good_run
        0
        initial_stream
        start).1
      ≡ ok (n, s))
    × (count is_verification s.events ≡ 1)
    × (s.risk_pause_seen ≡ false)
unfolding persist_result same_status
run_process-succeeds_example =
    run_process-succeeds library Phase.executing (adapter none) good_run (some true) start
      good_result (session Metadata.executing) good_run-returns refl refl

run_process-budget_example :
    count is_command
      (run_process library Phase.diagnosing
        (adapter (some 1))
        (line "use 1" ∷ line "use 2" ∷ [])
        (some true)
        initial_stream
        start).0.delivered
    ≤ 1
run_process-budget_example =
    run_process-budget library Phase.diagnosing (adapter (some 1)) 1
      (line "use 1" ∷ line "use 2" ∷ []) (some true) start refl refl

abbrev paused_stream : ParsedStream
paused_stream = record initial_stream { risk_pause_seen = true }

abbrev ended_stream : ParsedStream
ended_stream = record initial_stream { terminal_seen = true }

parse_line-paused_example :
    (all is_quiet (session_finished ∷ []) ≡ true)
    × (true ≡ true)
    × ([] ≡ paused_stream.open_tools)
    × (none ≡ paused_stream.verification_outcome)
unfolding parse_line is_closed has_key
parse_line-paused_example =
    parse_line-paused library Phase.executing "result" paused_stream
      (record ended_stream { risk_pause_seen = true; events = session_finished ∷ [] })
      (session_finished ∷ []) refl refl

retry-IsUnavailable : IsUnavailable library "retry"
unfolding IsUnavailable strict_json_loads is_closed has_key get
retry-IsUnavailable = (retry, refl, refl, refl, refl)

adapter-IsTaking : IsTaking (adapter none)
adapter-IsTaking = record {
  stores = λ w raw. refl;
  sink = λ w e. none;
  given = refl;
  takes = λ w e. refl;
}

read_output-retries_example :
    (read_output library inspecting
      (adapter none)
      (line "retry" ∷ line "retry" ∷ line "retry" ∷ line "result" ∷ [])
      0
      initial_stream
      start).1
    ≡ err claude_provider_retry_limit
read_output-retries_example =
    read_output-retries library (adapter none) ("retry" ∷ "retry" ∷ "retry" ∷ [])
      (line "result" ∷ []) 0 initial_stream start adapter-IsTaking
      (retry-IsUnavailable, (retry-IsUnavailable, (retry-IsUnavailable, tt))) refl refl
      (omega arith) refl
