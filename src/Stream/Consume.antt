-- ===== src/Stream/Consume.antt =====
-- How `ClaudeSessionAdapter` of runner/runner/trusted_session.py reads a process: every line goes to
-- the transcript, then to the parser, and the events go to the sink while the budget of commands
-- lasts. The world is what has been stored and delivered, on which the answers of the transcript
-- store and of the sink may depend.
pub mod Budget
pub mod Success
pub mod Retry
use aiops_runner.Prelude.{
  ℕ, suc, String, Bool, true, false, ◌&&◌, Option, none, some, List, [], ◌∷◌, ◌++◌, if◌then◌else◌,
  ltb, Result, ok, err, ◌>>=◌,
}
use aiops_runner.Session.Codes.{
  SessionCode, process_timeout, diagnosis_command_budget_exhausted, claude_provider_retry_limit,
}
use aiops_runner.Session.Outcome.{VerificationOutcome, failure, other_outcome, ClaudeRunResult}
use aiops_runner.Session.Outcome
use aiops_runner.Stream.Reading.{Library}
use aiops_runner.Stream.State.{
  Phase, Verification, success, failed, StreamEvent, command_started, ParsedStream,
}
use aiops_runner.Stream.Parser.{parse_line, finalize}

pub record World : Type 0 where
  pub transcript : List String
  pub delivered : List StreamEvent

-- What the queue gives before the end of the output: a line, or the deadline passes.
pub data Arrival : Type 0 where
  line : String → Arrival
  deadline : Arrival

-- The transcript store and the sink, which may raise, and the budget where there is one.
pub record Adapter : Type 0 where
  pub store : World → String → Option SessionCode
  pub event_sink : Option (World → StreamEvent → Option SessionCode)
  pub command_budget : Option ℕ

abbrev pub is_command : StreamEvent → Bool
is_command (command_started _ _ _ _) = true
is_command _ = false

abbrev pub exceeds : ℕ → Option ℕ → Bool
exceeds n none = false
exceeds n (some budget) = ltb budget n

abbrev raised : Option SessionCode → Result SessionCode (Unit {0})
raised none = ok tt
raised (some code) = err code

-- `command_count` after the event
abbrev pub counted : StreamEvent → ℕ → ℕ
counted e n = if is_command e then suc n else n

-- `event_sink(event)`, whose delivery counts where it raises too.
abbrev pub deliver : StreamEvent → World → World
deliver e w = record w { delivered = w.delivered ++ (e ∷ []) }

-- The rest of the loop once the sink has answered.
unfoldable pub after_sink :
    Option SessionCode → World → World × Result SessionCode ℕ → World × Result SessionCode ℕ
after_sink none w rest = rest
after_sink (some code) w rest = (w, err code)

-- `for event in parsed_events`
unfoldable pub sink_events :
    Option ℕ
    → (World → StreamEvent → Option SessionCode)
    → List StreamEvent
    → ℕ
    → World
    → World × Result SessionCode ℕ
unfolding after_sink
sink_events budget sink [] n w = (w, ok n)
sink_events budget sink (e ∷ es) n w =
    let rest = sink_events budget sink es (counted e n) (deliver e w) in
    if is_command e && exceeds (suc n) budget
    then (w, err diagnosis_command_budget_exhausted)
    else after_sink (sink w e) (deliver e w) rest

unfoldable pub sink_made : Adapter → List StreamEvent → ℕ → World → World × Result SessionCode ℕ
unfolding sink_events
sink_made adapter made n w = elim adapter.event_sink [
  | none ↦ (w, ok n)
  | some sink ↦ sink_events adapter.command_budget sink made n w
]

-- `parser.state.early_failure is not None`
abbrev pub early : ParsedStream → Result SessionCode (Unit {0})
early s = elim s.early_failure [ none ↦ ok tt | some _ ↦ err claude_provider_retry_limit ]

abbrev pub Reading : Type 0
Reading = World × Result SessionCode (ℕ × ParsedStream)

abbrev pub write : String → World → World
write raw w = record w { transcript = w.transcript ++ (raw ∷ []) }

-- What the parser made of a line goes to the sink.
unfoldable pub read_parsed :
    Adapter → ℕ → World → Result SessionCode (List StreamEvent × ParsedStream) → Reading
unfolding sink_made
read_parsed adapter n w (err code) = (w, err code)
read_parsed adapter n w (ok parsed) =
    let sunk = sink_made adapter parsed.0 n w in
    (sunk.0, sunk.1 >>= λ count. early parsed.1 >>= λ u. ok (count, parsed.1))

-- The line once the transcript store has answered.
unfoldable pub read_stored : Option SessionCode → World → Reading → Reading
read_stored none w reading = reading
read_stored (some code) w reading = (w, err code)

-- One turn of the loop for a line.
unfoldable pub read_line : Library → Phase → Adapter → String → ℕ → ParsedStream → World → Reading
unfolding read_parsed read_stored parse_line
read_line lib phase adapter raw n s w =
    read_stored (adapter.store w raw) w
      (read_parsed adapter n (write raw w) (parse_line lib phase raw s))

-- The turns from a state, which `next` carries on.
abbrev pub resume_from : (ℕ → ParsedStream → World → Reading) → Reading → Reading
resume_from next (w, err code) = (w, err code)
resume_from next (w, ok (n, s)) = next n s w

unfoldable pub read_output :
    Library → Phase → Adapter → List Arrival → ℕ → ParsedStream → World → Reading
unfolding read_line
read_output lib phase adapter [] n s w = (w, ok (n, s))
read_output lib phase adapter (deadline ∷ rest) n s w = (w, err process_timeout)
read_output lib phase adapter (line raw ∷ rest) n s w =
    resume_from (read_output lib phase adapter rest) (read_line lib phase adapter raw n s w)

-- The outcome as `_persist_result` reads it.
abbrev pub outcome_of : Option Verification → VerificationOutcome
outcome_of (some success) = Outcome.success
outcome_of (some failed) = failure
outcome_of _ = other_outcome

abbrev pub run_result : ParsedStream → ClaudeRunResult
run_result s = record {
  remote_command_seen = s.remote_command_seen;
  risk_pause = s.risk_pause_seen;
  verification_outcome = outcome_of s.verification_outcome;
}

-- The end of the process: `none` where it outlives the deadline, else whether it returned 0.
unfoldable pub finish_run : Option Bool → ParsedStream → Result SessionCode ClaudeRunResult
unfolding finalize
finish_run none s = err process_timeout
finish_run (some exited_normally) s = finalize exited_normally s >>= λ u. ok (run_result s)

-- The run once the process is started and its prompt written.
unfoldable pub run_process :
    Library
    → Phase
    → Adapter
    → List Arrival
    → Option Bool
    → ParsedStream
    → World
    → World × Result SessionCode ClaudeRunResult
unfolding read_output finish_run
run_process lib phase adapter arrivals exit s w =
    let reading = read_output lib phase adapter arrivals 0 s w in
    (reading.0, reading.1 >>= λ done. finish_run exit done.1)
