-- ===== src/Session/Control.antt =====
-- `cancel` and `apply_control_action` of the orchestrator in runner/runner/trusted_session.py.
-- The journal lock of a session is not held from one critical section to the next, nor from the claim to
-- the lifecycle gate: what other threads do in between is the argument `Interference`, arbitrary
-- functions on the state. The claimed metadata is the copy that the claim returned.
pub mod Certainty
pub mod Replay
use aiops_runner.Prelude.{
  ℕ, String, Bool, true, false, not, ◌&&◌, ◌||◌, Option, none, some, if◌then◌else◌, is_some,
  holds_text,
}
use aiops_runner.Session.Codes.{
  Reason, no_active_process, remote_process_uncertain, local_process_unconfirmed,
  local_process_stopped, control_stop_confirmed, control_stop_result_uncertain,
}
use aiops_runner.Contract.Outcome.{
  ControlOutcome, closed, stopped_confirmed, stop_uncertain, invalid_intent, already_applied,
}
use aiops_runner.Session.Metadata.{
  LocalStatus, cancelled, manual_intervention, same_status, is_active, is_waiting, is_running,
  Metadata,
}
use aiops_runner.Session.Registry.{Registry, contains, cancel_process}

pub record State : Type 0 where
  pub metadata : Metadata
  pub registry : Registry

pub record Interference : Type 0 where
  pub before_claim : State → State
  pub before_seal : State → State
  pub before_signal : State → State
  pub before_finish : State → State

abbrev pub quiet : Interference
quiet = record {
  before_claim = λ s. s;
  before_seal = λ s. s;
  before_signal = λ s. s;
  before_finish = λ s. s;
}

pub data ControlAction : Type 0 where
  close_waiting_session stop_active_session unknown_action : ControlAction

-- `(receipt_outcome, command_result_certain, local_status)`, or nothing where waiting for the
-- killed process raised.
abbrev pub ControlReply : Type 0
ControlReply = Option (ControlOutcome × Bool × LocalStatus)

-- `status, reason` of `cancel`, after the process was signalled.
unfoldable pub cancel_verdict : Metadata → Bool → Bool → LocalStatus × Reason
cancel_verdict m had_process stopped =
    if is_waiting m.status && not had_process
    then (cancelled, no_active_process)
    else if m.remote_command_seen || not stopped
    then (
      manual_intervention,
      if m.remote_command_seen then remote_process_uncertain else local_process_unconfirmed,
    )
    else (cancelled, local_process_stopped)

-- The last critical section of `cancel`.
unfoldable pub cancel_finish : LocalStatus × Reason → Metadata → Metadata
cancel_finish verdict m =
    if is_active m.status && is_some m.cancel_requested_at
    then record m { status = verdict.0; terminal_reason = some verdict.1 }
    else m

-- The status that is returned, or nothing where waiting for the killed process raised.
unfoldable pub cancel : Interference → ℕ → State → State × Option LocalStatus
unfolding cancel_verdict cancel_finish
cancel i now s =
    let m = s.metadata in
    if is_active m.status
    then (let claimed = record m { cancel_requested_at = some now } in
        let g = i.before_signal (record s { metadata = claimed }) in
        let had_process = contains m.session_id g.registry in
        let (ended, r) = cancel_process m.session_id g.registry in
        elim ended [
          | none ↦ (record g { registry = r }, none)
          | some stopped ↦
              let t = i.before_finish (record g { registry = r }) in
              let final = cancel_finish (cancel_verdict claimed had_process stopped) t.metadata in
              (record t { metadata = final }, some final.status)
        ])
    else (s, some m.status)

-- `last_control_outcome in {"CLOSED", "STOPPED_CONFIRMED", "STOP_UNCERTAIN", "INVALID_INTENT"}`
unfoldable pub is_final_outcome : Option ControlOutcome → Bool
is_final_outcome none = false
is_final_outcome (some already_applied) = false
is_final_outcome (some _) = true

-- The stored certainty, where this command has left its result behind.
unfoldable pub recorded_result : String → Metadata → Option Bool
recorded_result command_id m =
    if holds_text m.last_control_command_id command_id && is_final_outcome m.last_control_outcome
    then m.last_control_result_certain
    else none

unfoldable pub seal : String → LocalStatus → Metadata → Metadata
seal command_id desired m = record m {
  status = desired;
  locally_sealed = true;
  last_control_command_id = some command_id;
  last_control_outcome = some closed;
  last_control_result_certain = some true;
}

unfoldable pub close_waiting : Interference → String → LocalStatus → State → State × ControlReply
unfolding seal
close_waiting i command_id desired s₀ =
    let s = i.before_claim s₀ in
    let status = s.metadata.status in
    if same_status status desired
    then (s, some (already_applied, true, status))
    else if not (is_waiting status)
    then (s, some (invalid_intent, false, status))
    else if contains s.metadata.session_id s.registry
    then (s, some (stop_uncertain, false, status))
    else (let t = i.before_seal s in
        let sealed =
          if same_status t.metadata.status status
          then seal command_id desired t.metadata
          else t.metadata in
        (
          record t { metadata = sealed },
          if same_status sealed.status desired
              then some (closed, true, desired)
              else some (invalid_intent, false, sealed.status),
        ))

unfoldable pub may_claim : String → Metadata → Bool
may_claim command_id m =
    is_running m.status
    && (not (is_some m.cancel_requested_at) || holds_text m.last_control_command_id command_id)

-- The last critical section of a stop.
unfoldable pub stop_finish : String → LocalStatus → Bool → Metadata → Metadata
stop_finish command_id local_status certain m =
    if is_running m.status && is_some m.cancel_requested_at
    then record m {
      status = local_status;
      terminal_reason =
          some (if certain then control_stop_confirmed else control_stop_result_uncertain);
      control_stop_confirmed = certain;
      last_control_command_id = some command_id;
      last_control_outcome = some (if certain then stopped_confirmed else stop_uncertain);
      last_control_result_certain = some certain;
    }
    else m

-- The outcome of the last critical section, in the state that it finds.
unfoldable pub stop_settle : String → LocalStatus → Bool → State → State × ControlReply
stop_settle command_id desired certain t =
    let local_status = if certain then desired else manual_intervention in
    let updated = stop_finish command_id local_status certain t.metadata in
    (
      record t { metadata = updated },
      if same_status updated.status local_status
          then some (if certain then stopped_confirmed else stop_uncertain, certain, local_status)
          else some (stop_uncertain, false, updated.status),
    )

abbrev pub claim_stop : ℕ → String → Metadata → Metadata
claim_stop now command_id m = record m {
  cancel_requested_at = some now;
  last_control_command_id = some command_id;
}

-- Signalling the process under the lifecycle gate, in the state that is found there, and the
-- certainty of the result.
unfoldable pub stop_process :
    Interference → String → LocalStatus → Metadata → State → State × ControlReply
stop_process i command_id desired claimed g =
    let (ended, r) = cancel_process claimed.session_id g.registry in
    elim ended [
      | none ↦ (record g { registry = r }, none)
      | some stopped ↦
          stop_settle command_id desired
            (contains claimed.session_id g.registry && (stopped && not claimed.remote_command_seen))
            (i.before_finish (record g { registry = r }))
    ]

unfoldable pub stop_active : Interference → ℕ → String → LocalStatus → State → State × ControlReply
unfolding may_claim
stop_active i now command_id desired s₀ =
    let s = i.before_claim s₀ in
    let m = s.metadata in
    if may_claim command_id m
    then (let claimed = claim_stop now command_id m in
        stop_process i command_id desired claimed
          (i.before_signal (record s { metadata = claimed })))
    else (
      s,
      if same_status m.status desired && m.control_stop_confirmed
          then some (already_applied, true, m.status)
          else some (invalid_intent, false, m.status),
    )

unfoldable pub apply_control_action :
    Interference → ℕ → String → ControlAction → LocalStatus → State → State × ControlReply
unfolding recorded_result
apply_control_action i now command_id action desired s =
    elim (recorded_result command_id s.metadata) [
      | some certain ↦ (s, some (already_applied, certain, s.metadata.status))
      | none ↦ elim action [
        | close_waiting_session ↦ close_waiting i command_id desired s
        | stop_active_session ↦ stop_active i now command_id desired s
        | unknown_action ↦
            (i.before_claim s, some (invalid_intent, false, (i.before_claim s).metadata.status))
      ]
    ]
