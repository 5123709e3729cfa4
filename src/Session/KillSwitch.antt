-- ===== src/Session/KillSwitch.antt =====
-- `activate_kill_switch` and `deactivate_kill_switch` of runner/runner/trusted_session.py. Locks
-- and records that fail raise an exception that is caught and counted: whether they fail in the
-- first and in the second loop over the sessions, and what other threads do to a record between
-- the two, are the argument `Environment`. The sessions are those that `activate_kill_switch` lists: what
-- is created after the listing, outside the lifecycle gate, is no part of the model.
pub mod Settled
use aiops_runner.Prelude.{
  ℕ, String, Bool, true, false, not, ◌&&◌, ◌||◌, Option, none, some, List, [], ◌∷◌, str_eq,
  if◌then◌else◌, is_some, map,
}
use aiops_runner.Session.Codes.{
  Reason, kill_switch_no_active_process, kill_switch_local_process_stopped,
  kill_switch_process_uncertain,
}
use aiops_runner.Session.Metadata.{
  LocalStatus, cancelled, manual_intervention, is_active, is_waiting, Metadata,
}
use aiops_runner.Session.Registry.{Registry, cancel_all}

-- `results.get(session_id, False)`
unfoldable pub was_stopped : String → List (String × Bool) → Bool
was_stopped k [] = false
was_stopped k ((j, stopped) ∷ results) = if str_eq j k then stopped else was_stopped k results

pub record Environment : Type 0 where
  pub claim_fails : String → Bool
  pub finish_fails : String → Bool
  pub meanwhile : Metadata → Metadata

-- `status, reason`
unfoldable pub kill_verdict : Bool → Metadata → LocalStatus × Reason
kill_verdict stopped claimed =
    if is_waiting claimed.status
    then (cancelled, kill_switch_no_active_process)
    else if stopped && not claimed.remote_command_seen
    then (cancelled, kill_switch_local_process_stopped)
    else (manual_intervention, kill_switch_process_uncertain)

-- The first loop's update of one record.
unfoldable pub kill_claim : ℕ → Metadata → Metadata
kill_claim now m = if is_active m.status then record m { cancel_requested_at = some now } else m

-- The second loop's update of one record.
unfoldable pub kill_finish : LocalStatus × Reason → Metadata → Metadata
kill_finish verdict m =
    if is_active m.status && is_some m.cancel_requested_at
    then record m { status = verdict.0; terminal_reason = some verdict.1 }
    else m

unfoldable pub is_claimed : Metadata → Bool
is_claimed m = is_active m.status && is_some m.cancel_requested_at

-- The second loop on a record that the first loop has tracked, and whether that failed.
unfoldable pub kill_settle : Bool → Bool → LocalStatus × Reason → Metadata → Metadata × Bool
unfolding kill_finish
kill_settle claimed fails verdict m =
    if not claimed then (m, false) else if fails then (m, true) else (kill_finish verdict m, false)

-- A record through both loops, and whether tracking it failed.
unfoldable pub kill_session : Environment → ℕ → List (String × Bool) → Metadata → Metadata × Bool
unfolding kill_claim kill_settle kill_verdict is_claimed
kill_session env now results m =
    if env.claim_fails m.session_id
    then (env.meanwhile m, true)
    else kill_settle (is_claimed (kill_claim now m)) (env.finish_fails m.session_id)
        (kill_verdict (was_stopped m.session_id results) (kill_claim now m))
        (env.meanwhile (kill_claim now m))

-- The switch's file, the identifiers in place of their digests: whether it is active, and whether the tracking of a session failed.
pub record KillSwitch : Type 0 where
  pub active : Bool
  pub record_tracking_errors : List String

pub record Runner : Type 0 where
  pub kill_switch : KillSwitch
  pub registry : Registry
  pub sessions : List Metadata

unfoldable pub failed_sessions :
    Environment → ℕ → List (String × Bool) → List Metadata → List String
unfolding kill_session
failed_sessions env now results [] = []
failed_sessions env now results (m ∷ ms) =
    let rest = failed_sessions env now results ms in
    if (kill_session env now results m).1 then m.session_id ∷ rest else rest

-- The processes are stopped first; the result says of each whether it has stopped.
unfoldable pub activate_kill_switch : Environment → ℕ → Runner → List (String × Bool) × Runner
unfolding kill_session failed_sessions
activate_kill_switch env now runner =
    let (results, registry) = cancel_all runner.registry in
    (
      results,
      record {
        kill_switch = record {
          active = true;
          record_tracking_errors = failed_sessions env now results runner.sessions;
        };
        registry = registry;
        sessions = map (λ m. (kill_session env now results m).0) runner.sessions;
      },
    )

unfoldable pub deactivate_kill_switch : Runner → Runner
deactivate_kill_switch runner = record runner {
  kill_switch = record { active = false; record_tracking_errors = [] };
}
