-- ===== src/Session/Control/Replay.antt =====
-- What control operations leave alone, and what the same command finds when it comes again.
use text.Mathlib.TextPositions.{eq_refl}
use aiops_runner.Prelude.{
  ℕ, ◌≡◌, refl, ap, ◌∙◌, inl, inr, ◌≢◌, String, Bool, true, false, Option, none, some, arith,
  is_some, Bool-cases, Option-cases, not, ◌&&◌,
}
use aiops_runner.Contract.Outcome.{
  ControlOutcome, closed, stopped_confirmed, stop_uncertain, invalid_intent, already_applied,
}
use aiops_runner.Session.Metadata.{
  LocalStatus, manual_intervention, is_active, is_waiting, is_running, is_local_terminal,
  same_status_refl, Metadata,
}
use aiops_runner.Session.Registry.{Registry, contains, cancel_process}
use aiops_runner.Session.Control.Certainty.{stop_active_claimed, may_claim-is_running}
use aiops_runner.Session.Control.{
  State, Interference, quiet, ControlAction, close_waiting_session, stop_active_session,
  unknown_action, ControlReply, cancel, close_waiting, stop_active, apply_control_action,
  recorded_result, may_claim, stop_finish, stop_settle, stop_process, claim_stop, is_final_outcome,
}

is_local_terminal-cases :
    (t : LocalStatus)
    → is_local_terminal t ≡ true
    → (is_active t ≡ false) × (is_waiting t ≡ false) × (is_running t ≡ false)
unfolding is_local_terminal is_active is_waiting is_running
is_local_terminal-cases t h = ground arith

module _ (now : ℕ) (s : State) (ended : is_local_terminal s.metadata.status ≡ true) where
  cancel_terminal : (i : Interference) → cancel i now s ≡ (s, some s.metadata.status)
  unfolding cancel
  cancel_terminal i = ground (arith, is_local_terminal-cases s.metadata.status)

  apply_terminal :
      (command_id : String) (action : ControlAction) (desired : LocalStatus)
      → (apply_control_action quiet now command_id action desired s).0 ≡ s
  unfolding apply_control_action close_waiting stop_active may_claim
  apply_terminal command_id close_waiting_session desired =
      ground (arith, is_local_terminal-cases s.metadata.status)
  apply_terminal command_id stop_active_session desired =
      ground (arith, is_local_terminal-cases s.metadata.status)
  apply_terminal command_id unknown_action desired =
      ground (arith, is_local_terminal-cases s.metadata.status)

  -- On a session with a local terminal status, `cancel` returns that status and changes nothing,
  -- and, with no other thread at work, a control action changes nothing.
  pub control_terminal :
      (i : Interference) (command_id : String) (action : ControlAction) (desired : LocalStatus)
      → (cancel i now s ≡ (s, some s.metadata.status))
        × ((apply_control_action quiet now command_id action desired s).0 ≡ s)
  control_terminal i command_id action desired =
      (cancel_terminal i, apply_terminal command_id action desired)

module _ (now : ℕ) (command_id : String) (desired : LocalStatus) (s : State) where
  close_recorded :
      (b : Bool) (status : LocalStatus)
      → (close_waiting quiet command_id desired s).1 ≡ some (closed, b, status)
      → let t = (close_waiting quiet command_id desired s).0 in
        (recorded_result command_id t.metadata ≡ some b) × (t.metadata.status ≡ status)
  unfolding close_waiting recorded_result is_final_outcome
  close_recorded b status h = (
    ground (arith, same_status_refl s.metadata.status, eq_refl command_id),
    ground (arith, same_status_refl s.metadata.status),
  )

  settle_recorded :
      (certain : Bool) (t : State) (o : ControlOutcome) (b : Bool) (status : LocalStatus)
      → is_running t.metadata.status ≡ true
      → is_some t.metadata.cancel_requested_at ≡ true
      → (stop_settle command_id desired certain t).1 ≡ some (o, b, status)
      → let u = (stop_settle command_id desired certain t).0 in
        (recorded_result command_id u.metadata ≡ some b) × (u.metadata.status ≡ status)
  unfolding stop_settle stop_finish recorded_result is_final_outcome
  settle_recorded certain t o b status running asked h = (
    ground
        (arith, same_status_refl desired, same_status_refl manual_intervention, eq_refl command_id),
    ground (arith, same_status_refl desired, same_status_refl manual_intervention),
  )

  process_recorded :
      (claimed : Metadata) (r : Registry) (o : ControlOutcome) (b : Bool) (status : LocalStatus)
      → is_running claimed.status ≡ true
      → is_some claimed.cancel_requested_at ≡ true
      → (stop_process quiet command_id desired claimed
          (record { metadata = claimed; registry = r })).1
        ≡ some (o, b, status)
      → let u =
          (stop_process quiet command_id desired claimed
            (record { metadata = claimed; registry = r })).0 in
        (recorded_result command_id u.metadata ≡ some b) × (u.metadata.status ≡ status)
  unfolding stop_process
  process_recorded claimed r o b status running asked h =
      ended (cancel_process claimed.session_id r).0 refl
    where
      later : State
      later = record { metadata = claimed; registry = (cancel_process claimed.session_id r).1 }

      ended :
          (e : Option Bool)
          → (cancel_process claimed.session_id r).0 ≡ e
          → let u =
              (stop_process quiet command_id desired claimed
                (record { metadata = claimed; registry = r })).0 in
            (recorded_result command_id u.metadata ≡ some b) × (u.metadata.status ≡ status)
      ended none e = absurd (ground arith)
      ended (some stopped) e =
          rw (e, stop_process)
            (settle_recorded
              (contains claimed.session_id r && (stopped && not claimed.remote_command_seen)) later
              o b status running asked (rw (e, stop_process) at h))

  stop_recorded :
      (o : ControlOutcome) (b : Bool) (status : LocalStatus)
      → (o ≢ already_applied) × (o ≢ invalid_intent)
      → (stop_active quiet now command_id desired s).1 ≡ some (o, b, status)
      → let t = (stop_active quiet now command_id desired s).0 in
        (recorded_result command_id t.metadata ≡ some b) × (t.metadata.status ≡ status)
  stop_recorded o b status done h = elim (Bool-cases (may_claim command_id s.metadata)) [
    | inr refused ↦ absurd (refused_reply refused h)
    | inl claims ↦
        let e = stop_active_claimed quiet now command_id desired s claims in
        rw e (
          process_recorded (claim_stop now command_id s.metadata) s.registry o b status
            (may_claim-is_running quiet now command_id desired s s.metadata claims) refl
            (rw e at h))
  ]
    where
      refused_reply :
          may_claim command_id s.metadata ≡ false
          → (stop_active quiet now command_id desired s).1 ≢ some (o, b, status)
      refused_reply refused e = unfold stop_active in ground (arith, done.0, done.1)

-- The results that a command leaves behind in the journal.
abbrev pub is_lasting : ControlAction → ControlOutcome → Bool
is_lasting action closed = true
is_lasting action stopped_confirmed = true
is_lasting stop_active_session stop_uncertain = true
is_lasting _ _ = false

module _ (now : ℕ) (command_id : String) (s : State) where
  recorded_reply :
      (b : Bool) (action : ControlAction) (desired : LocalStatus)
      → recorded_result command_id s.metadata ≡ some b
      → apply_control_action quiet now command_id action desired s
        ≡ (s, some (already_applied, b, s.metadata.status))
  unfolding apply_control_action
  recorded_reply b action desired e = rw (e, apply_control_action)

  fresh_reply :
      (action : ControlAction) (desired : LocalStatus)
      → recorded_result command_id s.metadata ≡ none
      → apply_control_action quiet now command_id action desired s
        ≡ (elim action as (λ _. State × ControlReply) [
          | close_waiting_session ↦ close_waiting quiet command_id desired s
          | stop_active_session ↦ stop_active quiet now command_id desired s
          | unknown_action ↦ (s, some (invalid_intent, false, s.metadata.status))
        ])
  unfolding apply_control_action
  fresh_reply close_waiting_session desired e = rw (e, apply_control_action)
  fresh_reply stop_active_session desired e = rw (e, apply_control_action)
  fresh_reply unknown_action desired e = rw (e, apply_control_action)

  close-ne-stopped :
      (desired : LocalStatus) (b : Bool) (status : LocalStatus)
      → (close_waiting quiet command_id desired s).1 ≢ some (stopped_confirmed, b, status)
  unfolding close_waiting
  close-ne-stopped desired b status = ground arith

  lasting_recorded :
      (action : ControlAction) (desired : LocalStatus) (o : ControlOutcome) (b : Bool)
      (status : LocalStatus)
      → is_lasting action o ≡ true
      → recorded_result command_id s.metadata ≡ none
      → (apply_control_action quiet now command_id action desired s).1 ≡ some (o, b, status)
      → let t = (apply_control_action quiet now command_id action desired s).0 in
        (recorded_result command_id t.metadata ≡ some b) × (t.metadata.status ≡ status)
  lasting_recorded close_waiting_session desired closed b status l e h =
      let r = fresh_reply close_waiting_session desired e in
      rw r (close_recorded now command_id desired s b status (rw r at h))
  lasting_recorded close_waiting_session desired stopped_confirmed b status l e h =
      absurd
        (close-ne-stopped desired b status (rw (fresh_reply close_waiting_session desired e) at h))
  lasting_recorded stop_active_session desired o b status l e h =
      let r = fresh_reply stop_active_session desired e in
      rw r
        (stop_recorded now command_id desired s o b status (ground arith, ground arith) (rw r at h))
  lasting_recorded unknown_action desired o b status l e h =
      absurd (unknown (rw (fresh_reply unknown_action desired e) at h))
    where
      unknown :
          ◌≢◌ {A = ControlReply}
            (some (invalid_intent, false, s.metadata.status))
            (some (o, b, status))
      unknown k = ground arith
  lasting_recorded close_waiting_session desired _ b status l e h = cc

-- With no other thread at work, when a command was answered as closed, as stopped, or, for a stop, as
-- uncertain, then applying any action under the same command again, with any desired status, changes
-- nothing and is answered as already applied with the first answer's certainty and status.
pub apply_control_action-replayed :
    (now : ℕ) (command_id : String) (s : State) (action : ControlAction) (desired : LocalStatus)
    (o : ControlOutcome) (b : Bool) (status : LocalStatus) (later : ℕ) (action' : ControlAction)
    (desired' : LocalStatus)
    → is_lasting action o ≡ true
    → (apply_control_action quiet now command_id action desired s).1 ≡ some (o, b, status)
    → let t = (apply_control_action quiet now command_id action desired s).0 in
      apply_control_action quiet later command_id action' desired' t
      ≡ (t, some (already_applied, b, status))
apply_control_action-replayed now command_id s action desired o b status later action' desired' l
      h =
    elim (Option-cases (recorded_result command_id s.metadata)) [
      | inl fresh ↦
          let (stored, same) =
            lasting_recorded now command_id s action desired o b status l fresh h in
          recorded_reply later command_id
            (apply_control_action quiet now command_id action desired s).0 b action' desired' stored
          ∙ ap
              (λ st. (
                (apply_control_action quiet now command_id action desired s).0,
                some (already_applied, b, st),
              ))
              same
      | inr (certain, stored) ↦
          absurd (answered certain (recorded_reply now command_id s certain action desired stored))
    ]
  where
    answered :
        (certain : Bool)
        → apply_control_action quiet now command_id action desired s
          ≡ (s, some (already_applied, certain, s.metadata.status))
        → ⊥
    answered certain e = ground arith
