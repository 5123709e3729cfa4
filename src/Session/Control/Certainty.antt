-- ===== src/Session/Control/Certainty.antt =====
-- What a certain answer to a control intent means, whatever other threads do in between.
use aiops_runner.Prelude.{
  ℕ, ◌≡◌, refl, inl, inr, ◌≢◌, String, Bool, true, false, Option, none, some, arith, Bool-cases,
  Option-cases, not, ◌&&◌,
}
use aiops_runner.Contract.Outcome.{
  closed, stopped_confirmed, stop_uncertain, invalid_intent, already_applied,
}
use aiops_runner.Session.Metadata.{LocalStatus, is_running, same_status→eq, Metadata}
use aiops_runner.Session.Registry.{contains, cancel_process}
use aiops_runner.Session.Control.{
  State, Interference, ControlAction, close_waiting_session, stop_active_session, unknown_action,
  ControlReply, close_waiting, stop_active, apply_control_action, recorded_result, may_claim,
  stop_finish, stop_settle, stop_process, claim_stop,
}

-- A reply that claims nothing certain is an uncertain stop or a refusal, and these claim nothing.
abbrev pub IsCoherent : ControlReply → Type 0
IsCoherent none = Unit
IsCoherent (some (closed, certain, status)) = certain ≡ true
IsCoherent (some (stopped_confirmed, certain, status)) = certain ≡ true
IsCoherent (some (stop_uncertain, certain, status)) = certain ≡ false
IsCoherent (some (invalid_intent, certain, status)) = certain ≡ false
IsCoherent (some (already_applied, certain, status)) = Unit

module _ (i : Interference) (now : ℕ) (command_id : String) (desired : LocalStatus)
    (s : State) where
  close_waiting-IsCoherent : IsCoherent (close_waiting i command_id desired s).1
  unfolding close_waiting
  close_waiting-IsCoherent = ground arith

  stop_active-IsCoherent : IsCoherent (stop_active i now command_id desired s).1
  unfolding stop_active stop_process stop_settle cancel_process
  stop_active-IsCoherent = ground arith

  -- The certainty of every reply agrees with its outcome, whatever other threads do in between: closed
  -- and stopped are certain, an uncertain stop and an invalid intent are not.
  pub apply_control_action-IsCoherent :
      (action : ControlAction)
      → IsCoherent (apply_control_action i now command_id action desired s).1
  unfolding apply_control_action
  apply_control_action-IsCoherent action =
      elim (Option-cases (recorded_result command_id s.metadata)) [
        | inr (certain, stored) ↦ rw (stored, apply_control_action) tt
        | inl fresh ↦ rw (fresh, apply_control_action) (by_action action)
      ]
    where
      by_action :
          (action : ControlAction)
          → IsCoherent
              (elim action as (λ _. State × ControlReply) [
                | close_waiting_session ↦ close_waiting i command_id desired s
                | stop_active_session ↦ stop_active i now command_id desired s
                | unknown_action ↦ (
                  i.before_claim s,
                  some (invalid_intent, false, (i.before_claim s).metadata.status),
                )
              ]).1
      by_action close_waiting_session = close_waiting-IsCoherent
      by_action stop_active_session = stop_active-IsCoherent
      by_action unknown_action = refl

  -- What other threads make of the claim's state until the lifecycle gate is taken.
  abbrev pub at_signal : State
  at_signal = i.before_signal (record (i.before_claim s) {
    metadata = claim_stop now command_id (i.before_claim s).metadata;
  })

  -- What a confirmed stop found: at its claim, and, of the registry, under the lifecycle gate.
  abbrev pub WasStopped : Type 0
  WasStopped =
      (is_running (i.before_claim s).metadata.status ≡ true)
      × (contains (i.before_claim s).metadata.session_id at_signal.registry ≡ true)
      × ((cancel_process (i.before_claim s).metadata.session_id at_signal.registry).0 ≡ some true)
      × ((i.before_claim s).metadata.remote_command_seen ≡ false)

  stop_settle-confirmed :
      (certain : Bool) (t : State) (c : Bool) (status : LocalStatus)
      → (stop_settle command_id desired certain t).1 ≡ some (stopped_confirmed, c, status)
      → (certain ≡ true)
        × (status ≡ desired)
        × ((stop_settle command_id desired certain t).0.metadata.status ≡ desired)
  unfolding stop_settle
  stop_settle-confirmed certain t c status h = (
    ground arith,
    ground arith,
    ground (arith, same_status→eq (stop_finish command_id desired true t.metadata).status desired),
  )

  stop_process-confirmed :
      (claimed : Metadata) (g : State) (c : Bool) (status : LocalStatus)
      → (stop_process i command_id desired claimed g).1 ≡ some (stopped_confirmed, c, status)
      → (contains claimed.session_id g.registry ≡ true)
        × ((cancel_process claimed.session_id g.registry).0 ≡ some true)
        × (claimed.remote_command_seen ≡ false)
        × (status ≡ desired)
        × ((stop_process i command_id desired claimed g).0.metadata.status ≡ desired)
  unfolding stop_process
  stop_process-confirmed claimed g c status h =
      ended (cancel_process claimed.session_id g.registry).0 refl
    where
      certain : Bool → Bool
      certain stopped =
          contains claimed.session_id g.registry && (stopped && not claimed.remote_command_seen)

      later : State
      later =
          i.before_finish (record g { registry = (cancel_process claimed.session_id g.registry).1 })

      ended :
          (o : Option Bool)
          → (cancel_process claimed.session_id g.registry).0 ≡ o
          → (contains claimed.session_id g.registry ≡ true)
            × ((cancel_process claimed.session_id g.registry).0 ≡ some true)
            × (claimed.remote_command_seen ≡ false)
            × (status ≡ desired)
            × ((stop_process i command_id desired claimed g).0.metadata.status ≡ desired)
      ended none e = absurd (ground arith)
      ended (some stopped) e =
          let (sure, same, final) =
            stop_settle-confirmed (certain stopped) later c status (rw (e, stop_process) at h) in
          (ground arith, ground arith, ground arith, same, rw (e, stop_process) final)

  pub stop_active_claimed :
      may_claim command_id (i.before_claim s).metadata ≡ true
      → stop_active i now command_id desired s
        ≡ stop_process i command_id desired
            (claim_stop now command_id (i.before_claim s).metadata)
            at_signal
  unfolding stop_active
  stop_active_claimed claims = rw claims

  stop_active_refused :
      (certain : Bool) (status : LocalStatus)
      → may_claim command_id (i.before_claim s).metadata ≡ false
      → (stop_active i now command_id desired s).1 ≢ some (stopped_confirmed, certain, status)
  unfolding stop_active
  stop_active_refused certain status refused = ground arith

  pub may_claim-is_running :
      (m : Metadata) → may_claim command_id m ≡ true → is_running m.status ≡ true
  unfolding may_claim
  may_claim-is_running m h = ground arith

  -- Whatever other threads do before the claim, between the claim and the lifecycle gate, and before the
  -- end, a stop is reported as confirmed only where the claim found the session running with no remote
  -- command seen, and where under the gate its process was registered and the registry's cancel
  -- answered that it had stopped; the status reported, and the session's status in the end, is then
  -- the desired one.
  pub stop_active-confirmed :
      (certain : Bool) (status : LocalStatus)
      → (stop_active i now command_id desired s).1 ≡ some (stopped_confirmed, certain, status)
      → WasStopped
        × (status ≡ desired)
        × ((stop_active i now command_id desired s).0.metadata.status ≡ desired)
  stop_active-confirmed certain status h =
      elim (Bool-cases (may_claim command_id (i.before_claim s).metadata)) [
        | inr refused ↦ absurd (stop_active_refused certain status refused h)
        | inl claims ↦
            let e = stop_active_claimed claims in
            let (there, signalled, local, same, final) =
              stop_process-confirmed (claim_stop now command_id (i.before_claim s).metadata)
                at_signal certain status (rw e at h) in
            (
              (may_claim-is_running (i.before_claim s).metadata claims, there, signalled, local),
              same,
              rw e final,
            )
      ]
