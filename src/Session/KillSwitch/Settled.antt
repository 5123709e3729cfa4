-- ===== src/Session/KillSwitch/Settled.antt =====
-- The kill switch ends the active sessions that it lists, and calls none cancelled that may still run.
use aiops_runner.Prelude.{
  ◌≡◌, ◌≢◌, ap, sym, ◌∙◌, refl, ℕ, String, Bool, true, false, List, [], ◌∷◌, is_some, All, arith,
  ◌⊎◌, inl, inr, map, Bool-cases,
}
use aiops_runner.Session.Codes.{Reason}
use aiops_runner.Session.Metadata.{LocalStatus, cancelled, is_active, is_waiting, Metadata}
use aiops_runner.Session.Registry.{cancel_all}
use aiops_runner.Session.KillSwitch.{
  was_stopped, Environment, kill_verdict, kill_claim, kill_finish, kill_settle, is_claimed,
  kill_session, failed_sessions, Runner, activate_kill_switch,
}

-- Other threads leave a request to cancel in place.
abbrev pub KeepsRequests : Environment → Type 0
KeepsRequests env =
    (m : Metadata)
    → is_some m.cancel_requested_at ≡ true
    → is_some (env.meanwhile m).cancel_requested_at ≡ true

kill_verdict-inactive :
    (stopped : Bool) (claimed : Metadata) → is_active (kill_verdict stopped claimed).0 ≡ false
unfolding kill_verdict is_active
kill_verdict-inactive stopped claimed = ground arith

kill_finish-inactive :
    (verdict : LocalStatus × Reason) (m : Metadata)
    → is_active verdict.0 ≡ false
    → is_some m.cancel_requested_at ≡ true
    → is_active (kill_finish verdict m).status ≡ false
unfolding kill_finish
kill_finish-inactive (status, reason) m v r = elim (Bool-cases (is_active m.status)) [
  | inl running ↦ rw (running, r) v
  | inr rests ↦ rw (rests) rests
]

-- A claimed session that still carries a request to cancel, and is settled without a failure.
kill_settle-inactive :
    (fails : Bool) (verdict : LocalStatus × Reason) (m : Metadata)
    → is_active verdict.0 ≡ false
    → is_some m.cancel_requested_at ≡ true
    → (kill_settle true fails verdict m).1 ≡ false
    → is_active (kill_settle true fails verdict m).0.status ≡ false
unfolding kill_settle
kill_settle-inactive true verdict m v r h = cc
kill_settle-inactive false verdict m v r h = kill_finish-inactive verdict m v r

true≢false : true ≢ false
true≢false e = cc

kill_claim-claims :
    (now : ℕ) (m : Metadata)
    → is_active m.status ≡ true
    → (is_claimed (kill_claim now m) ≡ true)
      × (is_some (kill_claim now m).cancel_requested_at ≡ true)
unfolding kill_claim is_claimed
kill_claim-claims now m running = rw running (rw running refl, refl)

kill_session_tracked :
    (env : Environment) (now : ℕ) (results : List (String × Bool)) (m : Metadata)
    → env.claim_fails m.session_id ≡ false
    → kill_session env now results m
      ≡ kill_settle
          (is_claimed (kill_claim now m))
          (env.finish_fails m.session_id)
          (kill_verdict (was_stopped m.session_id results) (kill_claim now m))
          (env.meanwhile (kill_claim now m))
unfolding kill_session
kill_session_tracked env now results m tracked = rw tracked

kill_session_failed :
    (env : Environment) (now : ℕ) (results : List (String × Bool)) (m : Metadata)
    → env.claim_fails m.session_id ≡ true
    → (kill_session env now results m).1 ≡ true
unfolding kill_session
kill_session_failed env now results m fails = rw fails

kill_session-inactive :
    (env : Environment) (now : ℕ) (results : List (String × Bool)) (m : Metadata)
    → KeepsRequests env
    → is_active m.status ≡ true
    → (kill_session env now results m).1 ≡ false
    → is_active (kill_session env now results m).0.status ≡ false
kill_session-inactive env now results m requests running h =
    elim (Bool-cases (env.claim_fails m.session_id)) [
      | inl fails ↦ absurd (true≢false (sym (kill_session_failed env now results m fails) ∙ h))
      | inr tracked ↦
          let (claimed, requested) = kill_claim-claims now m running in
          let verdict = kill_verdict (was_stopped m.session_id results) (kill_claim now m) in
          let found = env.meanwhile (kill_claim now m) in
          let e : kill_session env now results m
              ≡ kill_settle true (env.finish_fails m.session_id) verdict found =
            kill_session_tracked env now results m tracked
            ∙ ap (λ c. kill_settle c (env.finish_fails m.session_id) verdict found) claimed in
          ap (λ p. is_active p.0.status) e
          ∙ kill_settle-inactive (env.finish_fails m.session_id) verdict found
              (kill_verdict-inactive (was_stopped m.session_id results) (kill_claim now m))
              (requests (kill_claim now m) requested) (ap (λ p. p.1) (sym e) ∙ h)
    ]

failed_sessions-none :
    (env : Environment) (now : ℕ) (results : List (String × Bool)) (m : Metadata)
    (ms : List Metadata)
    → failed_sessions env now results (m ∷ ms) ≡ []
    → ((kill_session env now results m).1 ≡ false) × (failed_sessions env now results ms ≡ [])
unfolding failed_sessions
failed_sessions-none env now results m ms h = ground arith

-- The session was not active before, or is not active after.
abbrev pub IsEnded : Environment → ℕ → List (String × Bool) → Metadata → Type 0
IsEnded env now results m =
    (is_active m.status ≡ false) ⊎ (is_active (kill_session env now results m).0.status ≡ false)

sessions-IsEnded :
    (env : Environment) (now : ℕ) (results : List (String × Bool)) (ms : List Metadata)
    → KeepsRequests env
    → failed_sessions env now results ms ≡ []
    → All (IsEnded env now results) ms
sessions-IsEnded env now results [] requests h = tt
sessions-IsEnded env now results (m ∷ ms) requests h =
    let (f, g) = failed_sessions-none env now results m ms h in
    (
      elim (Bool-cases (is_active m.status)) [
        | inl running ↦ inr (kill_session-inactive env now results m requests running f)
        | inr rests ↦ inl rests
      ],
      sessions-IsEnded env now results ms requests g,
    )

-- Activating the kill switch sets it. Of the sessions that it lists, and whatever other threads do to
-- their records between its two loops except dropping a request to cancel, each that was active when
-- the first loop read it is not active when the second loop has left it, where no failure of the
-- tracking is reported. Sessions that are created or become active meanwhile are not covered.
pub activate_kill_switch-ends :
    (env : Environment) (now : ℕ) (runner : Runner)
    → KeepsRequests env
    → (activate_kill_switch env now runner).1.kill_switch.record_tracking_errors ≡ []
    → let (results, after) = activate_kill_switch env now runner in
      (after.kill_switch.active ≡ true)
      × (after.sessions ≡ map (λ m. (kill_session env now results m).0) runner.sessions)
      × All (IsEnded env now results) runner.sessions
unfolding activate_kill_switch
activate_kill_switch-ends env now runner requests h =
    (refl, refl, sessions-IsEnded env now (cancel_all runner.registry).0 runner.sessions requests h)

-- A session that the kill switch calls cancelled waited for a decision, or its process was stopped and
-- no remote command had been seen.
pub kill_verdict_cancelled :
    (stopped : Bool) (claimed : Metadata)
    → (kill_verdict stopped claimed).0 ≡ cancelled
    → (is_waiting claimed.status ≡ true)
      ⊎ ((stopped ≡ true) × (claimed.remote_command_seen ≡ false))
unfolding kill_verdict
kill_verdict_cancelled stopped claimed h = ground arith
