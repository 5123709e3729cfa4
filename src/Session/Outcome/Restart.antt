-- ===== src/Session/Outcome/Restart.antt =====
-- A restart settles every interrupted session and no other.
use aiops_runner.Prelude.{
  ◌≡◌, refl, sym, ◌∙◌, ℕ, arith, String, Bool, true, false, Option, none, some, is_some, List, [],
  ◌∷◌, map, if◌then◌else◌, All, Result, ok, ◌>>=◌, inl, inr, Bool-cases, ap, ap₂,
}
use aiops_runner.Session.Codes.{
  SessionCode, Reason, runner_recovered_incomplete_diagnosis, runner_recovered_incomplete_proposal,
  execution_result_unknown_after_restart,
}
use aiops_runner.Session.Metadata.{
  LocalStatus, diagnosing, proposal_generating, executing, manual_intervention, Metadata,
}
use aiops_runner.Session.Journal.Events.Recovery.{
  Reached, appended, append_event-recovers, next_event, after_append,
}
use aiops_runner.Session.Outcome.{
  Orphan, orphan_terminated, is_interrupted, recovered, recovery_reason, Stored, recover_session,
  recover_active_as_uncertain,
}

-- What a restart is to make of a status, with its reason; `none` is a status that stays.
abbrev pub settlement : LocalStatus → Option (LocalStatus × Reason)
settlement diagnosing = some (manual_intervention, runner_recovered_incomplete_diagnosis)
settlement proposal_generating = some (manual_intervention, runner_recovered_incomplete_proposal)
settlement executing = some (manual_intervention, execution_result_unknown_after_restart)
settlement _ = none

abbrev with_settlement : Option (LocalStatus × Reason) → Metadata → Metadata
with_settlement none m = m
with_settlement (some (status, reason)) m = record m {
  status = status;
  terminal_reason = some reason;
}

-- The records that a restart is to leave, and the sessions that it is to report.
abbrev pub settled : Metadata → Metadata
settled m = with_settlement (settlement m.status) m

abbrev pub interrupted_sessions : List Stored → List String
interrupted_sessions [] = []
interrupted_sessions (s ∷ ss) =
    let rest = interrupted_sessions ss in
    if is_some (settlement s.metadata.status) then s.metadata.session_id ∷ rest else rest

by_settlement :
    (status : LocalStatus) (m : Metadata)
    → m.status ≡ status
    → is_interrupted status ≡ true
    → recovered m ≡ with_settlement (settlement status) m
unfolding is_interrupted recovery_reason
by_settlement diagnosing m e h = rw e refl
by_settlement proposal_generating m e h = rw e refl
by_settlement executing m e h = rw e refl
by_settlement _ m e h = absurd (ground arith)

resting_settlement :
    (status : LocalStatus) → is_interrupted status ≡ false → settlement status ≡ none
unfolding is_interrupted
resting_settlement status h = ground arith

working_settlement :
    (status : LocalStatus) → is_interrupted status ≡ true → is_some (settlement status) ≡ true
unfolding is_interrupted
working_settlement status h = ground arith

resting-settled : (m : Metadata) → is_interrupted m.status ≡ false → m ≡ settled m
resting-settled m h = ap (λ o. with_settlement o m) (sym (resting_settlement m.status h))

module _ (digest : Bool → String → ℕ → String → String) (orphan : String → Orphan)
    (event_id now : String) where
  recover_session-Reached :
      (s : Stored)
      → Reached digest s.journal
      → (t : Stored) × (recover_session digest orphan event_id now s ≡ ok t)
        × (t.metadata ≡ recovered s.metadata)
        × Reached digest t.journal
  unfolding recover_session
  recover_session-Reached s reached =
      let body = orphan_terminated (orphan s.metadata.session_id) in
      let (es, r, m, a, later) = append_event-recovers digest body event_id now s.journal reached in
      (
        record {
          metadata = recovered s.metadata;
          journal = after_append (next_event digest body event_id now es) s.journal;
        },
        rw a,
        refl,
        appended body event_id now (next_event digest body event_id now es) reached a,
      )

abbrev pub IsSettled :
    (Bool → String → ℕ → String → String)
    → List Stored
    → List Stored × Result SessionCode (List String)
    → Type 0
IsSettled digest ss (rest, affected) =
    (map (λ s. s.metadata) rest ≡ map (λ s. settled s.metadata) ss)
    × (affected ≡ ok (interrupted_sessions ss))
    × All (λ s. Reached digest s.journal) rest

-- Where every session's journal was made by appends, whole or interrupted, a restart raises no error:
-- it gives each diagnosing, proposal generating and executing session the status for manual
-- intervention with the reason of its phase, leaves the record of every other session as it is, reports
-- exactly the sessions that it changed, and leaves journals that appends made.
pub recover_active-settles :
    (digest : Bool → String → ℕ → String → String) (orphan : String → Orphan)
    (event_id now : String) (ss : List Stored)
    → All (λ s. Reached digest s.journal) ss
    → IsSettled digest ss (recover_active_as_uncertain digest orphan event_id now ss)
unfolding recover_active_as_uncertain
recover_active-settles digest orphan event_id now [] reached = (refl, refl, tt)
recover_active-settles digest orphan event_id now (s ∷ ss) (reached, more) =
    let (m, a, r) = recover_active-settles digest orphan event_id now ss more in
    elim (Bool-cases (is_interrupted s.metadata.status)) [
      | inl running ↦
          let (t, e, k, j) = recover_session-Reached digest orphan event_id now s reached in
          rw (running, e, working_settlement s.metadata.status running)
            (
              ap₂ (λ x xs. x ∷ xs) (k ∙ by_settlement s.metadata.status s.metadata refl running) m,
              ap (λ x. x >>= λ ks. ok (s.metadata.session_id ∷ ks)) a,
              (j, r),
            )
      | inr rests ↦
          rw (rests, ap is_some (resting_settlement s.metadata.status rests))
            (ap₂ (λ x xs. x ∷ xs) (resting-settled s.metadata rests) m, a, (reached, r))
    ]
