-- ===== src/Session/Outcome/Terminal.antt =====
-- Terminal statuses and the two ways in which a run of Claude ends.
use aiops_runner.Prelude.{◌≡◌, Bool, true, false, Option, arith, Bool-cases, inl, inr}
use aiops_runner.Session.Codes.{SessionCode}
use aiops_runner.Session.Metadata.{
  LocalStatus, diagnosing, executing, same_status, is_local_terminal, Metadata,
}
use aiops_runner.Session.Outcome.{
  ClaudeRunResult, persist_result, record_uncertain, uncertain_verdict, error_code,
}

pub not_running :
    (status : LocalStatus)
    → is_local_terminal status ≡ true
    → (same_status status executing ≡ false) × (same_status status diagnosing ≡ false)
unfolding is_local_terminal same_status
not_running status h = ground arith

-- On a session with a local terminal status, storing the result of a run changes nothing, and
-- neither does storing a failure, whatever other threads do meanwhile.
pub outcome_terminal :
    (result : ClaudeRunResult) (resumed : Bool) (meanwhile : Metadata → Metadata)
    (exc : Option SessionCode) (m : Metadata)
    → is_local_terminal m.status ≡ true
    → (persist_result result resumed m ≡ m) × ((record_uncertain meanwhile exc m).1 ≡ m)
unfolding persist_result record_uncertain
outcome_terminal result true meanwhile exc m ended =
    (ground (arith, not_running m.status ended), rw ended)
outcome_terminal result false meanwhile exc m ended =
    (ground (arith, not_running m.status ended), rw ended)

uncertain_verdict-terminal :
    (code : SessionCode) (status : LocalStatus)
    → is_local_terminal (uncertain_verdict code status).0 ≡ true
unfolding uncertain_verdict is_local_terminal
uncertain_verdict-terminal code status = ground arith

-- Whatever other threads do meanwhile, a session whose run failed is stored with a local terminal
-- status.
pub record_uncertain_ends :
    (meanwhile : Metadata → Metadata) (exc : Option SessionCode) (m : Metadata)
    → is_local_terminal (record_uncertain meanwhile exc m).1.status ≡ true
unfolding record_uncertain
record_uncertain_ends meanwhile exc m = elim (Bool-cases (is_local_terminal m.status)) [
  | inl ended ↦ rw (ended) ended
  | inr runs ↦ rw (runs) (uncertain_verdict-terminal (error_code exc) m.status)
]
