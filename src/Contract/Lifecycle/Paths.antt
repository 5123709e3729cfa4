-- ===== src/Contract/Lifecycle/Paths.antt =====
-- What every run of the transition table satisfies.
use aiops_runner.Prelude.{
  ◌≡◌, refl, ◌↔◌, Bool, true, false, Option, none, some, List, [], ◌∷◌, ◌++◌, arith, ap,
}
use aiops_runner.Contract.Lifecycle.{
  RepairSessionStatus, RepairSessionEvent, is_terminal, transitions, preparing, diagnosing,
  pending_approval, executing, awaiting_risk_confirmation, succeeded, failed, cancelled,
  proposal_created, approval_granted, cancel_confirmed, rejected, expired, diagnosis_only,
  manual_intervention, runner_accepted, dispatch_failed,
}

-- The status after a list of events, if the table lists every step.
unfoldable pub run : RepairSessionStatus → List RepairSessionEvent → Option RepairSessionStatus
run s [] = some s
run s (e ∷ es) = elim (transitions s e) [ none ↦ none | some t ↦ run t es ]

-- The statuses that stand behind an executed repair.
unfoldable pub is_executed : RepairSessionStatus → Bool
is_executed executing = true
is_executed awaiting_risk_confirmation = true
is_executed succeeded = true
is_executed failed = true
is_executed _ = false

pub transitions-terminal :
    (s : RepairSessionStatus) (e : RepairSessionEvent)
    → is_terminal s ≡ true
    → transitions s e ≡ none
unfolding transitions is_terminal
transitions-terminal preparing e h = cc
transitions-terminal _ e h = ground arith

pub transitions-cancel_iff :
    (s : RepairSessionStatus)
    → (transitions s cancel_confirmed ≡ some cancelled) ↔ (is_terminal s ≡ false)
unfolding transitions is_terminal
transitions-cancel_iff preparing = ground arith
transitions-cancel_iff _ = ground arith

-- A run that starts in a status that ended without execution stays without execution.
run-ended :
    (s t : RepairSessionStatus) (es : List RepairSessionEvent)
    → is_terminal s ≡ true
    → is_executed s ≡ false
    → run s es ≡ some t
    → is_executed t ≡ false
unfolding run
run-ended s t [] h n r = ground arith
run-ended s t (e ∷ es) h n r = ground (arith, transitions-terminal s e)

pending-approval :
    (t : RepairSessionStatus) (es : List RepairSessionEvent)
    → run pending_approval es ≡ some t
    → is_executed t ≡ true
    → (ys zs : List RepairSessionEvent) × (es ≡ ys ++ (approval_granted ∷ zs))
unfolding run transitions is_executed is_terminal
pending-approval t [] r h = ground arith
pending-approval t (approval_granted ∷ es) r h = ([], es, refl)
pending-approval t (_ ∷ es) r h =
    absurd
      (ground (arith, run-ended rejected t es, run-ended expired t es, run-ended cancelled t es))

diagnosing-approval :
    (t : RepairSessionStatus) (es : List RepairSessionEvent)
    → run diagnosing es ≡ some t
    → is_executed t ≡ true
    → (xs ys zs : List RepairSessionEvent) × (es
        ≡ xs ++ (proposal_created ∷ (ys ++ (approval_granted ∷ zs))))
unfolding run transitions is_executed is_terminal
diagnosing-approval t [] r h = ground arith
diagnosing-approval t (proposal_created ∷ es) r h =
    let (ys, zs, e) = pending-approval t es r h in ([], ys, zs, ap (λ l. proposal_created ∷ l) e)
diagnosing-approval t (_ ∷ es) r h = absurd (
    ground (
      arith,
      run-ended diagnosis_only t es,
      run-ended RepairSessionStatus.diagnosis_failed t es,
      run-ended cancelled t es,
      run-ended manual_intervention t es,
    ))

-- Every list of events that the transition table takes from PREPARING to an executing status, a wait
-- for a risk confirmation, a success or a failure holds `proposal_created`, and `approval_granted`
-- behind it.
pub preparing-approval :
    (t : RepairSessionStatus) (es : List RepairSessionEvent)
    → run preparing es ≡ some t
    → is_executed t ≡ true
    → (xs ys zs : List RepairSessionEvent) × (es
        ≡ xs ++ (proposal_created ∷ (ys ++ (approval_granted ∷ zs))))
unfolding run transitions is_executed is_terminal
preparing-approval t [] r h = ground arith
preparing-approval t (runner_accepted ∷ es) r h =
    let (xs, ys, zs, e) = diagnosing-approval t es r h in
    (runner_accepted ∷ xs, ys, zs, ap (λ l. runner_accepted ∷ l) e)
preparing-approval t (_ ∷ es) r h = absurd (
    ground (
      arith,
      run-ended dispatch_failed t es,
      run-ended cancelled t es,
      run-ended manual_intervention t es,
    ))
