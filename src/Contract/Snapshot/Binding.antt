-- ===== src/Contract/Snapshot/Binding.antt =====
-- What an accepted snapshot guarantees about its Claude and proposal bindings.
use aiops_runner.Prelude.{
  ◌≡◌, ◌⊎◌, String, Bool, true, Option, none, some, List, [], ◌∷◌, arith, holds_text→eq,
  is_some→some, ok, All,
}
use aiops_runner.Contract.Lifecycle.{preparing, diagnosing, manual_intervention}
use aiops_runner.Contract.Snapshot.{
  RepairSession, validate_repair_session_semantics, needs_proposal, proposal_bound, check_rebinding,
  check_previous, check_claude_binding, check_proposal_binding,
}

module _ (conforms : RepairSession → Bool) (session : RepairSession) (received : Bool) where
  -- The checks that an accepted snapshot has passed.
  passed_checks :
      (previous : Option RepairSession)
      → validate_repair_session_semantics conforms session previous received ≡ ok tt
      → (check_previous conforms session previous received ≡ ok tt)
        × (check_claude_binding session previous received ≡ ok tt)
        × (check_proposal_binding session ≡ ok tt)
  unfolding validate_repair_session_semantics
  passed_checks previous h = (ground arith, ground arith, ground arith)

  passed_rebinding :
      (previous : RepairSession)
      → validate_repair_session_semantics conforms session (some previous) received ≡ ok tt
      → check_rebinding session previous received ≡ ok tt
  passed_rebinding previous h = rebinding (passed_checks (some previous) h).0
    where
      rebinding :
          check_previous conforms session (some previous) received ≡ ok tt
          → check_rebinding session previous received ≡ ok tt
      rebinding e = unfold check_previous in ground arith

  -- A new binding is legal in two situations only.
  abbrev pub IsNewBinding : RepairSession → Type 0
  IsNewBinding previous =
      (previous.status ≡ preparing) × (session.status ≡ diagnosing)
      ⊎ (previous.status ≡ manual_intervention)
        × (session.status ≡ manual_intervention)
        × (received ≡ true)

  pub validate-binding_kept :
      (previous : RepairSession) (c : String)
      → validate_repair_session_semantics conforms session (some previous) received ≡ ok tt
      → previous.claude_session_id ≡ some c
      → session.claude_session_id ≡ some c
  unfolding check_rebinding
  validate-binding_kept previous c h bound =
      ground (arith, passed_rebinding previous h, holds_text→eq session.claude_session_id c)

  -- A snapshot that is accepted after one with no Claude session and that has one goes from
  -- PREPARING to DIAGNOSING, or stays in MANUAL_INTERVENTION with a runner's event received.
  pub validate-IsNewBinding :
      (previous : RepairSession) (c : String)
      → validate_repair_session_semantics conforms session (some previous) received ≡ ok tt
      → previous.claude_session_id ≡ none
      → session.claude_session_id ≡ some c
      → IsNewBinding previous
  unfolding check_rebinding
  validate-IsNewBinding previous c h unbound bound = ground (arith, passed_rebinding previous h)

  -- An accepted snapshot whose status needs a proposal has a Claude session and all three members of
  -- the proposal's binding.
  pub validate-bound :
      (previous : Option RepairSession)
      → validate_repair_session_semantics conforms session previous received ≡ ok tt
      → needs_proposal session.status ≡ true
      → ((c : String) × (session.claude_session_id ≡ some c)) × (proposal_bound session ≡ true)
  unfolding check_claude_binding check_proposal_binding
  validate-bound previous h needed =
      let (_, claude, proposal) = passed_checks previous h in
      (is_some→some session.claude_session_id (ground arith), ground arith)

-- A chain of snapshots, each accepted against the one before it.
abbrev pub AcceptedFrom :
    (RepairSession → Bool) → RepairSession → List (RepairSession × Bool) → Type 0
AcceptedFrom conforms previous [] = Unit
AcceptedFrom conforms previous ((session, received) ∷ later) =
    (validate_repair_session_semantics conforms session (some previous) received ≡ ok tt)
    × AcceptedFrom conforms session later

-- In a chain of snapshots, each accepted against the one before it, all have the Claude session of the
-- first, when the first has one.
pub AcceptedFrom-binding_kept :
    (conforms : RepairSession → Bool) (first : RepairSession) (later : List (RepairSession × Bool))
    (c : String)
    → AcceptedFrom conforms first later
    → first.claude_session_id ≡ some c
    → All (λ p. p.0.claude_session_id ≡ some c) later
AcceptedFrom-binding_kept conforms first [] c h bound = tt
AcceptedFrom-binding_kept conforms first ((session, received) ∷ later) c (here, rest) bound =
    let kept = validate-binding_kept conforms session received first c here bound in
    (kept, AcceptedFrom-binding_kept conforms session later c rest kept)
