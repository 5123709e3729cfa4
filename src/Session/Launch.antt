-- ===== src/Session/Launch.antt =====
-- How an approved proposal is executed: `_enabled_for`, `_validate_binding`, `_pre_spawn`,
-- `_validate_initial_launch`, `resume` and `_resume_bound` of runner/runner/trusted_session.py. The
-- session lock is held from the load to the claim, but the journal is also written without it:
-- what other threads do between two steps is an arbitrary function on the metadata.
use aiops_runner.Prelude.{
  ℕ, String, Bool, true, false, not, ◌&&◌, Option, none, some, str_eq, leb, ◌==◌, if◌then◌else◌,
  is_some, Result, ok, err, ◌>>=◌, ◌>>◌, require, refuse, raised, found,
}
use aiops_runner.Session.Codes.{
  SessionCode, runner_identity_invalid, kill_switch_active, session_disabled, launch_cancelled,
  session_binding_mismatch, proposal_binding_mismatch, approval_time_invalid, proposal_corrupt,
  resume_state_changed, session_internal_uncertain, Reason,
}
use aiops_runner.Session.Codes
use aiops_runner.Session.Metadata.{
  LocalStatus, pending_approval, executing, expired, same_status, LaunchBinding, ProposalBinding,
  Metadata,
}
use aiops_runner.Session.Journal.Records.{Records, load_proposal}
use aiops_runner.Session.Outcome.{record_uncertain}

-- What the runner reads when it checks a launch: `none` is a clock that gives no aware time.
pub record Facts : Type 0 where
  pub identity_proven : Bool
  pub kill_switch : Bool
  pub enabled : Bool
  pub target_authorizer : String → Option SessionCode
  pub expected : LaunchBinding
  pub clock : Option ℕ

unfoldable pub enabled_for : Facts → String → Result SessionCode (Unit {0})
enabled_for facts target =
    require facts.identity_proven runner_identity_invalid
    >> refuse facts.kill_switch kill_switch_active
    >> require facts.enabled session_disabled
    >> raised (facts.target_authorizer target)

-- `value == other` for texts and numbers that may be missing.
abbrev pub same_text : Option String → Option String → Bool
same_text none none = true
same_text (some a) (some b) = str_eq a b
same_text _ _ = false

abbrev pub same_number : Option ℕ → Option ℕ → Bool
same_number none none = true
same_number (some a) (some b) = a == b
same_number _ _ = false

unfoldable pub same_launch : LaunchBinding → LaunchBinding → Bool
same_launch a b =
    str_eq a.os_user b.os_user
    && (str_eq a.cwd b.cwd
        && (str_eq a.session_store_dir b.session_store_dir
            && (str_eq a.config_fingerprint b.config_fingerprint
                && (str_eq a.runner_instance_id b.runner_instance_id
                    && str_eq a.config_path b.config_path))))

unfoldable pub same_proposal : ProposalBinding → ProposalBinding → Bool
same_proposal a b =
    same_number a.proposal_revision b.proposal_revision
    && (same_text a.proposal_hash_algorithm_id b.proposal_hash_algorithm_id
        && same_text a.proposal_hash b.proposal_hash)

-- `bool(metadata.get("claude_session_id"))`
abbrev pub is_named : Option String → Bool
is_named none = false
is_named (some s) = not (str_eq s "")

unfoldable pub validate_binding : Facts → Metadata → Result SessionCode (Unit {0})
unfolding same_launch
validate_binding facts m =
    require (is_named m.claude_session_id && same_launch m.launch facts.expected)
      session_binding_mismatch

-- A step on the metadata that may raise.
abbrev pub Step : Type 0 → Type 0
Step A = Metadata × Result SessionCode A

unfoldable pub guarded : {A : Type 0} → Result SessionCode (Unit {0}) → Metadata → Step A → Step A
guarded (ok u) m next = next
guarded (err code) m next = (m, err code)

-- The launch facts that `_pre_spawn` reads again.
unfoldable pub launch_guard : Facts → LocalStatus → Metadata → Result SessionCode (Unit {0})
unfolding enabled_for validate_binding
launch_guard facts expected_status m =
    enabled_for facts m.logical_target_id
    >> validate_binding facts m
    >> require (same_status m.status expected_status && not (is_some m.cancel_requested_at))
        launch_cancelled

unfoldable pub pre_spawn :
    Facts → LocalStatus → (Metadata → Step (Unit {0})) → Metadata → Step (Unit {0})
unfolding launch_guard guarded
pre_spawn facts expected_status binding_validator m =
    guarded (launch_guard facts expected_status m) m (binding_validator m)

-- `update_if` on the status, to EXPIRED.
unfoldable pub expire : LocalStatus → Metadata → Metadata
expire source m =
    if same_status m.status source
    then record m { status = expired; terminal_reason = some Codes.Reason.approval_expired }
    else m

-- What `proposal_validator` does: it raises, or returns a value that may be no text.
pub data Validated : Type 0 where
  invalid : Validated
  returned : Option String → Validated

-- `now` and `expires`, where both are aware.
abbrev pub both : Option ℕ → Option ℕ → Option (ℕ × ℕ)
both (some now) (some expires) = some (now, expires)
both _ _ = none

-- `_record_fingerprint`, the members of a proposal that bind it, and the validator.
pub record Checks (P : Type 0) : Type 0 where
  pub record_fingerprint : P → String
  pub binding_of : P → ProposalBinding
  pub proposal_validator : P → Validated

-- `_record_uncertain` for a proposal that cannot be validated again.
unfoldable pub corrupt : {A : Type 0} → Metadata → Step A
unfolding record_uncertain
corrupt m = ((record_uncertain (λ x. x) (some proposal_corrupt) m).1, err proposal_corrupt)

-- The members of the prompt that depend on the session.
pub record Prompt (P : Type 0) : Type 0 where
  pub session_id : String
  pub approved : ProposalBinding
  pub approved_proposal : P

module _ {P : Type 0} (checks : Checks P) where
  -- The hash that is compared: `none` where the validator raises.
  unfoldable pub computed_hash : P → Option (Option String)
  computed_hash p = elim (checks.proposal_validator p) [
    | invalid ↦ none
    | returned none ↦ some (checks.binding_of p).proposal_hash
    | returned (some h) ↦ some (some h)
  ]

  -- The stored proposal is the one that a binding and the metadata name.
  unfoldable pub is_bound : P → Option String → ProposalBinding → Option String → Bool
  unfolding same_proposal
  is_bound p hash binding content_fingerprint =
      same_proposal (record (checks.binding_of p) { proposal_hash = hash }) binding
      && same_text (some (checks.record_fingerprint p)) content_fingerprint

  unfoldable pub check_stored :
      {R : Type 0} → Records P R → ProposalBinding → Metadata → Result SessionCode (Unit {0})
  unfolding load_proposal computed_hash is_bound
  check_stored files approved m = load_proposal checks.record_fingerprint files >>= λ p.
      found (computed_hash p) session_internal_uncertain >>= λ hash.
      require (is_bound p hash approved m.proposal_content_fingerprint) proposal_corrupt

  -- The checks of `_validate_initial_launch` once the times are known.
  unfoldable pub launch_at :
      {R : Type 0} → Option (ℕ × ℕ) → Records P R → ProposalBinding → Metadata → Step (Unit {0})
  unfolding expire check_stored
  launch_at none files approved m = (m, err approval_time_invalid)
  launch_at (some (now, expires)) files approved m =
      if leb expires now
      then (expire executing m, err Codes.SessionCode.approval_expired)
      else (m, check_stored files approved m)

  unfoldable pub validate_initial_launch :
      {R : Type 0} → Facts → Records P R → ProposalBinding → Metadata → Step (Unit {0})
  unfolding same_proposal launch_at
  validate_initial_launch facts files approved m =
      if same_proposal approved m.proposal
      then launch_at (both facts.clock m.approval_expires_at) files approved m
      else (m, err proposal_binding_mismatch)

  abbrev prompt_of : ProposalBinding → P → Metadata → Prompt P
  prompt_of approved p m = record {
    session_id = m.session_id;
    approved = approved;
    approved_proposal = p;
  }

  unfoldable pub prompt_with :
      ProposalBinding → P → Option (Option String) → Metadata → Step (Prompt P)
  unfolding is_bound corrupt
  prompt_with approved p none m = corrupt m
  prompt_with approved p (some hash) m =
      if is_bound p hash m.proposal m.proposal_content_fingerprint
      then (m, ok (prompt_of approved p m))
      else corrupt m

  unfoldable pub prompt_from : ProposalBinding → Result SessionCode P → Metadata → Step (Prompt P)
  unfolding computed_hash prompt_with
  prompt_from approved (err code) m = (m, err code)
  prompt_from approved (ok p) m = prompt_with approved p (computed_hash p) m

  unfoldable pub prompt_at :
      {R : Type 0} → Option (ℕ × ℕ) → Records P R → ProposalBinding → Metadata → Step (Prompt P)
  unfolding expire corrupt prompt_from load_proposal
  prompt_at none files approved m = corrupt m
  prompt_at (some (now, expires)) files approved m =
      if leb expires now
      then (expire pending_approval m, err Codes.SessionCode.approval_expired)
      else prompt_from approved (load_proposal checks.record_fingerprint files) m

  -- `build_prompt` of `resume`
  unfoldable pub build_prompt :
      {R : Type 0} → Facts → Records P R → ProposalBinding → Metadata → Step (Prompt P)
  unfolding same_proposal prompt_at
  build_prompt facts files approved m =
      if same_proposal approved m.proposal
      then prompt_at (both facts.clock m.approval_expires_at) files approved m
      else (m, err proposal_binding_mismatch)
