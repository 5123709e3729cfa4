-- ===== src/Session/Resume/Approved.antt =====
-- What holds when Claude is started for an approved proposal.
use aiops_runner.Prelude.{
  ◌≡◌, refl, ap, subst, sym, ◌∙◌, ℕ, ◌<◌, String, Bool, true, false, ◌>>◌, Option, none, some, leb,
  arith, Bool-cases, inl, inr, Result, ok, err, bind-eq-ok, require-eq-ok, found, found-eq-ok,
}
use aiops_runner.Session.Codes.{SessionCode}
use aiops_runner.Session.Metadata.{
  executing, same_status, same_status→eq, ProposalBinding, Metadata,
}
use aiops_runner.Session.Journal.Records.{Records, load_proposal}
use aiops_runner.Session.Outcome.{ClaudeRunResult}
use aiops_runner.Session.Launch.{
  Facts, launch_guard, enabled_for, validate_binding, same_launch, same_proposal, Step, guarded,
  pre_spawn, both, Checks, Prompt, computed_hash, is_bound, check_stored, launch_at,
  validate_initial_launch,
}
use aiops_runner.Session.Resume.{
  Environment, settle, start, execute, resume, spawned, record_process, is_launchable,
}

-- The launch facts hold of the metadata: the runner is enabled and its binding is the session's,
-- the session is executing and nobody has asked to cancel it.
pub record IsEnabled (facts : Facts) (m : Metadata) : Type 0 where
  identity : facts.identity_proven ≡ true
  alive : facts.kill_switch ≡ false
  enabled : facts.enabled ≡ true
  authorized : facts.target_authorizer m.logical_target_id ≡ none
  launch : same_launch m.launch facts.expected ≡ true
  executes : m.status ≡ executing
  uncancelled : m.cancel_requested_at ≡ none

-- The approval holds: the approved binding is the metadata's, it has not expired, and the stored
-- proposal is unchanged.
pub record IsApproved {P R : Type 0} (checks : Checks P) (facts : Facts) (files : Records P R)
    (approved : ProposalBinding) (m : Metadata) : Type 0 where
  bound : same_proposal approved m.proposal ≡ true
  now : ℕ
  expires : ℕ
  clock : facts.clock ≡ some now
  expiry : m.approval_expires_at ≡ some expires
  in_time : now < expires
  stored : P
  loaded : load_proposal checks.record_fingerprint files ≡ ok stored
  hash : Option String
  computed : computed_hash checks stored ≡ some hash
  unchanged : is_bound checks stored hash approved m.proposal_content_fingerprint ≡ true

-- What `record_process` asks of the metadata.
pub record IsRecorded (m : Metadata) : Type 0 where
  uncancelled : m.cancel_requested_at ≡ none
  launchable : is_launchable m.status ≡ true

record_process-IsRecorded :
    (kill_switch : Bool) (m : Metadata) → record_process kill_switch m ≡ ok tt → IsRecorded m
unfolding record_process
record_process-IsRecorded kill_switch m h =
    let passed = require-eq-ok _ _ h in
    record { uncancelled = ground (arith, passed); launchable = ground (arith, passed) }

launch_guard-passes :
    (facts : Facts) (m : Metadata) {u : Unit {0}}
    → launch_guard facts executing m ≡ ok u
    → (facts.identity_proven ≡ true)
      × (facts.kill_switch ≡ false)
      × (facts.enabled ≡ true)
      × (facts.target_authorizer m.logical_target_id ≡ none)
      × (same_launch m.launch facts.expected ≡ true)
      × (same_status m.status executing ≡ true)
      × (m.cancel_requested_at ≡ none)
unfolding launch_guard enabled_for validate_binding
launch_guard-passes facts m h = ground (arith, h)

launch_guard-IsEnabled :
    (facts : Facts) (m : Metadata) {u : Unit {0}}
    → launch_guard facts executing m ≡ ok u
    → IsEnabled facts m
launch_guard-IsEnabled facts m h =
    let (identity, alive, enabled, authorized, launch, executes, uncancelled) =
      launch_guard-passes facts m h in
    record {
      identity = identity;
      alive = alive;
      enabled = enabled;
      authorized = authorized;
      launch = launch;
      executes = same_status→eq m.status executing executes;
      uncancelled = uncancelled;
    }

guarded-passes :
    {A : Type 0} (guard : Result SessionCode (Unit {0})) (m : Metadata) (next : Step A) {a : A}
    → (guarded guard m next).1 ≡ ok a
    → (guard ≡ ok tt) × (guarded guard m next ≡ next)
unfolding guarded
guarded-passes (ok u) m next h = (refl, refl)
guarded-passes (err code) m next h = cc

some-injective : {A : Type 0} {a b : A} → some a ≡ some b → a ≡ b
some-injective h = cc

both-eq-some : (a b : Option ℕ) {x y : ℕ} → both a b ≡ some (x, y) → (a ≡ some x) × (b ≡ some y)
both-eq-some none b h = cc
both-eq-some (some x) none h = cc
both-eq-some (some x) (some y) h = (cc, cc)

module _ {P R : Type 0} (checks : Checks P) (files : Records P R) (approved : ProposalBinding) where
  check_stored-passes :
      (m : Metadata) {u : Unit {0}}
      → check_stored checks files approved m ≡ ok u
      → (p : P) × (load_proposal checks.record_fingerprint files ≡ ok p)
        × (hash : Option String) × (computed_hash checks p ≡ some hash)
        × (is_bound checks p hash approved m.proposal_content_fingerprint ≡ true)
  unfolding check_stored
  check_stored-passes m h =
      let (p, loaded, rest) = bind-eq-ok (load_proposal checks.record_fingerprint files) _ h in
      let (hash, computed, bound) = bind-eq-ok (found (computed_hash checks p) _) _ rest in
      (p, loaded, hash, found-eq-ok (computed_hash checks p) _ computed, require-eq-ok _ _ bound)

  launch_at-passes :
      (times : Option (ℕ × ℕ)) (m : Metadata) {u : Unit {0}}
      → (launch_at checks times files approved m).1 ≡ ok u
      → (now : ℕ) × (expires : ℕ) × (times ≡ some (now, expires))
        × (now < expires)
        × (launch_at checks times files approved m ≡ (m, check_stored checks files approved m))
  unfolding launch_at
  launch_at-passes none m h = cc
  launch_at-passes (some (now, expires)) m h = elim (Bool-cases (leb expires now)) [
    | inl over ↦ absurd (ground (arith, over, h))
    | inr before ↦ (now, expires, refl, ground (arith, before), rw (before) refl)
  ]

  validated-same :
      (facts : Facts) (m : Metadata) {u : Unit {0}}
      → (validate_initial_launch checks facts files approved m).1 ≡ ok u
      → (same_proposal approved m.proposal ≡ true)
        × (validate_initial_launch checks facts files approved m
            ≡ launch_at checks (both facts.clock m.approval_expires_at) files approved m)
  unfolding validate_initial_launch
  validated-same facts m h = elim (Bool-cases (same_proposal approved m.proposal)) [
    | inl bound ↦ (bound, rw (bound) refl)
    | inr other ↦ absurd (ground (arith, other, h))
  ]

  validate_initial_launch-passes :
      (facts : Facts) (m : Metadata) {u : Unit {0}}
      → (validate_initial_launch checks facts files approved m).1 ≡ ok u
      → IsApproved checks facts files approved m
        × ((validate_initial_launch checks facts files approved m).0 ≡ m)
  validate_initial_launch-passes facts m h =
      let (bound, same) = validated-same facts m h in
      let passed = ap (λ r. r.1) (sym same) ∙ h in
      let (now, expires, times, in_time, stays) =
        launch_at-passes (both facts.clock m.approval_expires_at) m passed in
      let (p, loaded, hash, computed, unchanged) =
        check_stored-passes m (ap (λ r. r.1) (sym stays) ∙ passed) in
      let (clock, expiry) = both-eq-some facts.clock m.approval_expires_at times in
      (
        record {
          bound = bound;
          now = now;
          expires = expires;
          clock = clock;
          expiry = expiry;
          in_time = in_time;
          stored = p;
          loaded = loaded;
          hash = hash;
          computed = computed;
          unchanged = unchanged;
        },
        ap (λ r. r.0) (same ∙ stays),
      )

module _ {P R : Type 0} (checks : Checks P) (env : Environment) (files : Records P R)
    (approved : ProposalBinding)
    (run : Prompt P → Metadata → Metadata × Result (Option SessionCode) ClaudeRunResult) where
  settle-starts :
      (m n : Metadata) (finished : Metadata × Result (Option SessionCode) ClaudeRunResult)
      → ((settle checks env files approved run m n finished).checked ≡ some m)
        × ((settle checks env files approved run m n finished).started ≡ some n)
  unfolding settle
  settle-starts m n (after, ok result) = (refl, refl)
  settle-starts m n (after, err exc) = (refl, refl)

  spawned-starts :
      (prompt : Prompt P) (before now : Metadata) (answer : Result (Option SessionCode) (Unit {0}))
      {m n : Metadata}
      → (spawned checks env files approved run prompt before now answer).checked ≡ some m
      → (spawned checks env files approved run prompt before now answer).started ≡ some n
      → (answer ≡ ok tt) × (before ≡ m) × (now ≡ n)
  unfolding spawned
  spawned-starts prompt before now (ok u) h k =
      let (same, at) = settle-starts before now (run prompt now) in
      (refl, some-injective (sym same ∙ h), some-injective (sym at ∙ k))
  spawned-starts prompt before now (err exc) h k = cc

  recorded :
      (now : Metadata)
      → ◌≡◌ {A = Result (Option SessionCode) (Unit {0})}
          (env.spawn >> record_process env.at_start.kill_switch now)
          (ok tt)
      → IsRecorded now
  recorded now h =
      let (u, went, e) =
        bind-eq-ok env.spawn (λ _. record_process env.at_start.kill_switch now) h in
      record_process-IsRecorded env.at_start.kill_switch now e

  start-starts :
      (prompt : Prompt P) (step : Step (Unit {0})) {m n : Metadata}
      → (start checks env files approved run prompt step).checked ≡ some m
      → (start checks env files approved run prompt step).started ≡ some n
      → (step.1 ≡ ok tt) × (step.0 ≡ m) × (n ≡ env.before_process m) × IsRecorded n
  unfolding start
  start-starts prompt (before, ok u) h k =
      let now = env.before_process before in
      let (went, same, at) =
        spawned-starts prompt before now (env.spawn >> record_process env.at_start.kill_switch now)
          h k in
      (refl, same, sym at ∙ ap env.before_process same, subst IsRecorded at (recorded now went))
  start-starts prompt (before, err code) h k = cc

  execute-starts :
      (step : Step (Prompt P)) {m n : Metadata}
      → (execute checks env files approved run step).checked ≡ some m
      → (execute checks env files approved run step).started ≡ some n
      → (IsEnabled env.at_start m × IsApproved checks env.at_start files approved m)
        × (n ≡ env.before_process m)
        × IsRecorded n
  unfolding execute pre_spawn
  execute-starts (before, ok prompt) {m} h k =
      let last = env.before_start before in
      let validator = validate_initial_launch checks env.at_start files approved in
      let (passed, same, at, live) =
        start-starts prompt (pre_spawn env.at_start executing validator last) h k in
      let (guard, stays) =
        guarded-passes (launch_guard env.at_start executing last) last (validator last) passed in
      let (approval, kept) =
        validate_initial_launch-passes checks files approved env.at_start last
          (ap (λ r. r.1) (sym stays) ∙ passed) in
      let here : last ≡ m = sym kept ∙ ap (λ r. r.0) (sym stays) ∙ same in
      (
        subst (λ x. IsEnabled env.at_start x × IsApproved checks env.at_start files approved x) here
            (launch_guard-IsEnabled env.at_start last guard, approval),
        at,
        live,
      )
  execute-starts (before, err code) h k = cc

-- Whatever other threads do meanwhile, if `resume` gives Claude the prompt, then two checks were made.
-- The last check before the process is started read metadata of which the identity is proven, the
-- kill switch is off, the runner and the target are enabled, the session is the one that the runner
-- launched, is EXECUTING and is not being cancelled, the approved binding is the one that it stores,
-- the approval has not expired, and the stored proposal hashes to it. After the process was started,
-- `record_process` read what other threads have made of that metadata by then: it is not being
-- cancelled, and its status is DIAGNOSING, EXECUTING or PROPOSAL_GENERATING.
pub resume-starts :
    {P R : Type 0} (checks : Checks P) (env : Environment) (files : Records P R)
    (approved : ProposalBinding)
    (run : Prompt P → Metadata → Metadata × Result (Option SessionCode) ClaudeRunResult)
    (first m n : Metadata)
    → (resume checks env files approved run first).checked ≡ some m
    → (resume checks env files approved run first).started ≡ some n
    → (IsEnabled env.at_start m × IsApproved checks env.at_start files approved m)
      × (n ≡ env.before_process m)
      × IsRecorded n
unfolding resume
resume-starts checks env files approved run first m n h k =
    execute-starts checks env files approved run _ h k
