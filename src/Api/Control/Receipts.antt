-- ===== src/Api/Control/Receipts.antt =====
-- The controller's verdicts against the rules of `validate_control_receipt`.
use aiops_runner.Prelude.{
  refl, ◌≢◌, ◌↔◌, String, ◌≡◌, ◌⊎◌, inl, inr, subst, sym, ap, ◌∙◌, ℕ, Bool, true, false, Option,
  none, some, arith, ok, Option-cases, Result,
}
use aiops_runner.Contract.Lifecycle.{TrustedRepairErrorCode}
use aiops_runner.Contract.Outcome.{
  ControlOutcome, closed, stopped_confirmed, stop_uncertain, invalid_intent, already_applied,
  ControlReason,
}
use aiops_runner.Contract.Receipt.{check_outcome}
use aiops_runner.Session.Metadata.{LocalStatus, Metadata}
use aiops_runner.Session.Control.{
  State, Interference, ControlAction, ControlReply, is_final_outcome, apply_control_action,
}
use aiops_runner.Session.Control.Certainty.{IsCoherent, apply_control_action-IsCoherent}
use aiops_runner.Api.Control.{
  Verdict, Settled, reason_of, refusal, applied_verdict, control_verdict, settle_prior,
}

-- What the record stores agrees with a certainty: no final outcome, no certainty, or the same one.
abbrev pub IsStored : Bool → Metadata → Type 0
IsStored certain latest =
    (is_final_outcome latest.last_control_outcome ≡ false)
    ⊎ ((latest.last_control_result_certain ≡ none)
        ⊎ (latest.last_control_result_certain ≡ some certain))

-- Only a verdict that the action was already applied has to agree with what is stored.
abbrev pub AgreesWith : Metadata → Verdict → Type 0
AgreesWith latest v = (v.outcome ≢ already_applied) ⊎ IsStored v.certain latest

abbrev pub check_settled : Settled → Result TrustedRepairErrorCode Unit
check_settled s =
    check_outcome s.verdict.outcome s.verdict.certain s.verdict.reason s.prior_outcome
      s.prior_certain

refused-accepted :
    (in_progress : Bool) (now requested expires : ℕ) (valid : Bool) (reason : ControlReason)
    (latest : Metadata)
    → refusal in_progress now requested expires valid ≡ some reason
    → check_settled (
        settle_prior (record { outcome = invalid_intent; certain = false; reason = reason }) latest)
      ≡ ok tt
unfolding refusal settle_prior check_outcome
refused-accepted in_progress now requested expires valid reason latest h = ground arith

already-accepted :
    (certain : Bool) (latest : Metadata)
    → IsStored certain latest
    → check_settled (
        settle_prior
          (record {
            outcome = already_applied;
            certain = certain;
            reason = reason_of already_applied;
          })
          latest)
      ≡ ok tt
unfolding settle_prior check_outcome reason_of is_final_outcome
already-accepted certain latest (inl n) = ground arith
already-accepted certain latest (inr (inl n)) = ground arith
already-accepted true latest (inr (inr s)) = ground arith
already-accepted false latest (inr (inr s)) = ground arith

reply-accepted :
    (outcome : ControlOutcome) (certain : Bool) (status : LocalStatus) (latest : Metadata)
    → IsCoherent (some (outcome, certain, status))
    → (outcome ≢ already_applied) ⊎ IsStored certain latest
    → check_settled (
        settle_prior
          (record { outcome = outcome; certain = certain; reason = reason_of outcome })
          latest)
      ≡ ok tt
unfolding settle_prior check_outcome reason_of
reply-accepted closed certain status latest c a = ground arith
reply-accepted stopped_confirmed certain status latest c a = ground arith
reply-accepted stop_uncertain certain status latest c a = ground arith
reply-accepted invalid_intent certain status latest c a = ground arith
reply-accepted already_applied certain status latest c (inl other) = absurd (other refl)
reply-accepted already_applied certain status latest c (inr a) = already-accepted certain latest a

some-injective : {v w : Verdict} → ◌≡◌ {A = Option Verdict} (some v) (some w) → v ≡ w
some-injective h = cc

applied-accepted :
    (reply : ControlReply) (latest : Metadata) (v : Verdict)
    → IsCoherent reply
    → AgreesWith latest v
    → applied_verdict reply ≡ some v
    → check_settled (settle_prior v latest) ≡ ok tt
unfolding applied_verdict
applied-accepted none latest v c a h = cc
applied-accepted (some (outcome, certain, status)) latest v c a h =
    let same = some-injective h in
    subst (λ x. check_settled (settle_prior x latest) ≡ ok tt) same
      (reply-accepted outcome certain status latest c
        (subst (λ x. AgreesWith latest x) (sym same) a))

verdict-accepted :
    (in_progress : Bool) (now requested expires : ℕ) (valid : Bool) (reply : ControlReply)
    (latest : Metadata) (v : Verdict)
    → IsCoherent reply
    → AgreesWith latest v
    → control_verdict (refusal in_progress now requested expires valid) reply ≡ some v
    → check_settled (settle_prior v latest) ≡ ok tt
unfolding control_verdict
verdict-accepted in_progress now requested expires valid reply latest v c a h =
    elim (Option-cases (refusal in_progress now requested expires valid)) [
      | inr (reason, r) ↦
          subst (λ x. check_settled (settle_prior x latest) ≡ ok tt)
            (some-injective (sym (ap (λ x. control_verdict x reply) r) ∙ h))
            (refused-accepted in_progress now requested expires valid reason latest r)
      | inl n ↦ applied-accepted reply latest v c a (sym (ap (λ x. control_verdict x reply) n) ∙ h)
    ]

already-IsStored :
    (certain : Bool) (reason : ControlReason) (latest : Metadata)
    → check_settled (
        settle_prior
          (record { outcome = already_applied; certain = certain; reason = reason })
          latest)
      ≡ ok tt
    → IsStored certain latest
unfolding settle_prior check_outcome is_final_outcome
already-IsStored true reason latest h = elim (Option-cases latest.last_control_result_certain) [
  | inl n ↦ inr (inl n)
  | inr (true, s) ↦ inr (inr s)
  | inr (false, s) ↦ inl (ground arith)
]
already-IsStored false reason latest h = elim (Option-cases latest.last_control_result_certain) [
  | inl n ↦ inr (inl n)
  | inr (false, s) ↦ inr (inr s)
  | inr (true, s) ↦ inl (ground arith)
]

accepted-AgreesWith :
    (latest : Metadata) (outcome : ControlOutcome) (certain : Bool) (reason : ControlReason)
    → check_settled
        (settle_prior (record { outcome = outcome; certain = certain; reason = reason }) latest)
      ≡ ok tt
    → (outcome ≢ already_applied) ⊎ IsStored certain latest
accepted-AgreesWith latest closed certain reason h = inl (λ e. cc)
accepted-AgreesWith latest stopped_confirmed certain reason h = inl (λ e. cc)
accepted-AgreesWith latest stop_uncertain certain reason h = inl (λ e. cc)
accepted-AgreesWith latest invalid_intent certain reason h = inl (λ e. cc)
accepted-AgreesWith latest already_applied certain reason h =
    inr (already-IsStored certain reason latest h)

-- For what the orchestrator answers to an action, whatever other threads do in between, and for every
-- refusal, the outcome, the certainty, the reason and the prior result that the controller chooses
-- pass the receipt's own rules, except exactly where the verdict is that the action was already
-- applied and the record stores a final outcome with the other certainty.
pub control_verdict-accepted :
    (i : Interference) (at : ℕ) (command_id : String) (action : ControlAction)
    (desired : LocalStatus) (s : State) (in_progress : Bool) (now requested expires : ℕ)
    (valid : Bool) (latest : Metadata) (v : Verdict)
    → control_verdict
        (refusal in_progress now requested expires valid)
        (apply_control_action i at command_id action desired s).1
      ≡ some v
    → (check_settled (settle_prior v latest) ≡ ok tt) ↔ AgreesWith latest v
control_verdict-accepted i at command_id action desired s in_progress now requested expires valid
      latest v h =
    (
      (λ accepted. accepted-AgreesWith latest v.outcome v.certain v.reason accepted),
      (λ agrees.
          verdict-accepted in_progress now requested expires valid
            (apply_control_action i at command_id action desired s).1 latest v
            (apply_control_action-IsCoherent i at command_id desired s action) agrees h),
    )
