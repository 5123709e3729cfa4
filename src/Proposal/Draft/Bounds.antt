-- ===== src/Proposal/Draft/Bounds.antt =====
-- The bounds that the runner sets on the commands of an expanded proposal.
use aiops_runner.Prelude.{
  ◌≡◌, refl, ap, subst, ℕ, suc, ◌≤◌, String, Bool, Option, List, [], ◌∷◌, arith, ok, All, codes,
  bind-eq-ok, found, require, length,
}
use aiops_runner.Contract.Json.{Value}
use aiops_runner.Proposal.{RepairProposal, Command}
use aiops_runner.Proposal.Draft.{
  Draft, DraftCommand, expand_command, expand_commands, unhashed, runner_timeout,
  expand_diagnosis_draft_to_v1,
}
use aiops_runner.Proposal.Risk.{command_is_high_risk}
use aiops_runner.Proposal.Hash.{hashed-eq-ok}

-- A command runs for at least a second and at most half an hour, in `/`, and stops on a failure,
-- and its risk is what the runner computes.
pub record IsBounded (split : List ℕ → Option (List (List ℕ))) (c : Command) : Type 0 where
  some_time : 1 ≤ c.timeout_seconds
  half_hour : c.timeout_seconds ≤ 1800
  root : c.cwd ≡ "/"
  stops : c.on_failure ≡ "stop_and_reassess"
  risk : c.high_risk ≡ command_is_high_risk split (codes c.command)

runner_timeout-bounds : (n : ℕ) → (1 ≤ runner_timeout n) × (runner_timeout n ≤ 1800)
unfolding runner_timeout
runner_timeout-bounds n = (omega arith, omega arith)

module _ (split : List ℕ → Option (List (List ℕ))) where
  expand_commands-IsBounded :
      (impact : String) (value n : ℕ) (items : List DraftCommand)
      → All (IsBounded split) (expand_commands split impact (runner_timeout value) n items)
        × (length (expand_commands split impact (runner_timeout value) n items) ≡ length items)
  unfolding expand_commands expand_command
  expand_commands-IsBounded impact value n [] = (tt, refl)
  expand_commands-IsBounded impact value n (item ∷ items) =
      let (rest, same) = expand_commands-IsBounded impact value (suc n) items in
      (
        (
          record {
            some_time = (runner_timeout-bounds value).0;
            half_hour = (runner_timeout-bounds value).1;
            root = refl;
            stops = refl;
            risk = refl;
          },
          rest,
        ),
        ap suc same,
      )

-- Whatever the draft says, each command of an expanded proposal has a timeout between 1 and 1800
-- seconds, runs in `/`, stops on a failure, and has the risk that the runner computes; and there
-- are as many commands as the draft has.
pub expand-bounds :
    (split : List ℕ → Option (List (List ℕ))) (draft_conforms : Draft → Bool)
    (nfc : String → String) (sha256_hex : Value → String) (d : Draft)
    (provider logical_target : String) (observed_at : Option String) (timeout : ℕ)
    (p : RepairProposal)
    → expand_diagnosis_draft_to_v1 split draft_conforms nfc sha256_hex d provider logical_target
        observed_at timeout
      ≡ ok p
    → All (IsBounded split) p.initial_commands
      × (length p.initial_commands ≡ length d.repair_commands)
unfolding expand_diagnosis_draft_to_v1 unhashed
expand-bounds split draft_conforms nfc sha256_hex d provider logical_target observed_at timeout p
      h =
    let (u, fine, rest) = bind-eq-ok (require (draft_conforms d) _) _ h in
    let (time, given, made) = bind-eq-ok (found observed_at _) _ rest in
    let (hash, digest, same) =
      hashed-eq-ok split draft_conforms nfc sha256_hex
        (unhashed split draft_conforms nfc sha256_hex d
          (record {
            runner_provider_id = provider;
            logical_target_id = logical_target;
            platform = "linux";
          })
          time (runner_timeout timeout))
        _ made in
    subst
      (λ q.
        All (IsBounded split) q.initial_commands
        × (length q.initial_commands ≡ length d.repair_commands))
      same (expand_commands-IsBounded split d.expected_impact timeout 1 d.repair_commands)
