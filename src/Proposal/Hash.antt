-- ===== src/Proposal/Hash.antt =====
-- The hash of a proposal that the runner expands from a draft.
use aiops_runner.Prelude.{
  ◌≡◌, refl, ap, ◌∙◌, subst, ℕ, suc, String, Bool, true, Option, List, [], ◌∷◌, concat, map, arith,
  Result, ok, err, ◌>>=◌, bind-eq-ok, ok-injective, found, require, eq_iff,
}
use aiops_runner.Contract.Lifecycle.{TrustedRepairErrorCode}
use aiops_runner.Contract.Wire.{schema_version, validate_wire_object}
use aiops_runner.Contract.Json.{Value, normalize, canonical_digest}
use aiops_runner.Contract.Json.Closed.{normalize_idem}
use aiops_runner.Proposal.{
  RepairProposal, Target, proposal_hash_algorithm_id, hash_payload, is_range, expected_hash,
  validate_and_hash_proposal,
}
use aiops_runner.Proposal.Draft.{
  Draft, DraftCommand, DraftStep, expand_command, expand_commands, expand_steps, unhashed, hashed,
  runner_timeout, expand_diagnosis_draft_to_v1,
}

expand_commands-range :
    (split : List ℕ → Option (List (List ℕ))) (impact : String) (timeout n : ℕ)
    (items : List DraftCommand)
    → is_range n (map (λ c. c.sequence) (expand_commands split impact timeout n items)) ≡ true
unfolding expand_commands expand_command
expand_commands-range split impact timeout n [] = refl
expand_commands-range split impact timeout n (item ∷ items) =
    ground (arith, expand_commands-range split impact timeout (suc n) items)

expand_steps-range :
    (timeout n : ℕ) (items : List DraftStep)
    → is_range n (map (λ s. s.sequence) (expand_steps timeout n items)) ≡ true
unfolding expand_steps
expand_steps-range timeout n [] = refl
expand_steps-range timeout n (item ∷ items) =
    ground (arith, expand_steps-range timeout (suc n) items)

module _ (split : List ℕ → Option (List (List ℕ))) (draft_conforms : Draft → Bool)
    (nfc : String → String) (sha256_hex : Value → String) where
  pub hashed-eq-ok :
      (p : RepairProposal) (r : Result TrustedRepairErrorCode String) {q : RepairProposal}
      → hashed split draft_conforms nfc sha256_hex p r ≡ ok q
      → (hash : String) × (r ≡ ok hash) × (record p { proposal_hash = hash } ≡ q)
  unfolding hashed
  hashed-eq-ok p (ok hash) h = (hash, refl, ok-injective h)
  hashed-eq-ok p (err code) h = cc

canonical_digest-again :
    (nfc : String → String) (sha256_hex : Value → String) (v : Value) {hash : String}
    → ((t : String) → nfc (nfc t) ≡ nfc t)
    → canonical_digest nfc sha256_hex v ≡ ok hash
    → (normalize nfc v >>= λ w. canonical_digest nfc sha256_hex w) ≡ ok hash
unfolding canonical_digest
canonical_digest-again nfc sha256_hex v idem h =
    let (w, normal, hash) =
      bind-eq-ok (normalize nfc v) (λ c. ok (concat "sha256:" (sha256_hex c))) h in
    rw (normal, (normalize_idem nfc idem v w normal).1) hash

-- What a proposal needs beside its hash.
record IsExpanded (p : RepairProposal) : Type 0 where
  version : p.schema_version ≡ schema_version
  kind : p.kind ≡ "repair_proposal"
  algorithm : p.proposal_hash_algorithm_id ≡ proposal_hash_algorithm_id
  commands : is_range 1 (map (λ c. c.sequence) p.initial_commands) ≡ true
  steps : is_range 1 (map (λ s. s.sequence) p.verification_steps) ≡ true

unhashed-IsExpanded :
    (split : List ℕ → Option (List (List ℕ))) (draft_conforms : Draft → Bool)
    (nfc : String → String) (sha256_hex : Value → String) (d : Draft) (target : Target)
    (time : String) (timeout : ℕ)
    → IsExpanded (unhashed split draft_conforms nfc sha256_hex d target time timeout)
unfolding unhashed
unhashed-IsExpanded split draft_conforms nfc sha256_hex d target time timeout = record {
  version = refl;
  kind = refl;
  algorithm = refl;
  commands = expand_commands-range split d.expected_impact timeout 1 d.repair_commands;
  steps = expand_steps-range timeout 1 d.verification_steps;
}

validates :
    (conforms : RepairProposal → Bool) (nfc : String → String) (sha256_hex : Value → String)
    (p : RepairProposal)
    → IsExpanded p
    → conforms p ≡ true
    → expected_hash conforms nfc sha256_hex p ≡ ok p.proposal_hash
    → validate_and_hash_proposal conforms nfc sha256_hex p ≡ ok p.proposal_hash
unfolding validate_and_hash_proposal validate_wire_object
validates conforms nfc sha256_hex p e fits hash =
    rw (hash, fits, e.version, e.kind, e.algorithm, e.commands, e.steps)
      (ground (arith, eq_iff p.proposal_hash p.proposal_hash))

hashed-IsExpanded :
    (p : RepairProposal) (hash : String)
    → IsExpanded p
    → IsExpanded (record p { proposal_hash = hash })
hashed-IsExpanded p hash e = record {
  version = e.version;
  kind = e.kind;
  algorithm = e.algorithm;
  commands = e.commands;
  steps = e.steps;
}

expected_hash-hashed :
    (conforms : RepairProposal → Bool) (nfc : String → String) (sha256_hex : Value → String)
    (p : RepairProposal) (other : String) {hash : String}
    → ((t : String) → nfc (nfc t) ≡ nfc t)
    → canonical_digest nfc sha256_hex (hash_payload p) ≡ ok hash
    → expected_hash conforms nfc sha256_hex (record p { proposal_hash = other }) ≡ ok hash
unfolding expected_hash
expected_hash-hashed conforms nfc sha256_hex p other idem h =
    canonical_digest-again nfc sha256_hex (hash_payload p) idem h

hashed-validates :
    (split : List ℕ → Option (List (List ℕ))) (draft_conforms : Draft → Bool)
    (nfc : String → String) (sha256_hex : Value → String) (conforms : RepairProposal → Bool)
    (p q : RepairProposal)
    → IsExpanded p
    → ((t : String) → nfc (nfc t) ≡ nfc t)
    → hashed split draft_conforms nfc sha256_hex p
        (canonical_digest nfc sha256_hex (hash_payload p))
      ≡ ok q
    → conforms q ≡ true
    → validate_and_hash_proposal conforms nfc sha256_hex q ≡ ok q.proposal_hash
hashed-validates split draft_conforms nfc sha256_hex conforms p q e idem made fits =
    let (hash, digest, same) =
      hashed-eq-ok split draft_conforms nfc sha256_hex p
        (canonical_digest nfc sha256_hex (hash_payload p)) made in
    subst (λ r. validate_and_hash_proposal conforms nfc sha256_hex r ≡ ok r.proposal_hash) same
      (validates conforms nfc sha256_hex (record p { proposal_hash = hash })
        (hashed-IsExpanded p hash e) (ap conforms same ∙ fits)
        (expected_hash-hashed conforms nfc sha256_hex p hash idem digest))

-- A proposal that the runner expands from a draft passes the contract's own validation with the
-- hash that it carries, where the text normalization is idempotent and the proposal conforms to
-- the contract's JSON Schema.
pub expand-validates :
    (split : List ℕ → Option (List (List ℕ))) (draft_conforms : Draft → Bool)
    (nfc : String → String) (sha256_hex : Value → String) (d : Draft)
    (provider logical_target : String) (observed_at : Option String) (timeout : ℕ)
    (conforms : RepairProposal → Bool) (p : RepairProposal)
    → ((t : String) → nfc (nfc t) ≡ nfc t)
    → expand_diagnosis_draft_to_v1 split draft_conforms nfc sha256_hex d provider logical_target
        observed_at timeout
      ≡ ok p
    → conforms p ≡ true
    → validate_and_hash_proposal conforms nfc sha256_hex p ≡ ok p.proposal_hash
unfolding expand_diagnosis_draft_to_v1
expand-validates split draft_conforms nfc sha256_hex d provider logical_target observed_at timeout
      conforms p idem h fits =
    let (u, fine, rest) = bind-eq-ok (require (draft_conforms d) _) _ h in
    let (time, given, made) = bind-eq-ok (found observed_at _) _ rest in
    hashed-validates split draft_conforms nfc sha256_hex conforms
      (unhashed split draft_conforms nfc sha256_hex d
        (record {
          runner_provider_id = provider;
          logical_target_id = logical_target;
          platform = "linux";
        })
        time (runner_timeout timeout))
      p (unhashed-IsExpanded split draft_conforms nfc sha256_hex d _ time _) idem made fits
