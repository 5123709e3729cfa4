-- ===== src/Session/Journal/Records.antt =====
-- `save_proposal`, `load_proposal`, `save_risk` and `load_risk` of `SessionJournal` in
-- runner/runner/trusted_session.py. A file that is missing or does not parse is `none`; the
-- metadata of the session load before a proposal is saved. `_record_fingerprint` and
-- `_contains_detectable_secret` are parameters.
pub mod Immutable
use aiops_runner.Prelude.{
  ℕ, String, Bool, Option, none, some, List, [], ◌∷◌, str_eq, if◌then◌else◌, is_some, Result, ok,
  err, ◌>>=◌, require, refuse, found,
}
use aiops_runner.Session.Codes.{
  SessionCode, session_journal_missing, proposal_already_bound, proposal_contains_secret,
  proposal_missing, proposal_corrupt, risk_already_bound, risk_contains_secret, risk_record_missing,
  risk_record_corrupt,
}

-- A risk file: an envelope with a record, or JSON of another shape.
pub data RiskFile (R : Type 0) : Type 0 where
  malformed : RiskFile R
  envelope : R → String → RiskFile R

-- The files of one session: the proposal, its copy in the outbox, its fingerprint, and the risk
-- records by their identifier.
pub record Records (P R : Type 0) : Type 0 where
  pub has_metadata : Bool
  pub proposal : Option P
  pub outbox : Option P
  pub proposal_fingerprint : Option String
  pub risks : List (String × RiskFile R)

unfoldable pub find_risk : {R : Type 0} → String → List (String × RiskFile R) → Option (RiskFile R)
find_risk k [] = none
find_risk k ((j, f) ∷ fs) = if str_eq j k then some f else find_risk k fs

unfoldable pub load_proposal : {P R : Type 0} → (P → String) → Records P R → Result SessionCode P
load_proposal fp files = found files.proposal proposal_missing >>= λ p.
    found files.proposal_fingerprint proposal_missing >>= λ expected.
    require (str_eq (fp p) expected) proposal_corrupt >>= λ _. ok p

unfoldable pub read_risk : {R : Type 0} → (R → String) → Option (RiskFile R) → Result SessionCode R
read_risk fp none = err risk_record_missing
read_risk fp (some malformed) = err risk_record_corrupt
read_risk fp (some (envelope r stored)) =
    require (str_eq stored (fp r)) risk_record_corrupt >>= λ _. ok r

unfoldable pub load_risk :
    {P R : Type 0} → (R → String) → String → Records P R → Result SessionCode R
unfolding read_risk
load_risk fp k files = read_risk fp (find_risk k files.risks)

module _ {P R : Type 0} (record_fingerprint : P → String)
    (contains_detectable_secret : P → Bool) where
  abbrev pub with_proposal : P → Records P R → Records P R
  with_proposal p files = record files {
    proposal = some p;
    outbox = some p;
    proposal_fingerprint = some (record_fingerprint p);
  }

  unfoldable pub save_proposal : P → Records P R → Result SessionCode (String × Records P R)
  save_proposal p files = require files.has_metadata session_journal_missing >>= λ _.
      refuse (is_some files.proposal) proposal_already_bound >>= λ _.
      refuse (contains_detectable_secret p) proposal_contains_secret >>= λ _.
      ok (record_fingerprint p, with_proposal p files)

module _ {P R : Type 0} (record_fingerprint : R → String)
    (contains_detectable_secret : R → Bool) where
  abbrev pub with_risk : String → R → Records P R → Records P R
  with_risk k r files = record files {
    risks = (k, envelope r (record_fingerprint r)) ∷ files.risks;
  }

  unfoldable pub save_risk : String → R → Records P R → Result SessionCode (String × Records P R)
  save_risk k r files = refuse (is_some (find_risk k files.risks)) risk_already_bound >>= λ _.
      refuse (contains_detectable_secret r) risk_contains_secret >>= λ _.
      ok (record_fingerprint r, with_risk k r files)
