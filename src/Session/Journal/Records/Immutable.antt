-- ===== src/Session/Journal/Records/Immutable.antt =====
-- A proposal or a risk record that was saved is what is loaded, and is never replaced.
use text.Mathlib.TextPositions.{eq_refl}
use aiops_runner.Prelude.{◌≡◌, String, Bool, false, if◌then◌else◌, none, str_eq, arith, ok, err}
use aiops_runner.Session.Codes.{proposal_already_bound, risk_already_bound}
use aiops_runner.Session.Journal.Records.{
  Records, find_risk, save_proposal, load_proposal, save_risk, read_risk, load_risk,
}

-- A proposal is saved only where none was and only without a secret that is detected; after that,
-- loading gives it back with its fingerprint checked, and saving any proposal is refused.
pub save_proposal-bound :
    {P R : Type 0} (fp : P → String) (secret : P → Bool) (p q : P) (print : String)
    (files files' : Records P R)
    → save_proposal fp secret p files ≡ ok (print, files')
    → (files.proposal ≡ none)
      × (secret p ≡ false)
      × (load_proposal fp files' ≡ ok p)
      × (save_proposal fp secret q files' ≡ err proposal_already_bound)
unfolding save_proposal load_proposal
save_proposal-bound fp secret p q print files files' h = ground (arith, eq_refl (fp p))

-- A risk record is saved only under an identifier that has none and only without a secret that is
-- detected; after that, saving under it again is refused, loading that identifier gives the record
-- back with its fingerprint checked, and every other identifier loads what it loaded before.
pub save_risk-bound :
    {P R : Type 0} (fp : R → String) (secret : R → Bool) (k j : String) (r s : R) (print : String)
    (files files' : Records P R)
    → save_risk fp secret k r files ≡ ok (print, files')
    → (find_risk k files.risks ≡ none)
      × (secret r ≡ false)
      × (save_risk fp secret k s files' ≡ err risk_already_bound)
      × (load_risk fp j files' ≡ (if str_eq k j then ok r else load_risk fp j files))
unfolding save_risk load_risk read_risk find_risk
save_risk-bound fp secret k j r s print files files' h =
    (ground arith, ground arith, ground (arith, eq_refl k), ground (arith, eq_refl (fp r)))
