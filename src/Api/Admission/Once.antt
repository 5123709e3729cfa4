-- ===== src/Api/Admission/Once.antt =====
-- One decision starts one resumption.
use aiops_runner.Prelude.{
  ◌≡◌, refl, String, Bool, true, false, none, some, if◌then◌else◌, str_eq, arith, ok, err, ap, ◌∙◌,
}
use aiops_runner.Session.Codes.{repair_idempotency_conflict}
use aiops_runner.Session.Metadata.{LocalStatus, same_status, same_status→eq, Metadata}
use aiops_runner.Api.Admission.{KeyField, approval_key, risk_key, stored_key, store_key, claim}

store_key_stored :
    (field : KeyField) (k : String) (m : Metadata) → stored_key field (store_key field k m) ≡ some k
unfolding stored_key store_key
store_key_stored approval_key k m = refl
store_key_stored risk_key k m = refl

claim_parts :
    (status : LocalStatus) (field : KeyField) (k : String) (m m' : Metadata) (active active' : Bool)
    → claim status field k (m, active) ≡ ok (true, (m', active'))
    → (stored_key field m ≡ none)
      × (same_status m.status status ≡ true)
      × (active ≡ false)
      × (m' ≡ store_key field k m)
unfolding claim
claim_parts status field k m m' active active' h = ground arith

claim_stored :
    (status : LocalStatus) (field : KeyField) (k j : String) (m : Metadata) (active : Bool)
    → stored_key field m ≡ some k
    → claim status field j (m, active)
      ≡ (if str_eq k j then ok (false, (m, active)) else err repair_idempotency_conflict)
unfolding claim
claim_stored status field k j m active s = ground arith

-- A decision is claimed only when no key is stored for it, the session has the expected status and no
-- resumption of it runs; from then on, while the key stays stored, the same key is answered as claimed
-- already with nothing changed, and every other key is refused as a conflict.
pub claim-once :
    (status : LocalStatus) (field : KeyField) (k j : String) (m m' : Metadata)
    (active active' later : Bool)
    → claim status field k (m, active) ≡ ok (true, (m', active'))
    → (stored_key field m ≡ none)
      × (m.status ≡ status)
      × (active ≡ false)
      × (claim status field j (m', later)
          ≡ (if str_eq k j then ok (false, (m', later)) else err repair_idempotency_conflict))
claim-once status field k j m m' active active' later h =
    let (n, s, a, e) = claim_parts status field k m m' active active' h in
    (
      n,
      same_status→eq m.status status s,
      a,
      claim_stored status field k j m' later (ap (stored_key field) e ∙ store_key_stored field k m),
    )
