-- ===== src/Api/Admission.antt =====
-- `_ensure_enabled`, `_claim` and `_http_error` of runner/runner/trusted_api.py. `_claim` works
-- under the controller's gate on the record of one session and on whether the session is in the
-- set `_active`.
pub mod Once
use aiops_runner.Prelude.{
  ℕ, String, Bool, true, false, not, ◌&&◌, ◌||◌, Option, none, some, List, [], ◌∷◌, str_eq, one_of,
  codes, ◌==◌, if◌then◌else◌, is_some, holds_text, Result, ok, err,
}
use aiops_runner.Session.Codes.{
  SessionCode, kill_switch_active, session_disabled, repair_idempotency_conflict,
}
use aiops_runner.Session.Metadata.{LocalStatus, same_status, Metadata}

unfoldable pub ensure_enabled : Bool → Bool → Result SessionCode Unit
ensure_enabled enabled kill_switch =
    if not enabled || kill_switch
    then err (if kill_switch then kill_switch_active else session_disabled)
    else ok tt

-- The field that keeps the key of a decision.
pub data KeyField : Type 0 where
  approval_key risk_key : KeyField

unfoldable pub stored_key : KeyField → Metadata → Option String
stored_key approval_key m = m.approval_idempotency_key
stored_key risk_key m = m.risk_idempotency_key

unfoldable pub store_key : KeyField → String → Metadata → Metadata
store_key approval_key k m = record m { approval_idempotency_key = some k }
store_key risk_key k m = record m { risk_idempotency_key = some k }

-- The record and whether the session is in `_active`.
abbrev pub Gate : Type 0
Gate = Metadata × Bool

unfoldable pub claim : LocalStatus → KeyField → String → Gate → Result SessionCode (Bool × Gate)
unfolding stored_key store_key
claim expected_status field idem (current, active) =
    if holds_text (stored_key field current) idem
    then ok (false, (current, active))
    else if is_some (stored_key field current)
        || (not (same_status current.status expected_status) || active)
    then err repair_idempotency_conflict
    else ok (true, (store_key field idem current, true))

abbrev has_prefix : List ℕ → List ℕ → Bool
has_prefix [] text = true
has_prefix (c ∷ cs) [] = false
has_prefix (c ∷ cs) (d ∷ ds) = c == d && has_prefix cs ds

-- `code.startswith(prefix)`
abbrev starts_with : String → String → Bool
starts_with code prefix = has_prefix (codes prefix) (codes code)

-- `{…}.get(key, default)` with texts and numbers
unfoldable pub look_up : {A : Type 0} → String → A → List (String × A) → A
look_up k default [] = default
look_up k default ((j, v) ∷ table) = if str_eq j k then v else look_up k default table

abbrev pub public_codes : List (String × String)
public_codes =
    ("TRUSTED_SESSION_DISABLED", "TRUSTED_REPAIR_FEATURE_DISABLED")
    ∷ ("TRUSTED_KILL_SWITCH_ACTIVE", "TRUSTED_REPAIR_FEATURE_DISABLED")
    ∷ ("TRUSTED_SESSION_BUSY", "TRUSTED_REPAIR_SESSION_BUSY")
    ∷ ("TRUSTED_TARGET_NOT_MANAGED", "TRUSTED_TARGET_NOT_MANAGED")
    ∷ ("TRUSTED_TARGET_NOT_UNIQUELY_RESOLVED", "TRUSTED_TARGET_NOT_UNIQUELY_RESOLVED")
    ∷ ("TRUSTED_INVENTORY_UNAVAILABLE", "TRUSTED_REPAIR_FEATURE_DISABLED")
    ∷ ("TRUSTED_SESSION_JOURNAL_MISSING", "TRUSTED_REPAIR_SESSION_NOT_FOUND")
    ∷ ("TRUSTED_APPROVAL_EXPIRED", "TRUSTED_REPAIR_APPROVAL_EXPIRED")
    ∷ ("TRUSTED_RISK_CONFIRMATION_EXPIRED", "TRUSTED_REPAIR_RISK_CONFIRMATION_EXPIRED")
    ∷ []

abbrev pub http_statuses : List (String × ℕ)
http_statuses =
    ("TRUSTED_REPAIR_AUTHENTICATION_REQUIRED", 401)
    ∷ ("TRUSTED_REPAIR_AUTHORIZATION_DENIED", 403)
    ∷ ("TRUSTED_REPAIR_TARGET_NOT_ALLOWED", 403)
    ∷ ("TRUSTED_TARGET_NOT_MANAGED", 422)
    ∷ ("TRUSTED_TARGET_NOT_UNIQUELY_RESOLVED", 422)
    ∷ ("TRUSTED_REPAIR_SESSION_NOT_FOUND", 404)
    ∷ ("TRUSTED_REPAIR_APPROVAL_EXPIRED", 410)
    ∷ ("TRUSTED_REPAIR_RISK_CONFIRMATION_EXPIRED", 410)
    ∷ ("TRUSTED_REPAIR_VALIDATION_FAILED", 422)
    ∷ ("TRUSTED_REPAIR_UNSUPPORTED_SCHEMA_VERSION", 422)
    ∷ ("TRUSTED_REPAIR_FEATURE_DISABLED", 503)
    ∷ ("TRUSTED_REPAIR_SESSION_BUSY", 409)
    ∷ []

unfoldable pub public_code : String → String
unfolding look_up
public_code code =
    if starts_with code "TRUSTED_REPAIR_"
    then code
    else look_up code "TRUSTED_REPAIR_SESSION_RESUME_FAILED" public_codes

-- The status, the public code and whether the client may try again.
unfoldable pub http_error : String → ℕ × String × Bool
unfolding look_up public_code
http_error code = (
  look_up (public_code code) 409 http_statuses,
  public_code code,
  one_of (public_code code)
      ("TRUSTED_REPAIR_FEATURE_DISABLED" ∷ "TRUSTED_REPAIR_SESSION_BUSY" ∷ []),
)
