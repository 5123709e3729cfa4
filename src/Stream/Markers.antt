-- ===== src/Stream/Markers.antt =====
-- `_claude_result_failure`, the control markers in the text of an assistant and the structured
-- output of the result, of `StreamJsonParser` in runner/runner/trusted_session.py.
use aiops_runner.Prelude.{
  ℕ, suc, String, Bool, true, false, not, ◌&&◌, ◌||◌, Option, none, some, List, [], ◌∷◌,
  if◌then◌else◌, ltb, leb, ◌==◌, concat, Result, ok, ◌>>=◌, ◌>>◌, require, refuse, found,
}
use aiops_runner.Session.Codes.{
  SessionCode, session_internal_uncertain, risk_marker_invalid, verification_marker_violation,
  proposal_draft_invalid,
}
use aiops_runner.Contract.Json.{Value, str, obj, Fields}
use aiops_runner.Stream.Reading.{
  authentication, quota, rate, connection, Library, get, set, is_text, has_exactly, take_text,
  is_blank, strict_json_loads, is_set, as_text, text_or_empty, redact_sensitive,
}
use aiops_runner.Stream.State.{
  Phase, diagnosing, executing, inspecting, proposing, initializing, FailureCode,
  model_authentication_failed, model_quota_exhausted, model_rate_limited,
  model_provider_unavailable, model_connection_failed, inspection_failed, InspectionFailure,
  Verification, success, failed, unknown, StreamEvent, plan_delta, verification_finished,
  risk_confirmation_requested, inspection_report_created, host_context_created,
  proposal_draft_created, ParsedStream,
}

abbrev pub Parsed : Type 0
Parsed = Result SessionCode (List StreamEvent × ParsedStream)

-- `" ".join(fragments)`
abbrev fragments : Option Value → Option Value → String
fragments (some (str a)) (some (str b)) = concat a (concat " " b)
fragments (some (str a)) _ = a
fragments _ (some (str b)) = b
fragments _ _ = ""

-- `http_status in {…}`
abbrev status_in : List ℕ → Option ℕ → Bool
status_in [] s = false
status_in (n ∷ ns) none = false
status_in (n ∷ ns) (some s) = s == n || status_in ns (some s)

abbrev is_server_error : Option ℕ → Bool
is_server_error none = false
is_server_error (some s) = leb 500 s && leb s 599

-- `dict(value)`
abbrev dict_of : Library → Value → Option Fields
dict_of lib (obj fs) = some fs
dict_of lib v = lib.dict_of v

-- `dict(marker.get("plan_delta", marker))`
abbrev pub chosen_delta : Library → Fields → Option Value → Option Fields
chosen_delta lib marker none = some marker
chosen_delta lib marker (some v) = dict_of lib v

abbrev risk_fields : List String
risk_fields =
    "risk_confirmation_id" ∷ "command" ∷ "reason" ∷ "affected_scope" ∷ "rollback_instructions"
    ∷ "consequence_if_not_executed" ∷ "requested_at" ∷ "expires_at" ∷ []

-- The outcome of the marker that is the first, or not.
unfoldable pub verification_verdict : Bool → Fields → Verification
unfolding get has_exactly is_blank
verification_verdict first marker = elim (get "result" marker) [
  | some (str result) ↦
      if not first
        || (not (has_exactly ("kind" ∷ "status" ∷ "result" ∷ []) marker) || is_blank result)
      then unknown
      else if is_text (get "status" marker) "succeeded"
      then success
      else if is_text (get "status" marker) "failed"
      then failed
      else unknown
  | other ↦ unknown
]

abbrev raw_result : Option Value → String
raw_result (some (str result)) = result
raw_result _ = ""

-- `requested`, `expires` and the order of the two.
abbrev is_ttl : Option ℕ → Option ℕ → Bool
is_ttl (some requested) (some expires) = ltb requested expires
is_ttl _ _ = false

-- Text after a verification marker that is no object.
abbrev pub no_marker : ParsedStream → ParsedStream
no_marker s =
    if ltb 0 s.verification_marker_count
    then record s { verification_outcome = some unknown }
    else s

module _ (lib : Library) where
  unfoldable pub failure_code : Option ℕ → String → FailureCode
  failure_code status text =
      if status_in (401 ∷ 403 ∷ []) status || lib.says authentication text
      then model_authentication_failed
      else if status_in (402 ∷ []) status || lib.says quota text
      then model_quota_exhausted
      else if status_in (429 ∷ []) status || lib.says rate text
      then model_rate_limited
      else if is_server_error status
      then model_provider_unavailable
      else if lib.says connection text
      then model_connection_failed
      else inspection_failed

  unfoldable pub claude_result_failure : Fields → InspectionFailure
  unfolding get take_text failure_code
  claude_result_failure payload =
      let text = take_text 8192 (fragments (get "result" payload) (get "error" payload)) in
      let http_status = lib.http_status text in
      record { code = failure_code http_status text; http_status = http_status }

  -- The delta with its command redacted.
  unfoldable pub redact_delta : Fields → Fields
  unfolding get set is_set redact_sensitive
  redact_delta delta = elim (get "actual_command" delta) [
    | none ↦ delta
    | some v ↦
        let command = as_text lib v in
        let digested = set "actual_command_fingerprint" (str (lib.command_digest command)) delta in
        if is_set lib (some v)
        then set "actual_command" (str (redact_sensitive lib 4096 command)) digested
        else delta
  ]

  unfoldable pub plan_delta_marker : Fields → ParsedStream → Parsed
  unfolding get redact_delta
  plan_delta_marker marker s =
      found (chosen_delta lib marker (get "plan_delta" marker)) session_internal_uncertain
      >>= λ delta. ok (plan_delta (redact_delta delta) ∷ [], s)

  unfoldable pub verification_marker : Fields → ParsedStream → List StreamEvent × ParsedStream
  unfolding get verification_verdict redact_sensitive
  verification_marker marker s =
      let count = suc s.verification_marker_count in
      let outcome = verification_verdict (count == 1) marker in
      (
        verification_finished (redact_sensitive lib 4096 (raw_result (get "result" marker))) outcome
            ∷ [],
        record s { verification_marker_count = count; verification_outcome = some outcome },
      )

  -- `not marker.get(field)` for no required field.
  unfoldable pub are_set : List String → Fields → Bool
  unfolding get is_set
  are_set [] marker = true
  are_set (k ∷ ks) marker = is_set lib (get k marker) && are_set ks marker

  -- The accepted risk marker.
  unfoldable pub pause : Fields → ParsedStream → List StreamEvent × ParsedStream
  unfolding get set text_or_empty redact_sensitive
  pause marker s =
      let command = text_or_empty lib (get "command" marker) in
      (
        risk_confirmation_requested (set "command" (str (redact_sensitive lib 4096 command)) marker)
              (lib.command_digest command)
            ∷ [],
        record s { risk_pause_seen = true },
      )

  unfoldable pub risk_marker : Fields → ParsedStream → Parsed
  unfolding get has_exactly are_set text_or_empty pause
  risk_marker marker s =
      require (has_exactly ("kind" ∷ risk_fields) marker && are_set risk_fields marker)
        risk_marker_invalid
      >> require (lib.is_canonical_uuid (text_or_empty lib (get "risk_confirmation_id" marker)))
          risk_marker_invalid
      >> require
          (is_ttl (lib.aware_time (text_or_empty lib (get "requested_at" marker)))
            (lib.aware_time (text_or_empty lib (get "expires_at" marker))))
          risk_marker_invalid
      >> ok (pause marker s)

  unfoldable pub marker_object : Fields → ParsedStream → Parsed
  unfolding get plan_delta_marker verification_marker risk_marker
  marker_object marker s =
      let kind = get "kind" marker in
      refuse (ltb 0 s.verification_marker_count && not (is_text kind "verification"))
        verification_marker_violation
      >> (if is_text kind "plan_delta"
          then plan_delta_marker marker s
          else if is_text kind "verification"
          then ok (verification_marker marker s)
          else if is_text kind "risk_confirmation_required"
          then risk_marker marker s
          else ok ([], s))

  -- The marker as it was parsed.
  unfoldable pub read_marker : Option Value → ParsedStream → Parsed
  unfolding marker_object
  read_marker (some (obj marker)) s = marker_object marker s
  read_marker _ s = ok ([], no_marker s)

  unfoldable pub assistant_control_marker : Phase → String → ParsedStream → Parsed
  unfolding strict_json_loads read_marker
  assistant_control_marker executing text s = read_marker (strict_json_loads lib text) s
  assistant_control_marker _ text s = ok ([], s)

  abbrev draft_output : Fields → Result SessionCode (List StreamEvent)
  draft_output fs =
      require (lib.is_valid_draft fs) proposal_draft_invalid >> ok (proposal_draft_created fs ∷ [])

  unfoldable pub terminal_structured_output :
      Phase → Option Value → Result SessionCode (List StreamEvent)
  terminal_structured_output inspecting (some (obj fs)) = ok (inspection_report_created fs ∷ [])
  terminal_structured_output initializing (some (obj fs)) = ok (host_context_created fs ∷ [])
  terminal_structured_output diagnosing (some (obj fs)) = draft_output fs
  terminal_structured_output proposing (some (obj fs)) = draft_output fs
  terminal_structured_output _ _ = ok []
