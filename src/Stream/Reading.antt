-- ===== src/Stream/Reading.antt =====
-- How Python reads a JSON value, for `_strict_json_loads`, `redact_sensitive` and
-- `StreamJsonParser` in runner/runner/trusted_session.py. What the libraries compute is the
-- record `Library`.
use Prim.Native.Char.{code}
use aiops_runner.Prelude.{
  ℕ, zero, suc, String, Bool, true, false, not, ◌&&◌, ◌||◌, Option, none, some, List, all, str_eq,
  one_of, concat, codes, if◌then◌else◌,
}
use aiops_runner.Contract.Json.{
  Value, null, bool, int, negative, float, str, arr, obj, Items, nil, cons, Fields, end, field,
  has_key,
}
use aiops_runner.Hook.Words.{is_space}

-- The texts that a failure's pattern looks for.
pub data FailurePattern : Type 0 where
  authentication quota rate connection : FailurePattern

-- `json.loads` with the pairs of each object, `str` of a value that is no text, `dict` of a value
-- that is no object, whether a float is zero, `json.dumps`, `str.lower`, the substitution of the
-- secret patterns, SHA-256 of a command, the pattern of remote programs, canonical UUIDs, aware
-- timestamps in microseconds, the draft's JSON Schema, and the patterns of a failure's text.
pub record Library : Type 0 where
  pub loads : String → Option Value
  pub text_of : Value → String
  pub dict_of : Value → Option Fields
  pub is_zero : String → Bool
  pub dumps : Value → String
  pub lower : String → String
  pub substitute_secrets : String → String
  pub command_digest : String → String
  pub names_remote_program : String → Bool
  pub is_canonical_uuid : String → Bool
  pub aware_time : String → Option ℕ
  pub is_valid_draft : Fields → Bool
  pub http_status : String → Option ℕ
  pub says : FailurePattern → String → Bool

-- `closed_object` at every object: no key twice.
unfoldable mutual
  pub is_closed : Value → Bool
  is_closed (arr xs) = are_closed xs
  is_closed (obj fs) = is_closed_object fs
  is_closed _ = true

  pub are_closed : Items → Bool
  are_closed nil = true
  are_closed (cons x xs) = is_closed x && are_closed xs

  pub is_closed_object : Fields → Bool
  is_closed_object end = true
  is_closed_object (field k v fs) = is_closed v && (not (has_key k fs) && is_closed_object fs)

-- `payload.get(key)`
unfoldable pub get : String → Fields → Option Value
get k end = none
get k (field j v fs) = if str_eq j k then some v else get k fs

-- `record[key] = value`
unfoldable pub set : String → Value → Fields → Fields
set k v end = field k v end
set k v (field j w fs) = if str_eq j k then field k v fs else field j w (set k v fs)

-- `payload.get(key) == text`
abbrev pub is_text : Option Value → String → Bool
is_text (some (str s)) t = str_eq s t
is_text _ t = false

abbrev pub items_of : Value → Items
items_of (arr xs) = xs
items_of _ = nil

abbrev pub no_items : Items → Bool
no_items nil = true
no_items (cons _ _) = false

abbrev pub no_fields : Fields → Bool
no_fields end = true
no_fields (field _ _ _) = false

-- `set(marker) == {…}` for keys that the list names once each.
unfoldable pub has_keys : List String → Fields → Bool
has_keys ks end = true
has_keys ks (field k v fs) = one_of k ks && has_keys ks fs

unfoldable pub has_exactly : List String → Fields → Bool
unfolding has_keys
has_exactly ks fs = has_keys ks fs && all (λ k. has_key k fs) ks

-- `text[:limit]`
unfoldable pub take_text : ℕ → String → String
take_text zero s = String.[]
take_text (suc n) String.[] = String.[]
take_text (suc n) (String.◌∷◌ c s) = String.◌∷◌ c (take_text n s)

-- `" ".join(text.split())`: whether a word has begun, and whether a space follows it.
unfoldable pub squeeze : Bool → Bool → String → String
squeeze begun gap String.[] = String.[]
squeeze begun gap (String.◌∷◌ c s) =
    let space = is_space (code c) in
    let rest = squeeze (begun || not space) space s in
    if space
    then rest
    else if begun && gap
    then concat " " (String.◌∷◌ c rest)
    else String.◌∷◌ c rest

-- `not text.strip()`
unfoldable pub is_blank : String → Bool
is_blank t = all is_space (codes t)

abbrev content_items : Option Value → Items
content_items none = nil
content_items (some v) = items_of v

-- The items of `_content`.
unfoldable pub content : Fields → Items
unfolding get
content payload = elim (get "message" payload) [
  | some (obj message) ↦ content_items (get "content" message)
  | other ↦ content_items (get "content" payload)
]

module _ (lib : Library) where
  unfoldable pub strict_json_loads : String → Option Value
  strict_json_loads text = elim (lib.loads text) [
    | none ↦ none
    | some v ↦ if is_closed v then some v else none
  ]

  -- `bool(value)`
  unfoldable pub is_truthy : Value → Bool
  is_truthy null = false
  is_truthy (bool b) = b
  is_truthy (int zero) = false
  is_truthy (int (suc n)) = true
  is_truthy (negative n) = true
  is_truthy (float t) = not (lib.is_zero t)
  is_truthy (str s) = not (str_eq s "")
  is_truthy (arr xs) = not (no_items xs)
  is_truthy (obj fs) = not (no_fields fs)

  -- `bool(payload.get(key))`
  unfoldable pub is_set : Option Value → Bool
  unfolding is_truthy
  is_set none = false
  is_set (some v) = is_truthy v

  abbrev pub as_text : Value → String
  as_text (str s) = s
  as_text v = lib.text_of v

  -- `str(payload.get(key) or "")`
  unfoldable pub text_or_empty : Option Value → String
  unfolding is_truthy
  text_or_empty none = ""
  text_or_empty (some v) = if is_truthy v then as_text v else ""

  unfoldable pub redact_sensitive : ℕ → String → String
  unfolding squeeze take_text
  redact_sensitive limit value =
      take_text limit (lib.substitute_secrets (squeeze false false value))
