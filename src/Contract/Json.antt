-- ===== src/Contract/Json.antt =====
-- JSON values, `_normalize`, `_canonical_json` with its digest, and the hooks of `parse_wire_json`,
-- of runner/runner/trusted_repair_contract.py. `unicodedata.normalize("NFC", …)`, `json.loads`,
-- and SHA-256 over the dumped text are parameters.
pub mod Order
pub mod Closed
use aiops_runner.Prelude.{
  ℕ, String, Bool, false, Option, none, some, str_eq, str_lt, concat, if◌then◌else◌, ◌||◌, Result,
  ok, err, ◌>>=◌, refuse,
}
use aiops_runner.Contract.Lifecycle.{TrustedRepairErrorCode, validation_failed}

-- `int n` is n and `negative n` is -(n + 1). A float is kept as its source text.
mutual
  pub data Value : Type 0 where
    null : Value
    bool : Bool → Value
    int : ℕ → Value
    negative : ℕ → Value
    float : String → Value
    str : String → Value
    obj : Fields → Value
    arr : Items → Value

  pub data Items : Type 0 where
    nil : Items
    cons : Value → Items → Items

  pub data Fields : Type 0 where
    end : Fields
    field : String → Value → Fields → Fields

-- `sorted(value)` builds the object key by key.
unfoldable pub insert_sorted : String → Value → Fields → Fields
insert_sorted k v end = field k v end
insert_sorted k v (field j w fs) =
    if str_lt j k then field j w (insert_sorted k v fs) else field k v (field j w fs)

-- `key in result`
unfoldable pub has_key : String → Fields → Bool
has_key k end = false
has_key k (field j v fs) = str_eq j k || has_key k fs

-- Every error is the one code, so the order in which members are visited does not show.
module _ (nfc : String → String) where
  unfoldable mutual
    pub normalize : Value → Result TrustedRepairErrorCode Value
    normalize null = ok null
    normalize (bool b) = ok (bool b)
    normalize (int n) = ok (int n)
    normalize (negative n) = ok (negative n)
    normalize (float t) = err validation_failed
    normalize (str s) = ok (str (nfc s))
    normalize (arr xs) = normalize_items xs >>= λ ys. ok (arr ys)
    normalize (obj fs) = normalize_fields fs >>= λ gs. ok (obj gs)

    pub normalize_items : Items → Result TrustedRepairErrorCode Items
    normalize_items nil = ok nil
    normalize_items (cons x xs) = normalize x >>= λ y. normalize_items xs >>= λ ys. ok (cons y ys)

    pub normalize_fields : Fields → Result TrustedRepairErrorCode Fields
    normalize_fields end = ok end
    normalize_fields (field k v fs) =
        normalize v >>= λ w. normalize_fields fs >>= λ gs. ok (insert_sorted k w gs)

  -- `"sha256:" + hashlib.sha256(_canonical_json(value).encode()).hexdigest()`, where `sha256_hex`
  -- stands for the digest of the dump of a normalized value.
  unfoldable pub canonical_digest : (Value → String) → Value → Result TrustedRepairErrorCode String
  canonical_digest sha256_hex value =
      normalize value >>= λ canonical. ok (concat "sha256:" (sha256_hex canonical))

  -- `closed_object` over the pairs of an object, last pair first: a key that occurs twice once
  -- normalized is refused.
  unfoldable mutual
    pub close_value : Value → Result TrustedRepairErrorCode Value
    close_value (float t) = err validation_failed
    close_value (arr xs) = close_items xs >>= λ ys. ok (arr ys)
    close_value (obj fs) = close_fields fs >>= λ gs. ok (obj gs)
    close_value v = ok v

    pub close_items : Items → Result TrustedRepairErrorCode Items
    close_items nil = ok nil
    close_items (cons x xs) = close_value x >>= λ y. close_items xs >>= λ ys. ok (cons y ys)

    pub close_fields : Fields → Result TrustedRepairErrorCode Fields
    close_fields end = ok end
    close_fields (field k v fs) = close_value v >>= λ w. close_fields fs >>= λ gs.
        refuse (has_key (nfc k) gs) validation_failed >>= λ _. ok (field (nfc k) w gs)

  -- `isinstance(value, Mapping)`, then the normalization.
  unfoldable pub normalize_object : Value → Result TrustedRepairErrorCode Value
  normalize_object (obj fs) = normalize (obj fs)
  normalize_object _ = err validation_failed

  -- `loads` gives the value with the pairs of every object as written, or nothing where the body
  -- is no JSON text.
  unfoldable pub parse_wire_json :
      (String → Option Value) → String → Result TrustedRepairErrorCode Value
  parse_wire_json loads raw = elim (loads raw) [
    | none ↦ err validation_failed
    | some value ↦ close_value value >>= normalize_object
  ]
