-- ===== src/Contract/Wire.antt =====
-- `validate_wire_object` of runner/runner/trusted_repair_contract.py over a typed wire object. The
-- JSON Schema library is the parameter `conforms`: whether `iter_errors` yields nothing.
use aiops_runner.Prelude.{String, Bool, str_eq, Result, ◌>>◌, require}
use aiops_runner.Contract.Lifecycle.{
  TrustedRepairErrorCode, validation_failed, unsupported_schema_version,
}

abbrev pub schema_version : String
schema_version = "1.0"

unfoldable pub validate_wire_object :
    {P : Type 0} → (P → String) → (P → Bool) → P → Result TrustedRepairErrorCode Unit
validate_wire_object version conforms payload = do
  require (str_eq (version payload) schema_version) unsupported_schema_version
  require (conforms payload) validation_failed
