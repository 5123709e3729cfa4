-- ===== src/Examples/Auth.antt =====
-- A witness for runner/runner/auth.py.
use aiops_runner.Prelude.{◌≡◌, refl, true, List, [], ◌∷◌, codes}
use aiops_runner.Auth.{
  Text, AuthLibrary, Authenticator, ip_allowed, authenticate, in_any, is_empty, check_token,
  extract_token, begins_with, header, same, after_token, compare_digest, is_ascii, token_id,
}
use aiops_runner.Auth.Accepted.{Credentials, authenticate-accepts}

abbrev plain_library : AuthLibrary
plain_library = record {
  lower = λ t. t;
  strip = λ t. t;
  hmac_hex = λ secret body. codes "ab";
  digest8 = λ t. codes "12345678";
  is_address = λ t. true;
  in_network = λ ip cidr. true;
}

abbrev token_only : Authenticator
token_only = record {
  token = codes "s3cret";
  hmac_secret = [];
  ip_allowlist = codes "10.0.0.0/8" ∷ [];
}

abbrev token_headers : List (Text × Text)
token_headers = (codes "x-ops-token", codes "s3cret") ∷ []

authenticate-accepts_example :
    (ip_allowed plain_library (codes "10.1.2.3") (codes "10.0.0.0/8" ∷ []) ≡ true)
    × Credentials plain_library token_only token_headers []
unfolding authenticate ip_allowed in_any is_empty check_token extract_token begins_with header same
    after_token compare_digest is_ascii token_id
authenticate-accepts_example =
    authenticate-accepts plain_library token_only (codes "10.1.2.3") token_headers []
      (codes "12345678") refl
