-- ===== src/Auth.antt =====
-- Authentication of a request (runner/runner/auth.py). Texts are lists of code points. Lower case,
-- stripping, the digest and the HMAC in hexadecimal, and IP addresses are parameters. A comparison in
-- constant time refuses texts that are not ASCII with a TypeError, which is `raises` here.
pub mod Accepted
use aiops_runner.Prelude.{
  ℕ, String, Bool, true, false, not, ◌&&◌, ◌||◌, Option, none, some, List, [], ◌∷◌, all, drop,
  codes, ltb, ◌==◌, if◌then◌else◌, Result, ok, err,
}

abbrev pub Text : Type 0
Text = List ℕ

pub data Reason : Type 0 where
  ip_not_allowed bad_hmac bad_token runner_auth_not_configured : Reason

-- The label of an accepted or refused request that may be written to the audit.
pub data AuthResult : Type 0 where
  accepted : Text → AuthResult
  refused : Reason → Text → AuthResult

pub data Raised : Type 0 where
  raises : Raised

pub record AuthLibrary : Type 0 where
  pub lower : Text → Text
  pub strip : Text → Text
  pub hmac_hex : Text → List ℕ → Text
  pub digest8 : Text → Text
  pub is_address : Text → Bool
  pub in_network : Text → Text → Bool

pub record Authenticator : Type 0 where
  pub token : Text
  pub hmac_secret : Text
  pub ip_allowlist : List Text

unfoldable pub same : Text → Text → Bool
same [] [] = true
same [] (_ ∷ _) = false
same (_ ∷ _) [] = false
same (a ∷ xs) (b ∷ ys) = a == b && same xs ys

unfoldable pub is_empty : Text → Bool
is_empty [] = true
is_empty (_ ∷ _) = false

unfoldable pub is_ascii : Text → Bool
is_ascii t = all (λ c. ltb c 128) t

-- `hmac.compare_digest(a, b)`
unfoldable pub compare_digest : Text → Text → Result Raised Bool
compare_digest a b = if is_ascii a && is_ascii b then ok (same a b) else err raises

-- `text.partition("=")`: what is before the first sign, and what is after it.
unfoldable pub before_sign : Text → Text
before_sign [] = []
before_sign (c ∷ rest) = let later = before_sign rest in if c == 61 then [] else c ∷ later

unfoldable pub after_sign : Text → Text
after_sign [] = []
after_sign (c ∷ rest) = let later = after_sign rest in if c == 61 then rest else later

unfoldable pub begins_with : Text → Text → Bool
begins_with [] t = true
begins_with (p ∷ ps) [] = false
begins_with (p ∷ ps) (c ∷ cs) = p == c && begins_with ps cs

module _ (lib : AuthLibrary) where
  unfoldable pub in_any : Text → List Text → Bool
  in_any ip [] = false
  in_any ip (cidr ∷ rest) = lib.in_network ip cidr || in_any ip rest

  -- `ip_allowed`; a network that does not parse has no address.
  unfoldable pub ip_allowed : Text → List Text → Bool
  ip_allowed ip [] = true
  ip_allowed ip (cidr ∷ rest) = lib.is_address ip && in_any ip (cidr ∷ rest)

  -- `{k.lower(): v for k, v in headers.items()}.get(name, "")`: the last one counts.
  unfoldable pub header : Text → List (Text × Text) → Text → Text
  header name [] found = found
  header name ((k, v) ∷ rest) found =
      header name rest (if same (lib.lower k) name then v else found)

  -- `verify_hmac`
  unfoldable pub verify_hmac : Text → List ℕ → Text → Result Raised Bool
  verify_hmac secret body signature =
      if same (before_sign signature) (codes "sha256") && not (is_empty (after_sign signature))
      then compare_digest (lib.hmac_hex secret body) (after_sign signature)
      else ok false

  unfoldable pub extract_token : List (Text × Text) → Text
  extract_token headers =
      if begins_with (codes "bearer ") (lib.lower (header (codes "authorization") headers []))
      then lib.strip (drop 7 (header (codes "authorization") headers []))
      else lib.strip (header (codes "x-ops-token") headers [])

  unfoldable pub token_id : Text → Text
  token_id [] = []
  token_id (c ∷ cs) = lib.digest8 (c ∷ cs)

  unfoldable pub after_hmac : Result Raised Bool → Result Raised AuthResult
  after_hmac (ok true) = ok (accepted (codes "hmac"))
  after_hmac (ok false) = ok (refused bad_hmac [])
  after_hmac (err e) = err e

  unfoldable pub after_token : Text → Result Raised Bool → Result Raised AuthResult
  after_token presented (ok true) = ok (accepted (token_id presented))
  after_token presented (ok false) = ok (refused bad_token (token_id presented))
  after_token presented (err e) = err e

  unfoldable pub check_token : Text → Text → Result Raised AuthResult
  check_token token presented =
      if is_empty presented
      then ok (refused bad_token (token_id presented))
      else after_token presented (compare_digest presented token)

  -- `Authenticator.authenticate`
  unfoldable pub authenticate :
      Authenticator → Text → List (Text × Text) → List ℕ → Result Raised AuthResult
  authenticate a ip headers body =
      if not (ip_allowed ip a.ip_allowlist)
      then ok (refused ip_not_allowed [])
      else if not (is_empty a.hmac_secret)
      then after_hmac (verify_hmac a.hmac_secret body (header (codes "x-signature") headers []))
      else if not (is_empty a.token)
      then check_token a.token (extract_token headers)
      else ok (refused runner_auth_not_configured [])
