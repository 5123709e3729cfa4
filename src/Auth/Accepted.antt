-- ===== src/Auth/Accepted.antt =====
-- Which requests are accepted (runner/runner/auth.py, `Authenticator.authenticate`).
use aiops_runner.Prelude.{
  ℕ, Bool, true, false, not, ◌&&◌, List, [], ◌∷◌, ◌++◌, ◌≡◌, refl, sym, ap, ◌∙◌, codes, ◌==◌,
  Result, ok, err, Bool-cases, inl, inr, arith,
}
use aiops_runner.Auth.{
  Text, accepted, AuthLibrary, Authenticator, Raised, same, is_empty, is_ascii, compare_digest,
  before_sign, after_sign, ip_allowed, header, verify_hmac, extract_token, after_hmac, after_token,
  check_token, authenticate,
}

same→eq : (xs ys : Text) → same xs ys ≡ true → xs ≡ ys
unfolding same
same→eq [] [] h = refl
same→eq [] (y ∷ ys) h = cc
same→eq (x ∷ xs) [] h = cc
same→eq (x ∷ xs) (y ∷ ys) h =
    let first : x ≡ y = ground (arith, h) in
    let rest : xs ≡ ys = same→eq xs ys (ground (arith, h)) in cc

sign-split : (s : Text) → is_empty (after_sign s) ≡ false → s ≡ before_sign s ++ (61 ∷ after_sign s)
unfolding before_sign after_sign is_empty
sign-split [] h = absurd (ground (arith, h))
sign-split (c ∷ rest) h = elim (Bool-cases (c == 61)) [
  | inl sign ↦ let is_sign : c ≡ 61 = ground (arith, sign) in rw (sign) (ap (λ x. x ∷ rest) is_sign)
  | inr other ↦ rw (other) (ap (λ l. c ∷ l) (sign-split rest (rw other at h)))
]

compare_digest-same : (a b : Text) → compare_digest a b ≡ ok true → a ≡ b
unfolding compare_digest
compare_digest-same a b h = elim (Bool-cases (is_ascii a && is_ascii b)) [
  | inl plain ↦ same→eq a b (let told = rw plain at h in cc)
  | inr other ↦ let bad = rw other at h in cc
]

module _ (lib : AuthLibrary) where
  -- The signature of the body under the secret, or, where there is no secret, the token.
  pub data Credentials (a : Authenticator) (headers : List (Text × Text)) (body : List ℕ)
      : Type 0 where
    signed :
        is_empty a.hmac_secret ≡ false
        → header lib (codes "x-signature") headers []
          ≡ codes "sha256" ++ (61 ∷ lib.hmac_hex a.hmac_secret body)
        → Credentials a headers body
    presented :
        is_empty a.hmac_secret ≡ true
        → is_empty a.token ≡ false
        → extract_token lib headers ≡ a.token
        → Credentials a headers body

  verify_hmac-signed :
      (secret signature : Text) (body : List ℕ)
      → verify_hmac lib secret body signature ≡ ok true
      → signature ≡ codes "sha256" ++ (61 ∷ lib.hmac_hex secret body)
  unfolding verify_hmac
  verify_hmac-signed secret signature body h =
      elim (Bool-cases
        (same (before_sign signature) (codes "sha256") && not (is_empty (after_sign signature)))) [
          | inl formed ↦
              let algorithm =
                same→eq (before_sign signature) (codes "sha256") (ground (arith, formed)) in
              let digest =
                compare_digest-same (lib.hmac_hex secret body) (after_sign signature)
                  (rw formed at h) in
              let split = sign-split signature (ground (arith, formed)) in
              split
              ∙ ap (λ l. l ++ (61 ∷ after_sign signature)) algorithm
              ∙ ap (λ l. codes "sha256" ++ (61 ∷ l)) (sym digest)
          | inr other ↦ let bad = rw other at h in absurd (ground (arith, bad))
        ]

  after_hmac-accepted :
      (r : Result Raised Bool) (label : Text) → after_hmac lib r ≡ ok (accepted label) → r ≡ ok true
  unfolding after_hmac
  after_hmac-accepted (ok true) label h = refl
  after_hmac-accepted (ok false) label h = absurd (ground (arith, h))
  after_hmac-accepted (err e) label h = cc

  after_token-accepted :
      (p : Text) (r : Result Raised Bool) (label : Text)
      → after_token lib p r ≡ ok (accepted label)
      → r ≡ ok true
  unfolding after_token
  after_token-accepted p (ok true) label h = refl
  after_token-accepted p (ok false) label h = absurd (ground (arith, h))
  after_token-accepted p (err e) label h = cc

  check_token-accepted :
      (token p label : Text) → check_token lib token p ≡ ok (accepted label) → p ≡ token
  unfolding check_token
  check_token-accepted token p label h = elim (Bool-cases (is_empty p)) [
    | inl none ↦ let bad = rw none at h in absurd (ground (arith, bad))
    | inr some_text ↦
        compare_digest-same p token
          (after_token-accepted p (compare_digest p token) label (rw some_text at h))
  ]

  -- A request is accepted only from an allowed address, and only with a valid signature of its body or,
  -- where no secret is configured, with the configured token, which is not empty.
  pub authenticate-accepts :
      (a : Authenticator) (ip : Text) (headers : List (Text × Text)) (body : List ℕ) (label : Text)
      → authenticate lib a ip headers body ≡ ok (accepted label)
      → (ip_allowed lib ip a.ip_allowlist ≡ true) × Credentials a headers body
  unfolding authenticate
  authenticate-accepts a ip headers body label h =
      elim (Bool-cases (ip_allowed lib ip a.ip_allowlist)) [
        | inr outside ↦ let bad = rw outside at h in absurd (ground (arith, bad))
        | inl inside ↦ elim (Bool-cases (is_empty a.hmac_secret)) [
          | inr secret ↦
              let signature = header lib (codes "x-signature") headers [] in
              (
                inside,
                signed secret (
                    verify_hmac-signed a.hmac_secret signature body (
                      after_hmac-accepted (verify_hmac lib a.hmac_secret body signature) label
                        (rw (inside, secret) at h))),
              )
          | inl no_secret ↦ elim (Bool-cases (is_empty a.token)) [
            | inl no_token ↦
                let bad = rw (inside, no_secret, no_token) at h in absurd (ground (arith, bad))
            | inr token ↦ (
              inside,
              presented no_secret token (
                  check_token-accepted a.token (extract_token lib headers) label
                    (rw (inside, no_secret, token) at h)),
            )
          ]
        ]
      ]
