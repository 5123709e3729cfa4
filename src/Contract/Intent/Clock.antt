-- ===== src/Contract/Intent/Clock.antt =====
-- The times of a control intent that passes validation.
use aiops_runner.Prelude.{
  ◌≡◌, refl, ℕ, ◌+◌, ◌≤◌, ◌<◌, String, ◌||◌, Option, none, some, leb, ltb, arith, Result, ok, err,
  refuse, ◌>>=◌, ◌>>◌, bind-eq-ok, found, refuse-eq-ok,
}
use aiops_runner.Contract.Lifecycle.{TrustedRepairErrorCode, validation_failed}
use aiops_runner.Contract.Intent.{
  ControlIntent, control_intent_max_ttl, control_intent_clock_skew, check_clock, canonical_uuid,
  canonical_repair, validate_control_intent_semantics,
}

check_clock-bounds :
    (requested expires now : ℕ) {u : Unit}
    → check_clock requested expires (some now) ≡ ok u
    → (requested ≤ now + control_intent_clock_skew) × (now ≤ expires + control_intent_clock_skew)
unfolding check_clock
check_clock-bounds requested expires now h = (ground (arith, h), ground (arith, h))

times-bounds :
    (guards : Result TrustedRepairErrorCode Unit) (asked ends : Option ℕ) (now : ℕ) {u : Unit}
    → (guards >> found asked validation_failed >>= λ requested.
        found ends validation_failed >>= λ expires.
        refuse
          (leb expires requested || ltb (requested + control_intent_max_ttl) expires)
          validation_failed
        >>= λ _. check_clock requested expires (some now))
      ≡ ok u
    → (requested : ℕ) × (expires : ℕ) × (asked ≡ some requested)
      × (ends ≡ some expires)
      × (requested < expires)
      × (expires ≤ requested + control_intent_max_ttl)
      × (requested ≤ now + control_intent_clock_skew)
      × (now ≤ expires + control_intent_clock_skew)
times-bounds (err code) asked ends now h = cc
times-bounds (ok g) none ends now h = cc
times-bounds (ok g) (some requested) none now h = cc
times-bounds (ok g) (some requested) (some expires) now h =
    let (v, ttl, clock) =
      bind-eq-ok
        (refuse (leb expires requested || ltb (requested + control_intent_max_ttl) expires)
          validation_failed)
        _ h in
    let short =
      refuse-eq-ok (leb expires requested || ltb (requested + control_intent_max_ttl) expires)
        validation_failed ttl in
    let (early, late) = check_clock-bounds requested expires now clock in
    (requested, expires, refl, refl, ground (arith, short), ground (arith, short), early, late)

-- An intent that passes validation at a time lasts longer than nothing and at most 600 seconds, was
-- requested no more than 60 seconds after that time, and expired no more than 60 seconds before it.
pub validate_control_intent_semantics-bounds :
    (uuid_text : String → Option String) (timestamp : String → Option ℕ) (intent : ControlIntent)
    (now : ℕ) (u : Unit)
    → validate_control_intent_semantics uuid_text timestamp intent (some now) ≡ ok u
    → (requested : ℕ) × (expires : ℕ) × (timestamp intent.requested_at ≡ some requested)
      × (timestamp intent.expires_at ≡ some expires)
      × (requested < expires)
      × (expires ≤ requested + control_intent_max_ttl)
      × (requested ≤ now + control_intent_clock_skew)
      × (now ≤ expires + control_intent_clock_skew)
unfolding validate_control_intent_semantics
validate_control_intent_semantics-bounds uuid_text timestamp intent now u h =
    times-bounds
      (canonical_uuid uuid_text intent.command_id
        >> canonical_uuid uuid_text intent.run_id
        >> canonical_uuid uuid_text intent.session_id
        >> canonical_uuid uuid_text intent.runner_provider_id
        >> canonical_uuid uuid_text intent.runner_instance_id
        >> canonical_repair uuid_text intent.repair_id)
      (timestamp intent.requested_at) (timestamp intent.expires_at) now h
