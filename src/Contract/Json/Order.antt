-- ===== src/Contract/Json/Order.antt =====
-- The order in which the members of an object are written does not show in its digest.
use aiops_runner.Prelude.{
  ◌≡◌, refl, ◌≢◌, ◌⊎◌, inl, inr, ap, ◌∙◌, sym, String, true, false, Bool-cases, arith, str_lt,
  str_lt_asym, str_lt_trans, str_lt_total, Result, ok, err,
}
use aiops_runner.Contract.Lifecycle.{TrustedRepairErrorCode, validation_failed}
use aiops_runner.Contract.Json.{
  Value, null, bool, int, negative, float, str, arr, obj, Items, nil, cons, Fields, end, field,
  insert_sorted, normalize, normalize_items, normalize_fields, canonical_digest,
}

-- Two distinct keys stand in one order.
order-cases :
    (k j : String)
    → k ≢ j
    → ((str_lt k j ≡ true) × (str_lt j k ≡ false)) ⊎ ((str_lt j k ≡ true) × (str_lt k j ≡ false))
order-cases k j h = elim (Bool-cases (str_lt k j)) [
  | inl p ↦ inl (p, str_lt_asym k j p)
  | inr n ↦ elim (Bool-cases (str_lt j k)) [
    | inl p ↦ inr (p, n)
    | inr m ↦ absurd (h (str_lt_total k j n m))
  ]
]

insert_sorted_comm :
    (k j : String) (v w : Value) (fs : Fields)
    → k ≢ j
    → insert_sorted k v (insert_sorted j w fs) ≡ insert_sorted j w (insert_sorted k v fs)
unfolding insert_sorted
insert_sorted_comm k j v w end h = ground (arith, order-cases k j h)
insert_sorted_comm k j v w (field i u fs) h = ground (
  arith,
  order-cases k j h,
  str_lt_trans i k j,
  str_lt_trans i j k,
  insert_sorted_comm k j v w fs h,
)

-- The same members, written in another order; keys that change places are distinct.
pub data SameMembers : Fields → Fields → Type 0 where
  stop : SameMembers end end
  keep :
      {fs gs : Fields} (k : String) (v : Value)
      → SameMembers fs gs
      → SameMembers (field k v fs) (field k v gs)
  swap :
      {fs : Fields} (k j : String) (v w : Value)
      → k ≢ j
      → SameMembers (field k v (field j w fs)) (field j w (field k v fs))
  join : {fs gs hs : Fields} → SameMembers fs gs → SameMembers gs hs → SameMembers fs hs

module _ (nfc : String → String) where
  mutual
    unfolding normalize

    normalize-error :
        (v : Value) (e : TrustedRepairErrorCode) → normalize nfc v ≡ err e → e ≡ validation_failed
    normalize-error null e h = cc
    normalize-error (bool b) e h = cc
    normalize-error (int n) e h = cc
    normalize-error (negative n) e h = cc
    normalize-error (float t) e h = cc
    normalize-error (str s) e h = cc
    normalize-error (arr xs) e h = ground (arith, normalize_items-error xs e)
    normalize-error (obj fs) e h = ground (arith, normalize_fields-error fs e)

    normalize_items-error :
        (xs : Items) (e : TrustedRepairErrorCode)
        → normalize_items nfc xs ≡ err e
        → e ≡ validation_failed
    normalize_items-error nil e h = cc
    normalize_items-error (cons x xs) e h =
        ground (arith, normalize-error x e, normalize_items-error xs e)

    normalize_fields-error :
        (fs : Fields) (e : TrustedRepairErrorCode)
        → normalize_fields nfc fs ≡ err e
        → e ≡ validation_failed
    normalize_fields-error end e h = cc
    normalize_fields-error (field k v fs) e h =
        ground (arith, normalize-error v e, normalize_fields-error fs e)

  normalize_fields_swap :
      (k j : String) (v w : Value) (fs : Fields)
      → k ≢ j
      → normalize_fields nfc (field k v (field j w fs))
        ≡ normalize_fields nfc (field j w (field k v fs))
  unfolding normalize
  normalize_fields_swap k j v w fs h =
      swapped (normalize nfc v) refl (normalize nfc w) refl (normalize_fields nfc fs) refl
    where
      swapped :
          (a : Result TrustedRepairErrorCode Value)
          → normalize nfc v ≡ a
          → (b : Result TrustedRepairErrorCode Value) → normalize nfc w ≡ b
          → (r : Result TrustedRepairErrorCode Fields) → normalize_fields nfc fs ≡ r
          → normalize_fields nfc (field k v (field j w fs))
            ≡ normalize_fields nfc (field j w (field k v fs))
      swapped (ok a) p (ok b) q (ok hs) r = rw (p, q, r) (ap ok (insert_sorted_comm k j a b hs h))
      swapped (ok a) p (ok b) q (err e) r = rw (p, q) (rw r)
      swapped (ok a) p (err e) q r s = rw (p, q)
      swapped (err e) p (ok b) q r s = rw (p, q)
      swapped (err e) p (err d) q r s =
          rw (p, q) (ap err (normalize-error v e p ∙ sym (normalize-error w d q)))

  SameMembers-normalize_fields :
      {fs gs : Fields} → SameMembers fs gs → normalize_fields nfc fs ≡ normalize_fields nfc gs
  unfolding normalize
  SameMembers-normalize_fields stop = refl
  SameMembers-normalize_fields (keep k v m) = rw (SameMembers-normalize_fields m)
  SameMembers-normalize_fields (swap {fs} k j v w h) = normalize_fields_swap k j v w fs h
  SameMembers-normalize_fields (join m n) =
      SameMembers-normalize_fields m ∙ SameMembers-normalize_fields n

  -- Two objects that have the same members in different orders, where members that change places have
  -- distinct keys, have the same digest or are refused with the same error.
  pub SameMembers-canonical_digest :
      (sha256_hex : Value → String) (fs gs : Fields)
      → SameMembers fs gs
      → canonical_digest nfc sha256_hex (obj fs) ≡ canonical_digest nfc sha256_hex (obj gs)
  unfolding canonical_digest normalize
  SameMembers-canonical_digest sha256_hex fs gs m = rw (SameMembers-normalize_fields m)
