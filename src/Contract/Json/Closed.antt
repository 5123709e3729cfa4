-- ===== src/Contract/Json/Closed.antt =====
-- Canonical values: what `_normalize` produces, and what it leaves alone.
use aiops_runner.Prelude.{
  ◌≡◌, refl, ap, String, false, Bool-cases, inl, inr, str_lt, str_lt_asym, ok, bind-eq-ok,
  ok-injective, subst,
}
use aiops_runner.Contract.Json.{
  Value, null, bool, int, negative, float, str, arr, obj, Items, nil, cons, Fields, end, field,
  insert_sorted, normalize, normalize_items, normalize_fields,
}

-- No key that follows stands before `k`.
abbrev pub IsFirst : String → Fields → Type 0
IsFirst k end = Unit
IsFirst k (field j w fs) = str_lt j k ≡ false

module _ (nfc : String → String) where
  -- No floats, every text in normal form, and the keys of every object in order.
  abbrev mutual
    pub IsCanonical : Value → Type 0
    IsCanonical null = Unit
    IsCanonical (bool b) = Unit
    IsCanonical (int n) = Unit
    IsCanonical (negative n) = Unit
    IsCanonical (float t) = ⊥
    IsCanonical (str s) = nfc s ≡ s
    IsCanonical (arr xs) = IsCanonicalItems xs
    IsCanonical (obj fs) = IsCanonicalFields fs

    pub IsCanonicalItems : Items → Type 0
    IsCanonicalItems nil = Unit
    IsCanonicalItems (cons x xs) = IsCanonical x × IsCanonicalItems xs

    pub IsCanonicalFields : Fields → Type 0
    IsCanonicalFields end = Unit
    IsCanonicalFields (field k v fs) = IsCanonical v × IsFirst k fs × IsCanonicalFields fs

  insert_sorted-first :
      (k : String) (v : Value) (fs : Fields) → IsFirst k fs → insert_sorted k v fs ≡ field k v fs
  unfolding insert_sorted
  insert_sorted-first k v end h = refl
  insert_sorted-first k v (field j w fs) h = rw h

  IsFirst-insert_sorted :
      (i k : String) (v : Value) (fs : Fields)
      → IsFirst i fs
      → str_lt k i ≡ false
      → IsFirst i (insert_sorted k v fs)
  unfolding insert_sorted
  IsFirst-insert_sorted i k v end h n = n
  IsFirst-insert_sorted i k v (field j w fs) h n = elim (Bool-cases (str_lt j k)) [
    | inl p ↦ rw p h
    | inr q ↦ rw q n
  ]

  insert_sorted-IsCanonical :
      (k : String) (v : Value) (fs : Fields)
      → IsCanonical v
      → IsCanonicalFields fs
      → IsCanonicalFields (insert_sorted k v fs)
  unfolding insert_sorted
  insert_sorted-IsCanonical k v end cv cfs = (cv, tt, tt)
  insert_sorted-IsCanonical k v (field j w fs) cv cfs = elim (Bool-cases (str_lt j k)) [
    | inl p ↦ rw p (
      cfs.0,
      IsFirst-insert_sorted j k v fs cfs.1 (str_lt_asym j k p),
      insert_sorted-IsCanonical k v fs cv cfs.2,
    )
    | inr q ↦ rw q (cv, q, cfs)
  ]

  mutual
    unfolding normalize

    normalize-fixed : (v : Value) → IsCanonical v → normalize nfc v ≡ ok v
    normalize-fixed null c = refl
    normalize-fixed (bool b) c = refl
    normalize-fixed (int n) c = refl
    normalize-fixed (negative n) c = refl
    normalize-fixed (float t) c = absurd c
    normalize-fixed (str s) c = ap (λ t. ok (str t)) c
    normalize-fixed (arr xs) c = rw (normalize_items-fixed xs c)
    normalize-fixed (obj fs) c = rw (normalize_fields-fixed fs c)

    normalize_items-fixed : (xs : Items) → IsCanonicalItems xs → normalize_items nfc xs ≡ ok xs
    normalize_items-fixed nil c = refl
    normalize_items-fixed (cons x xs) c = rw (normalize-fixed x c.0, normalize_items-fixed xs c.1)

    normalize_fields-fixed : (fs : Fields) → IsCanonicalFields fs → normalize_fields nfc fs ≡ ok fs
    normalize_fields-fixed end c = refl
    normalize_fields-fixed (field k v fs) c =
        rw (normalize-fixed v c.0, normalize_fields-fixed fs c.2)
          (ap ok (insert_sorted-first k v fs c.1))

  module _ (idem : (s : String) → nfc (nfc s) ≡ nfc s) where
    mutual
      unfolding normalize

      normalize-IsCanonical : (v : Value) (w : Value) → normalize nfc v ≡ ok w → IsCanonical w
      normalize-IsCanonical null w h = subst IsCanonical (ok-injective h) tt
      normalize-IsCanonical (bool b) w h = subst IsCanonical (ok-injective h) tt
      normalize-IsCanonical (int n) w h = subst IsCanonical (ok-injective h) tt
      normalize-IsCanonical (negative n) w h = subst IsCanonical (ok-injective h) tt
      normalize-IsCanonical (float t) w h = cc
      normalize-IsCanonical (str s) w h = subst IsCanonical (ok-injective h) (idem s)
      normalize-IsCanonical (arr xs) w h =
          let (ys, p, q) = bind-eq-ok (normalize_items nfc xs) _ h in
          subst IsCanonical (ok-injective q) (normalize_items-IsCanonicalItems xs ys p)
      normalize-IsCanonical (obj fs) w h =
          let (gs, p, q) = bind-eq-ok (normalize_fields nfc fs) _ h in
          subst IsCanonical (ok-injective q) (normalize_fields-IsCanonicalFields fs gs p)

      normalize_items-IsCanonicalItems :
          (xs ys : Items) → normalize_items nfc xs ≡ ok ys → IsCanonicalItems ys
      normalize_items-IsCanonicalItems nil ys h = subst IsCanonicalItems (ok-injective h) tt
      normalize_items-IsCanonicalItems (cons x xs) ys h =
          let (y, p, q) = bind-eq-ok (normalize nfc x) _ h in
          let (zs, r, s) = bind-eq-ok (normalize_items nfc xs) _ q in
          subst IsCanonicalItems (ok-injective s)
            (normalize-IsCanonical x y p, normalize_items-IsCanonicalItems xs zs r)

      normalize_fields-IsCanonicalFields :
          (fs gs : Fields) → normalize_fields nfc fs ≡ ok gs → IsCanonicalFields gs
      normalize_fields-IsCanonicalFields end gs h = subst IsCanonicalFields (ok-injective h) tt
      normalize_fields-IsCanonicalFields (field k v fs) gs h =
          let (w, p, q) = bind-eq-ok (normalize nfc v) _ h in
          let (hs, r, s) = bind-eq-ok (normalize_fields nfc fs) _ q in
          subst IsCanonicalFields (ok-injective s) (
            insert_sorted-IsCanonical k w hs (normalize-IsCanonical v w p)
              (normalize_fields-IsCanonicalFields fs hs r))

    -- Where the text normalization is idempotent, a value that `_normalize` accepts comes out
    -- canonical (no float, normal texts, keys in order), and normalizing that again gives it back.
    pub normalize_idem :
        (v w : Value) → normalize nfc v ≡ ok w → IsCanonical w × (normalize nfc w ≡ ok w)
    normalize_idem v w h = let c = normalize-IsCanonical v w h in (c, normalize-fixed w c)
