-- ===== src/Kubernetes/Ownership/Closure.antt =====
-- The ownership closure ends, and it is reachability (runner/runner/kubernetes.py,
-- `_scaled_to_zero_excluded_uids` and `_descendant_uids`).
use mathlib.Core.List.{Memᴰ}
use aiops_runner.Prelude.{
  ℕ, zero, suc, ◌≤◌, ◌<◌, String, Bool, true, false, not, some, List, [], ◌∷◌, ◌≡◌, ◌↔◌, refl, sym,
  subst, any, count, length, one_of, str_eq, eq_iff, Bool-cases, inl, inr, arith,
}
use aiops_runner.Kubernetes.Ownership.{Owner, Asset, skips, owned_in, sweep, close}

-- What the uids own, through any number of owner references.
pub data Below (assets : List Asset) (seed : List String) : String → Type 0 where
  seeded : {u : String} → one_of u seed ≡ true → Below assets seed u
  owned :
      {a : Asset} {o : Owner}
      → Memᴰ a assets
      → str_eq a.uid "" ≡ false
      → Memᴰ o a.owners
      → Below assets seed o.uid
      → Below assets seed a.uid

abbrev missing : List Asset → List String → ℕ
missing assets found = count (λ a. not (skips a found)) assets

missing-le : (assets : List Asset) (found : List String) → missing assets found ≤ length assets
missing-le [] found = omega arith
missing-le (a ∷ rest) found = ground (arith, missing-le rest found)

missing-add_le :
    (u : String) (assets : List Asset) (found : List String)
    → missing assets (u ∷ found) ≤ missing assets found
unfolding skips
missing-add_le u [] found = omega arith
missing-add_le u (a ∷ rest) found = ground (arith, missing-add_le u rest found)

missing-add_lt :
    (b : Asset) (assets : List Asset) (found : List String)
    → Memᴰ b assets
    → skips b found ≡ false
    → missing assets (b.uid ∷ found) < missing assets found
unfolding skips
missing-add_lt b [] found m new = elim m [ ]
missing-add_lt b (a ∷ rest) found (Memᴰ.head e) new =
    ground (arith, missing-add_le b.uid rest found, eq_iff b.uid b.uid, e)
missing-add_lt b (a ∷ rest) found (Memᴰ.tail m) new =
    ground (arith, missing-add_lt b rest found m new)

-- A round that adds leaves fewer assets to find.
sweep-missing :
    (all rest : List Asset) (found : List String)
    → ((a : Asset) → Memᴰ a rest → Memᴰ a all)
    → (missing all (sweep rest found).found ≤ missing all found)
      × ((sweep rest found).changed ≡ true
          → missing all (sweep rest found).found < missing all found)
unfolding sweep
sweep-missing all [] found sub = ground arith
sweep-missing all (a ∷ rest) found sub =
    let inside : (b : Asset) → Memᴰ b rest → Memᴰ b all = λ b m. sub b (Memᴰ.tail m) in
    ground (
      arith,
      sweep-missing all rest found inside,
      sweep-missing all rest (a.uid ∷ found) inside,
      missing-add_lt a all found (sub a (Memᴰ.head refl)),
    )

sweep-grows :
    (u : String) (rest : List Asset) (found : List String)
    → one_of u found ≡ true
    → one_of u (sweep rest found).found ≡ true
unfolding sweep
sweep-grows u [] found h = h
sweep-grows u (a ∷ rest) found h =
    ground (arith, sweep-grows u rest found, sweep-grows u rest (a.uid ∷ found))

any-found {ℓ} :
    {A : Type ℓ} (p : A → Bool) (xs : List A) → any p xs ≡ true → (x : A) × Memᴰ x xs × (p x ≡ true)
any-found p [] h = cc
any-found p (x ∷ xs) h = elim (Bool-cases (p x)) [
  | inl e ↦ (x, Memᴰ.head refl, e)
  | inr e ↦ let (y, m, holds) = any-found p xs (ground (arith, h, e)) in (y, Memᴰ.tail m, holds)
]

found-any {ℓ} :
    {A : Type ℓ} (p : A → Bool) (x : A) (xs : List A) → Memᴰ x xs → p x ≡ true → any p xs ≡ true
found-any p x [] m h = elim m [ ]
found-any p x (y ∷ ys) (Memᴰ.head e) h = rw (← e, h) refl
found-any p x (y ∷ ys) (Memᴰ.tail m) h = ground (arith, found-any p x ys m h)

abbrev Sound : List Asset → List String → List String → Type 0
Sound assets seed found = (u : String) → one_of u found ≡ true → Below assets seed u

-- No asset is left whose owner was found.
abbrev Closed : List Asset → List String → Type 0
Closed assets found =
    (a : Asset) → Memᴰ a assets → skips a found ≡ false → owned_in a.owners found ≡ false

add-Sound :
    (assets : List Asset) (seed found : List String) (a : Asset)
    → Memᴰ a assets
    → skips a found ≡ false
    → owned_in a.owners found ≡ true
    → Sound assets seed found
    → Sound assets seed (a.uid ∷ found)
unfolding skips owned_in
add-Sound assets seed found a m new owned_found sound u h =
    let (o, owner, holds) = any-found (λ (o : Owner). one_of o.uid found) a.owners owned_found in
    let below : Below assets seed a.uid = owned m (ground (arith, new)) owner (sound o.uid holds) in
    elim (Bool-cases (str_eq u a.uid)) [
      | inl same ↦ subst (λ t. Below assets seed t) (sym ((eq_iff u a.uid).0 same)) below
      | inr other ↦ sound u (ground (arith, h, other))
    ]

sweep-Sound :
    (all : List Asset) (seed : List String) (rest : List Asset) (found : List String)
    → ((a : Asset) → Memᴰ a rest → Memᴰ a all)
    → Sound all seed found
    → Sound all seed (sweep rest found).found
unfolding sweep
sweep-Sound all seed [] found sub sound = sound
sweep-Sound all seed (a ∷ rest) found sub sound =
    let inside : (b : Asset) → Memᴰ b rest → Memᴰ b all = λ b m. sub b (Memᴰ.tail m) in
    let kept = sweep-Sound all seed rest found inside sound in
    elim (Bool-cases (skips a found)) [
      | inl old ↦ rw (old) kept
      | inr new ↦ elim (Bool-cases (owned_in a.owners found)) [
        | inl o ↦
            rw (new, o)
              (sweep-Sound all seed rest (a.uid ∷ found) inside
                (add-Sound all seed found a (sub a (Memᴰ.head refl)) new o sound))
        | inr o ↦ rw (new, o) kept
      ]
    ]

sweep-unchanged :
    (a : Asset) (rest : List Asset) (found : List String)
    → (sweep (a ∷ rest) found).changed ≡ false
    → (sweep (a ∷ rest) found ≡ sweep rest found)
      × (skips a found ≡ false → owned_in a.owners found ≡ false)
unfolding sweep
sweep-unchanged a rest found h = ground arith

-- A round that adds nothing has tested every asset against the same set.
sweep-Closed :
    (rest : List Asset) (found : List String)
    → (sweep rest found).changed ≡ false
    → ((sweep rest found).found ≡ found) × Closed rest found
sweep-Closed [] found h = ((unfold sweep in refl), λ a m new. elim m [ ])
sweep-Closed (a ∷ rest) found h =
    let (same, tested) = sweep-unchanged a rest found h in
    let (stays, closed) = sweep-Closed rest found (rw same at h) in
    (
      (rw (same) stays),
      λ b m. elim m [
        | Memᴰ.head e ↦
            subst (λ (x : Asset). skips x found ≡ false → owned_in x.owners found ≡ false) (sym e)
              tested
        | Memᴰ.tail later ↦ closed b later
      ],
    )

Below-found :
    (assets : List Asset) (seed found : List String)
    → ((u : String) → one_of u seed ≡ true → one_of u found ≡ true)
    → Closed assets found
    → (u : String) → Below assets seed u
    → one_of u found ≡ true
unfolding skips owned_in
Below-found assets seed found start closed u (seeded h) = start u h
Below-found assets seed found start closed u (owned {a} {o} m named owner below) =
    let owner_found = Below-found assets seed found start closed o.uid below in
    let some_owner = found-any (λ (o : Owner). one_of o.uid found) o a.owners owner owner_found in
    ground (arith, closed a m, some_owner, named)

-- With more fuel than there are assets to find, the loop ends with a closed set.
close-ends :
    (fuel : ℕ) (assets : List Asset) (seed found : List String)
    → missing assets found < fuel
    → Sound assets seed found
    → (r : List String) × (close fuel assets found ≡ some r)
      × Sound assets seed r
      × ((u : String) → one_of u found ≡ true → one_of u r ≡ true)
      × Closed assets r
unfolding close
close-ends zero assets seed found enough sound = absurd (omega (arith, enough))
close-ends (suc fuel) assets seed found enough sound =
    let (fewer, less) = sweep-missing assets assets found (λ a m. m) in
    elim (Bool-cases (sweep assets found).changed) [
      | inl more ↦
          let (r, ended, below, grows, closed) =
            close-ends fuel assets seed (sweep assets found).found
              (omega (arith, enough, less more))
              (sweep-Sound assets seed assets found (λ a m. m) sound) in
          (r, (rw (more) ended), below, (λ u h. grows u (sweep-grows u assets found h)), closed)
      | inr same ↦
          let (stays, closed) = sweep-Closed assets found same in
          (found, (rw (same, stays) refl), sound, (λ u h. h), closed)
    ]

-- The loop of the ownership closures ends within one round more than there are assets, and the set
-- that it then has is exactly what the first uids own, through any number of owner references.
pub close-Below :
    (assets : List Asset) (seed : List String)
    → (r : List String) × (close (suc (length assets)) assets seed ≡ some r)
      × ((u : String) → (one_of u r ≡ true) ↔ Below assets seed u)
close-Below assets seed =
    let (r, ended, below, grows, closed) =
      close-ends (suc (length assets)) assets seed seed (omega (arith, missing-le assets seed))
        (λ u h. seeded h) in
    (r, ended, λ u. (below u, Below-found assets seed r grows closed u))
