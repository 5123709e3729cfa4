-- ===== src/Kubernetes/Collection/Drained.antt =====
-- Pulling until nothing comes (runner/runner/kubernetes.py, `CollectionStream.read`): when a read
-- moves the cursor, and that repeated reads reach the end of the stream.
use aiops_runner.Prelude.{
  ℕ, zero, suc, ◌+◌, ◌≤◌, ◌<◌, List, [], ◌∷◌, ◌++◌, ◌≡◌, ◌↔◌, refl, sym, ap, ◌∙◌, length,
  length-append, append_assoc, append-nil, arith, leb, ltb, ◌||◌, false, Bool-cases, inl, inr, All,
  Option, none, some,
}
use aiops_runner.Kubernetes.Collection.{CollectionStream, select, last_sequence, read}
use aiops_runner.Kubernetes.Collection.Retained.{number, Holds}
use aiops_runner.Kubernetes.Collection.Pulled.{
  values, Reached, Reached-Holds, read-in_order, select-unread, gap-behind, select-takes,
  last_sequence-number, read-next, values-number,
}

All-drop {ℓ κ} :
    {A : Type ℓ} (P : A → Type κ) (front back : List A) → All P (front ++ back) → All P back
All-drop P [] back h = h
All-drop P (x ∷ front) back h = All-drop P front back h.1

module _ {V : Type 0} where
  -- `while page["items"]`: a reader that pulls until a page is empty.
  unfoldable pub drain : ℕ → ℕ → CollectionStream V → ℕ → ℕ → List V → Option (List V)
  drain limit maximum s zero c received = none
  drain limit maximum s (suc fuel) c received =
      let page = read c limit maximum s in
      let rest = drain limit maximum s fuel page.next_sequence (received ++ values page.items) in
      elim page.items [ [] ↦ some received | x ∷ xs ↦ rest ]

module _ {V : Type 0} (size_of : V → ℕ) where
  select-progress :
      (c limit maximum : ℕ) (v : V) (unread : List V)
      → (c < last_sequence c (select c limit maximum 0 0 (number size_of (suc c) (v ∷ unread))))
        ↔ ((0 < limit) × (size_of v ≤ maximum))
  unfolding select number last_sequence
  select-progress c limit maximum v unread =
      let new : leb (suc c) c ≡ false = ground arith in
      let (front, back, split, taken) =
        select-takes size_of c limit maximum 1 (0 + size_of v) (suc c) unread (omega arith) in
      elim (Bool-cases (leb limit 0 || ltb maximum (0 + size_of v))) [
        | inl full ↦ rw (new, full) (ground (arith, full))
        | inr room ↦
            let end = last_sequence-number size_of (suc c) (suc c) front refl in
            rw (new, room, taken) (ground (arith, room, end))
      ]

  -- With a value to deliver and no gap, a read moves the cursor exactly when its limit is positive
  -- and the next value fits in its bytes: a value that does not fit stops the reader.
  pub read-progress_iff :
      (bound limit maximum : ℕ) {h : List V} {s : CollectionStream V} {r : List V} {c : ℕ} (v : V)
      (unread : List V)
      → Reached size_of bound h s r c
      → h ≡ r ++ (v ∷ unread)
      → s.dropped ≤ c
      → (c < (read c limit maximum s).next_sequence) ↔ ((0 < limit) × (size_of v ≤ maximum))
  unfolding read
  read-progress_iff bound limit maximum {h} {s} {r} {c} v unread reached split behind =
      let (before, seen, counted) = read-in_order size_of bound reached in
      let same =
        select-unread size_of h r (v ∷ unread) s c limit maximum
          (Reached-Holds size_of bound reached) split counted behind in
      rw (same) (select-progress c limit maximum v unread)

  drain-round :
      (limit maximum fuel c : ℕ) (received front : List V) (s : CollectionStream V)
      (goal : Option (List V))
      → (read c limit maximum s).items ≡ number size_of (suc c) front
      → (front ≡ [] → some received ≡ goal)
      → (0 < length front
          → drain limit maximum s fuel (read c limit maximum s).next_sequence (received ++ front)
            ≡ goal)
      → drain limit maximum s (suc fuel) c received ≡ goal
  unfolding drain number values
  drain-round limit maximum fuel c received [] s goal items stop go = rw (drain, items) (stop refl)
  drain-round limit maximum fuel c received (v ∷ front) s goal items stop go =
      let delivered : values (read c limit maximum s).items ≡ v ∷ front =
        rw (items) (values-number size_of (suc c) (v ∷ front)) in
      rw (drain, items, delivered) (go (omega arith))

  unread-progress :
      (history received unread : List V) (s : CollectionStream V) (c limit maximum : ℕ)
      → Holds size_of history s
      → history ≡ received ++ unread
      → c ≡ length received
      → s.dropped ≤ c
      → 0 < limit
      → All (λ v. size_of v ≤ maximum) unread
      → (read c limit maximum s).next_sequence ≡ c
      → unread ≡ []
  unfolding read
  unread-progress history received [] s c limit maximum h split counted behind positive fits stuck =
      refl
  unread-progress history received (v ∷ unread) s c limit maximum h split counted behind positive
        fits stuck =
      let same =
        select-unread size_of history received (v ∷ unread) s c limit maximum h split counted
          behind in
      let moved = (select-progress c limit maximum v unread).1 (positive, fits.0) in
      absurd (omega (arith, ap (λ l. last_sequence c l) same, moved, stuck))

  drain-rest :
      (limit maximum fuel c : ℕ) (history received unread : List V) (s : CollectionStream V)
      → 0 < limit
      → Holds size_of history s
      → history ≡ received ++ unread
      → c ≡ length received
      → s.dropped ≤ c
      → All (λ v. size_of v ≤ maximum) unread
      → length unread < fuel
      → drain limit maximum s fuel c received ≡ some history
  unfolding drain
  drain-rest limit maximum zero c history received unread s positive h split counted behind fits
        enough =
      absurd (omega (arith, enough))
  drain-rest limit maximum (suc fuel) c history received unread s positive h split counted behind
        fits enough =
      let no_gap : (read c limit maximum s).gap ≡ false =
        ground (arith, gap-behind size_of history s c limit maximum h) in
      let (front, back, unread_split, items, next) =
        read-next size_of history received unread s c limit maximum h split counted no_gap in
      drain-round limit maximum fuel c received front s (some history) items
        (λ none_left.
          let stuck : (read c limit maximum s).next_sequence ≡ c =
            omega (arith, next, ap (λ l. length l) none_left) in
          let ended =
            unread-progress history received unread s c limit maximum h split counted behind
              positive fits stuck in
          rw (split, ended) (ap some (sym (append-nil received))))
        (λ moved.
          drain-rest limit maximum fuel (read c limit maximum s).next_sequence history
            (received ++ front) back s positive h
            (split ∙ ap (λ l. received ++ l) unread_split ∙ sym (append_assoc received front back))
            (omega (arith, next, counted, length-append received front))
            (omega (arith, next, behind)) (All-drop _ front back (rw unread_split at fits))
            (omega
              (arith, enough, moved, ap (λ l. length l) unread_split, length-append front back)))

  -- Pulling with a positive limit, from a cursor behind which nothing was dropped, ends with the whole
  -- history received, within one pull more than there are values to come, when each of those fits in
  -- the bytes of a page.
  pub drain-ends :
      (bound limit maximum fuel : ℕ) {h : List V} {s : CollectionStream V} {r : List V} {c : ℕ}
      (unread : List V)
      → Reached size_of bound h s r c
      → h ≡ r ++ unread
      → s.dropped ≤ c
      → 0 < limit
      → All (λ v. size_of v ≤ maximum) unread
      → length unread < fuel
      → drain limit maximum s fuel c r ≡ some h
  drain-ends bound limit maximum fuel {h} {s} {r} {c} unread reached split behind positive fits
        enough =
      let (before, seen, counted) = read-in_order size_of bound reached in
      drain-rest limit maximum fuel c h r unread s positive (Reached-Holds size_of bound reached)
        split counted behind fits enough
