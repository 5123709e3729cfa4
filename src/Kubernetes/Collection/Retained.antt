-- ===== src/Kubernetes/Collection/Retained.antt =====
-- What a collection stream retains (runner/runner/kubernetes.py, `CollectionStream.append`): the
-- history of all that was appended is what was dropped, then what is queued.
use aiops_runner.Prelude.{
  ℕ, suc, ◌+◌, ◌-◌, ◌≤◌, List, [], ◌∷◌, ◌++◌, ◌≡◌, refl, ap, length, length-append, append_assoc,
  arith, ltb, Bool-cases, inl, inr,
}
use aiops_runner.Kubernetes.Collection.{CollectionItem, CollectionStream, new_stream, evict, append}

module _ {V : Type 0} (size_of : V → ℕ) where
  -- Values queued under consecutive sequence numbers.
  unfoldable pub number : ℕ → List V → List (CollectionItem V)
  number n [] = []
  number n (v ∷ vs) = record { sequence = n; value = v; size = size_of v } ∷ number (suc n) vs

  unfoldable pub total : List V → ℕ
  total [] = 0
  total (v ∷ vs) = size_of v + total vs

  -- The stream after a history of appended values.
  pub record Holds (history : List V) (s : CollectionStream V) : Type 0 where
    pub lost : List V
    pub kept : List V
    pub history_split : history ≡ lost ++ kept
    pub dropped_lost : s.dropped ≡ length lost
    pub items_kept : s.items ≡ number (suc (length lost)) kept
    pub next_counts : s.next_sequence ≡ suc (length history)
    pub bytes_total : s.bytes ≡ total kept
    pub bytes_bounded : s.bytes ≤ s.maximum_bytes

  pub number-append :
      (n : ℕ) (xs ys : List V) → number n (xs ++ ys) ≡ number n xs ++ number (n + length xs) ys
  unfolding number
  number-append n [] ys = let same : n + 0 ≡ n = omega arith in rw (same) refl
  number-append n (x ∷ xs) ys =
      let next : n + suc (length xs) ≡ suc n + length xs = omega arith in
      rw (next, number-append (suc n) xs ys) refl

  total-append : (xs ys : List V) → total (xs ++ ys) ≡ total xs + total ys
  unfolding total
  total-append [] ys = omega arith
  total-append (x ∷ xs) ys = omega (arith, total-append xs ys)

  pub new_stream-Holds : (maximum : ℕ) → Holds [] (new_stream maximum)
  unfolding new_stream number total
  new_stream-Holds maximum = record {
    lost = [];
    kept = [];
    history_split = refl;
    dropped_lost = refl;
    items_kept = refl;
    next_counts = refl;
    bytes_total = refl;
    bytes_bounded = omega arith;
  }

  evict-Holds :
      (maximum next : ℕ) (history lost kept : List V)
      → history ≡ lost ++ kept
      → next ≡ suc (length history)
      → Holds history
          (evict maximum next (number (suc (length lost)) kept) (total kept) (length lost))
  unfolding evict number total
  evict-Holds maximum next history lost [] split counted = record {
    lost = lost;
    kept = [];
    history_split = split;
    dropped_lost = refl;
    items_kept = refl;
    next_counts = counted;
    bytes_total = refl;
    bytes_bounded = omega arith;
  }
  evict-Holds maximum next history lost (v ∷ kept) split counted =
      let longer : length (lost ++ (v ∷ [])) ≡ suc (length lost) =
        omega (arith, length-append lost (v ∷ [])) in
      let smaller : (size_of v + total kept) - size_of v ≡ total kept = omega arith in
      let moved : history ≡ (lost ++ (v ∷ [])) ++ kept =
        rw (split, append_assoc lost (v ∷ []) kept) refl in
      let popped = evict-Holds maximum next history (lost ++ (v ∷ [])) kept moved counted in
      elim (Bool-cases (ltb maximum (size_of v + total kept))) [
        | inl over ↦ rw (over, ← longer, smaller) popped
        | inr fits ↦ rw (fits) (record {
          lost = lost;
          kept = v ∷ kept;
          history_split = split;
          dropped_lost = refl;
          items_kept = refl;
          next_counts = counted;
          bytes_total = refl;
          bytes_bounded = ground (arith, fits);
        })
      ]

  -- One more value: the oldest are dropped until the bytes fit.
  pub append-Holds :
      (history : List V) (s : CollectionStream V) (v : V)
      → Holds history s
      → Holds (history ++ (v ∷ [])) (append (size_of v) v s)
  unfolding append number total
  append-Holds history s v h =
      let first : suc (length h.lost) + length h.kept ≡ s.next_sequence =
        omega
          (arith, h.next_counts, ap (λ l. length l) h.history_split, length-append h.lost h.kept) in
      let counted : suc s.next_sequence ≡ suc (length (history ++ (v ∷ []))) =
        omega (arith, h.next_counts, length-append history (v ∷ [])) in
      let split : history ++ (v ∷ []) ≡ h.lost ++ (h.kept ++ (v ∷ [])) =
        rw (h.history_split, append_assoc h.lost h.kept (v ∷ [])) refl in
      let queued : number (suc (length h.lost)) (h.kept ++ (v ∷ []))
          ≡ s.items ++ (record { sequence = s.next_sequence; value = v; size = size_of v } ∷ []) =
        rw (number-append (suc (length h.lost)) h.kept (v ∷ []), first, h.items_kept) refl in
      let measured : total (h.kept ++ (v ∷ [])) ≡ s.bytes + size_of v =
        omega (arith, h.bytes_total, total-append h.kept (v ∷ [])) in
      let kept =
        evict-Holds s.maximum_bytes (suc s.next_sequence) (history ++ (v ∷ [])) h.lost
          (h.kept ++ (v ∷ [])) split counted in
      rw (queued, measured, ← h.dropped_lost) at kept

  append_all : List V → CollectionStream V → CollectionStream V
  append_all [] s = s
  append_all (v ∷ vs) s = append_all vs (append (size_of v) v s)
