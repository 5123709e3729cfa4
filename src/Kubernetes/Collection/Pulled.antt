-- ===== src/Kubernetes/Collection/Pulled.antt =====
-- What pulls deliver (runner/runner/kubernetes.py, `CollectionStream.read`): a reader that has seen
-- no gap holds the first values of the history, in their order.
use aiops_runner.Prelude.{
  ℕ, suc, ◌+◌, ◌≤◌, ◌<◌, List, [], ◌∷◌, ◌++◌, ◌≡◌, refl, ap, sym, ◌∙◌, length, length-append,
  append_assoc, append_split, arith, ltb, leb, ◌||◌, true, false, Bool-cases, inl, inr, ◌↔◌,
}
use aiops_runner.Kubernetes.Collection.{
  CollectionItem, CollectionStream, new_stream, append, first_sequence, oldest, select,
  last_sequence, read,
}
use aiops_runner.Kubernetes.Collection.Retained.{number, Holds, new_stream-Holds, append-Holds}

module _ {V : Type 0} where
  unfoldable pub values : List (CollectionItem V) → List V
  values [] = []
  values (x ∷ xs) = x.value ∷ values xs

module _ {V : Type 0} (size_of : V → ℕ) where
  -- A stream of the given bound and its one reader: the history, the stream, what the reader has
  -- received and its cursor. It pulls as long as no gap is reported.
  pub data Reached (bound : ℕ) : List V → CollectionStream V → List V → ℕ → Type 0 where
    started : Reached bound [] (new_stream bound) [] 0
    appends :
        {h : List V} {s : CollectionStream V} {r : List V} {c : ℕ}
        → Reached bound h s r c
        → (v : V) → Reached bound (h ++ (v ∷ [])) (append (size_of v) v s) r c
    pulls :
        {h : List V} {s : CollectionStream V} {r : List V} {c : ℕ}
        → Reached bound h s r c
        → (limit maximum : ℕ) → (read c limit maximum s).gap ≡ false
        → Reached bound h s
            (r ++ values (read c limit maximum s).items)
            (read c limit maximum s).next_sequence

  first_sequence-number :
      (next n : ℕ) (kept : List V)
      → next ≡ n + length kept
      → first_sequence next (number size_of n kept) ≡ n
  unfolding first_sequence number
  first_sequence-number next n [] e = omega arith
  first_sequence-number next n (v ∷ kept) e = refl

  pub oldest-Holds :
      (history : List V) (s : CollectionStream V)
      → Holds size_of history s
      → oldest s ≡ suc s.dropped
  unfolding oldest
  oldest-Holds history s h =
      let first = first_sequence-number s.next_sequence (suc (length h.lost)) h.kept (
        omega (
          arith,
          h.next_counts,
          ap (λ l. length l) h.history_split,
          length-append h.lost h.kept,
        )) in
      rw (h.items_kept, h.dropped_lost) first

  -- The items up to the cursor are passed over.
  pub select-skips :
      (after limit maximum n : ℕ) (mid unread : List V)
      → after ≡ n + length mid
      → select after limit maximum 0 0 (number size_of (suc n) (mid ++ unread))
        ≡ select after limit maximum 0 0 (number size_of (suc after) unread)
  unfolding select number
  select-skips after limit maximum n [] unread e =
      let same : n ≡ after = omega (arith, e) in rw (same) refl
  select-skips after limit maximum n (v ∷ mid) unread e =
      let old : leb (suc n) after ≡ true = ground (arith, e) in
      rw (old) (select-skips after limit maximum (suc n) mid unread (omega (arith, e)))

  -- Of the later items a first part is selected.
  pub select-takes :
      (after limit maximum taken used n : ℕ) (unread : List V)
      → after ≤ n
      → (front : List V) × (back : List V) × (unread ≡ front ++ back)
        × (select after limit maximum taken used (number size_of (suc n) unread)
            ≡ number size_of (suc n) front)
  unfolding select number
  select-takes after limit maximum taken used n [] h = ([], [], refl, refl)
  select-takes after limit maximum taken used n (v ∷ unread) h =
      let new : leb (suc n) after ≡ false = ground arith in
      let (front, back, split, taken_front) =
        select-takes after limit maximum (suc taken) (used + size_of v) (suc n) unread
          (omega arith) in
      elim (Bool-cases (leb limit taken || ltb maximum (used + size_of v))) [
        | inl full ↦ ([], v ∷ unread, refl, (rw (new, full) refl))
        | inr room ↦ (v ∷ front, back, (cc), (rw (new, room, taken_front) refl))
      ]

  pub last_sequence-number :
      (after n : ℕ) (front : List V)
      → n ≡ after
      → last_sequence after (number size_of (suc n) front) ≡ after + length front
  unfolding last_sequence number
  last_sequence-number after n [] e = omega arith
  last_sequence-number after n (v ∷ front) e =
      omega (arith, last_sequence-number (suc n) (suc n) front refl)

  pub values-number : (n : ℕ) (xs : List V) → values (number size_of n xs) ≡ xs
  unfolding values number
  values-number n [] = refl
  values-number n (x ∷ xs) = rw (values-number (suc n) xs) refl

  -- A reader behind whose cursor nothing was dropped selects among what it has not received.
  pub select-unread :
      (history received unread : List V) (s : CollectionStream V) (c limit maximum : ℕ)
      → Holds size_of history s
      → history ≡ received ++ unread
      → c ≡ length received
      → s.dropped ≤ c
      → select c limit maximum 0 0 s.items
        ≡ select c limit maximum 0 0 (number size_of (suc c) unread)
  select-unread history received unread s c limit maximum h split counted behind =
      let (mid, front_split, kept_split) =
        append_split h.lost h.kept received unread (sym h.history_split ∙ split)
          (omega (arith, h.dropped_lost)) in
      rw (h.items_kept, kept_split)
        (select-skips c limit maximum (length h.lost) mid unread
          (omega (arith, counted, ap (λ l. length l) front_split, length-append h.lost mid)))

  pub gap-behind :
      (history : List V) (s : CollectionStream V) (c limit maximum : ℕ)
      → Holds size_of history s
      → ((read c limit maximum s).gap ≡ true) ↔ (c < s.dropped)
  unfolding read
  gap-behind history s c limit maximum h =
      let first = oldest-Holds history s h in ground (arith, first)

  -- What a read without a gap answers: the next values of the history, from the cursor on.
  pub read-next :
      (history received unread : List V) (s : CollectionStream V) (c limit maximum : ℕ)
      → Holds size_of history s
      → history ≡ received ++ unread
      → c ≡ length received
      → (read c limit maximum s).gap ≡ false
      → (front : List V) × (back : List V) × (unread ≡ front ++ back)
        × ((read c limit maximum s).items ≡ number size_of (suc c) front)
        × ((read c limit maximum s).next_sequence ≡ c + length front)
  unfolding read
  read-next history received unread s c limit maximum h split counted no_gap =
      let first = oldest-Holds history s h in
      let behind : s.dropped ≤ c = ground (arith, no_gap, first) in
      let (front, back, unread_split, taken) =
        select-takes c limit maximum 0 0 c unread (omega arith) in
      let items : select c limit maximum 0 0 s.items ≡ number size_of (suc c) front =
        select-unread history received unread s c limit maximum h split counted behind ∙ taken in
      (front, back, unread_split, items, (rw (items) (last_sequence-number c c front refl)))

  pub Reached-Holds :
      (bound : ℕ) {h : List V} {s : CollectionStream V} {r : List V} {c : ℕ}
      → Reached bound h s r c
      → Holds size_of h s
  Reached-Holds bound started = new_stream-Holds size_of bound
  Reached-Holds bound (appends {h} {s} before v) =
      append-Holds size_of h s v (Reached-Holds bound before)
  Reached-Holds bound (pulls before limit maximum no_gap) = Reached-Holds bound before

  -- Whatever the order of appends and pulls, a reader whose pulls reported no gap has received the
  -- first values of the history in their order, none lost and none twice, as many as its cursor says.
  pub read-in_order :
      (bound : ℕ) {h : List V} {s : CollectionStream V} {r : List V} {c : ℕ}
      → Reached bound h s r c
      → (unread : List V) × (h ≡ r ++ unread) × (c ≡ length r)
  read-in_order bound started = ([], refl, refl)
  read-in_order bound (appends {h} {s} {r} before v) =
      let (unread, split, counted) = read-in_order bound before in
      (unread ++ (v ∷ []), (rw (split) (append_assoc r unread (v ∷ []))), counted)
  read-in_order bound (pulls {h} {s} {r} {c} before limit maximum no_gap) =
      let (unread, split, counted) = read-in_order bound before in
      let (front, back, unread_split, items, next) =
        read-next h r unread s c limit maximum (Reached-Holds bound before) split counted no_gap in
      let delivered : values (read c limit maximum s).items ≡ front =
        rw (items) (values-number (suc c) front) in
      (
        back,
        (rw (delivered, split, unread_split) (sym (append_assoc r front back))),
        (rw (delivered) (omega (arith, next, counted, length-append r front))),
      )

  -- In every state of the stream a gap is reported exactly to a reader whose cursor is behind what
  -- was dropped.
  pub read-gap_iff :
      (bound c limit maximum : ℕ) {h : List V} {s : CollectionStream V} {r : List V} {d : ℕ}
      → Reached bound h s r d
      → ((read c limit maximum s).gap ≡ true) ↔ (c < s.dropped)
  read-gap_iff bound c limit maximum {h} {s} reached =
      gap-behind h s c limit maximum (Reached-Holds bound reached)
