-- ===== src/Kubernetes/Collection.antt =====
-- The bounded stream of collected changes (runner/runner/kubernetes.py, `CollectionStream`): what
-- the collector appends, and what a pull of the platform reads after its cursor. A cursor is a
-- natural number here. The size of a value, `len(_canonical(value))`, is a parameter. The lock
-- makes each operation one step.
pub mod Retained
pub mod Pulled
pub mod Drained
use aiops_runner.Prelude.{
  ℕ, suc, ◌+◌, ◌-◌, max, List, [], ◌∷◌, ◌++◌, Bool, true, false, ◌||◌, leb, ltb, if◌then◌else◌,
  length,
}

pub record CollectionItem (V : Type 0) : Type 0 where
  pub sequence : ℕ
  pub value : V
  pub size : ℕ

pub record CollectionStream (V : Type 0) : Type 0 where
  pub maximum_bytes : ℕ
  pub items : List (CollectionItem V)
  pub next_sequence : ℕ
  pub bytes : ℕ
  pub dropped : ℕ

-- What `read` and `skip_to_latest` answer; only the latter counts what a quota skipped.
pub record Page (V : Type 0) : Type 0 where
  pub items : List (CollectionItem V)
  pub next_sequence : ℕ
  pub oldest_sequence : ℕ
  pub gap : Bool
  pub dropped : ℕ
  pub queue_bytes : ℕ
  pub quota_skipped : ℕ

module _ {V : Type 0} where
  -- `CollectionStream.__init__`
  unfoldable pub new_stream : ℕ → CollectionStream V
  new_stream maximum = record {
    maximum_bytes = maximum;
    items = [];
    next_sequence = 1;
    bytes = 0;
    dropped = 0;
  }

  -- `while self.items and self.bytes > self.maximum_bytes`
  unfoldable pub evict : ℕ → ℕ → List (CollectionItem V) → ℕ → ℕ → CollectionStream V
  evict maximum next [] bytes dropped = record {
    maximum_bytes = maximum;
    items = [];
    next_sequence = next;
    bytes = bytes;
    dropped = dropped;
  }
  evict maximum next (x ∷ rest) bytes dropped =
      let popped = evict maximum next rest (bytes - x.size) (suc dropped) in
      if ltb maximum bytes then popped else record {
        maximum_bytes = maximum;
        items = x ∷ rest;
        next_sequence = next;
        bytes = bytes;
        dropped = dropped;
      }

  -- `append`, after the size of the value is computed.
  unfoldable pub append : ℕ → V → CollectionStream V → CollectionStream V
  append size v s =
      evict s.maximum_bytes (suc s.next_sequence)
        (s.items ++ (record { sequence = s.next_sequence; value = v; size = size } ∷ []))
        (s.bytes + size) s.dropped

  unfoldable pub first_sequence : ℕ → List (CollectionItem V) → ℕ
  first_sequence next [] = next
  first_sequence next (x ∷ rest) = x.sequence

  -- `available[0].sequence if available else self.next_sequence`
  unfoldable pub oldest : CollectionStream V → ℕ
  oldest s = first_sequence s.next_sequence s.items

  -- The loop of `read`: `taken` and `used` are the number and the bytes of the selected items.
  unfoldable pub select : ℕ → ℕ → ℕ → ℕ → ℕ → List (CollectionItem V) → List (CollectionItem V)
  select after limit maximum taken used [] = []
  select after limit maximum taken used (x ∷ rest) =
      let skipped = select after limit maximum taken used rest in
      let further = select after limit maximum (suc taken) (used + x.size) rest in
      if leb x.sequence after
      then skipped
      else if leb limit taken || ltb maximum (used + x.size)
      then []
      else x ∷ further

  -- `selected[-1]["sequence"] if selected else after`
  unfoldable pub last_sequence : ℕ → List (CollectionItem V) → ℕ
  last_sequence after [] = after
  last_sequence after (x ∷ rest) = last_sequence x.sequence rest

  unfoldable pub read : ℕ → ℕ → ℕ → CollectionStream V → Page V
  read after limit maximum s =
      let selected = select after limit maximum 0 0 s.items in
      record {
        items = selected;
        next_sequence = last_sequence after selected;
        oldest_sequence = oldest s;
        gap = ltb after (oldest s - 1);
        dropped = s.dropped;
        queue_bytes = s.bytes;
        quota_skipped = 0;
      }

  unfoldable pub skip_to_latest : ℕ → CollectionStream V → Page V
  skip_to_latest after s = record {
    items = [];
    next_sequence = max after (s.next_sequence - 1);
    oldest_sequence = oldest s;
    gap = false;
    dropped = s.dropped;
    queue_bytes = s.bytes;
    quota_skipped = (s.next_sequence - 1) - after;
  }
