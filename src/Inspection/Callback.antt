-- ===== src/Inspection/Callback.antt =====
-- Delivery of batch snapshots to AIOps (runner/runner/inspection.py, `_callback`,
-- `_record_callback_failure`, `_clear_callback_failure` and `replay_due_callbacks`). What the HTTP
-- client answers at each attempt is a parameter; an error is the list of its characters, empty for
-- none. Times are microseconds. The pauses between attempts are left out.
pub mod Attempts
pub mod Backoff
use aiops_runner.Prelude.{
  ℕ, zero, suc, ◌+◌, ◌-◌, ◌*◌, min, Bool, true, false, not, ◌&&◌, ◌||◌, Option, none, some, List,
  [], ◌∷◌, leb, ltb, ◌==◌, codes, take, if◌then◌else◌,
}

-- `Sender.post`: 0 stands for no status.
pub record Answer : Type 0 where
  pub status_code : ℕ
  pub error : List ℕ

pub record Delivery : Type 0 where
  pub is_retryable : Bool
  pub retry_count : ℕ
  pub attempts : ℕ
  pub snapshot_revision : ℕ
  pub http_status : Option ℕ
  pub error : List ℕ
  pub next_retry_at : Option ℕ

-- The members of a stored batch that a delivery reads or writes.
pub record Stored : Type 0 where
  pub snapshot_revision : ℕ
  pub is_terminal : Bool
  pub callback_delivery : Option Delivery

-- How the attempts of one `_callback` end.
pub record Attempted : Type 0 where
  pub is_delivered : Bool
  pub attempts : ℕ
  pub status_code : ℕ
  pub error : List ℕ

unfoldable pub is_empty : List ℕ → Bool
is_empty [] = true
is_empty (_ ∷ _) = false

-- `_INSPECTION_CALLBACK_MAX_ATTEMPTS`
abbrev pub max_attempts : ℕ
max_attempts = 3

-- `not error and 200 <= status_code < 300`
unfoldable pub is_accepted : Answer → Bool
is_accepted a = is_empty a.error && (leb 200 a.status_code && ltb a.status_code 300)

-- `_callback_failure_retriable`
unfoldable pub callback_failure_retriable : ℕ → List ℕ → Bool
callback_failure_retriable zero error = not (is_empty error)
callback_failure_retriable (suc n) error = suc n == 408 || (suc n == 429 || leb 500 (suc n))

unfoldable pub gave_up : ℕ → Answer → Attempted
gave_up attempt a = record {
  is_delivered = false;
  attempts = attempt;
  status_code = a.status_code;
  error = a.error;
}

unfoldable pub delivered : ℕ → Answer → Attempted
delivered attempt a = record {
  is_delivered = true;
  attempts = attempt;
  status_code = a.status_code;
  error = a.error;
}

-- The loop of `_callback`, from the given attempt on, with that many attempts to follow.
unfoldable pub attempt_from : (ℕ → Answer) → ℕ → ℕ → Attempted
attempt_from post attempt zero =
    let a = post attempt in if is_accepted a then delivered attempt a else gave_up attempt a
attempt_from post attempt (suc left) =
    let a = post attempt in
    let later = attempt_from post (suc attempt) left in
    if is_accepted a
    then delivered attempt a
    else if callback_failure_retriable a.status_code a.error
    then later
    else gave_up attempt a

unfoldable pub two_to : ℕ → ℕ
two_to zero = 1
two_to (suc n) = 2 * two_to n

-- `_callback_retry_delay`, in seconds.
unfoldable pub callback_retry_delay : ℕ → ℕ
callback_retry_delay retry_count = min (5 * two_to (retry_count - 1)) 300

-- `previous`, when it is of the same snapshot.
unfoldable pub same_snapshot : ℕ → Option Delivery → Option Delivery
same_snapshot revision none = none
same_snapshot revision (some d) = if d.snapshot_revision == revision then some d else none

unfoldable pub retries : Option Delivery → ℕ
retries none = 1
retries (some d) = d.retry_count + 1

unfoldable pub total_attempts : Option Delivery → ℕ → ℕ
total_attempts none n = n
total_attempts (some d) n = d.attempts + n

unfoldable pub or_none : ℕ → Option ℕ
or_none zero = none
or_none (suc n) = some (suc n)

unfoldable pub failed_delivery : ℕ → ℕ → ℕ → ℕ → List ℕ → Bool → Option Delivery → Delivery
failed_delivery now revision attempts status_code error is_retryable previous = record {
  is_retryable = is_retryable;
  retry_count = retries previous;
  attempts = total_attempts previous attempts;
  snapshot_revision = revision;
  http_status = or_none status_code;
  error = take 128 error;
  next_retry_at =
      if is_retryable
      then some (now + 1_000_000 * callback_retry_delay (retries previous))
      else none;
}

-- `_record_callback_failure`: a newer snapshot is left alone.
unfoldable pub record_callback_failure : ℕ → ℕ → ℕ → ℕ → List ℕ → Bool → Stored → Stored
record_callback_failure now revision attempts status_code error is_retryable b =
    if b.snapshot_revision == revision
    then record b {
      callback_delivery = some (
          failed_delivery now revision attempts status_code error is_retryable
            (same_snapshot revision b.callback_delivery));
    }
    else b

-- `_clear_callback_failure`
unfoldable pub clear_callback_failure : ℕ → Stored → Stored
clear_callback_failure revision b =
    if b.snapshot_revision == revision then record b { callback_delivery = none } else b

-- `error or "callback_rejected"`
unfoldable pub or_rejected : List ℕ → List ℕ
or_rejected [] = codes "callback_rejected"
or_rejected (c ∷ cs) = c ∷ cs

unfoldable pub record_attempted : ℕ → ℕ → Attempted → Stored → Stored
record_attempted now revision a b =
    if a.is_delivered
    then clear_callback_failure revision b
    else record_callback_failure now revision a.attempts a.status_code (or_rejected a.error)
        (callback_failure_retriable a.status_code a.error) b

-- `_callback` on a snapshot of the given revision, with what its URL and its token are: the answer,
-- and the stored batch.
unfoldable pub callback : Bool → Bool → (ℕ → Answer) → ℕ → ℕ → Stored → Bool × Stored
callback has_url has_token post now revision b =
    let attempted = attempt_from post 1 (max_attempts - 1) in
    if has_url
    then (if has_token
        then (attempted.is_delivered, record_attempted now revision attempted b)
        else (
          false,
          record_callback_failure now revision 0 0 (codes "callback_token_unavailable") false b,
        ))
    else (
      false,
      record_callback_failure now revision 0 0 (codes "callback_url_unavailable") false b,
    )

unfoldable pub is_due : ℕ → Option Delivery → Bool
is_due now none = false
is_due now (some d) = d.is_retryable && elim d.next_retry_at [ none ↦ true | some at ↦ leb at now ]

-- One batch of `replay_due_callbacks`.
unfoldable pub replay_due : Bool → Bool → (ℕ → Answer) → ℕ → Stored → Bool × Stored
replay_due has_url has_token post now b =
    if b.is_terminal && is_due now b.callback_delivery
    then callback has_url has_token post now b.snapshot_revision b
    else (false, b)
