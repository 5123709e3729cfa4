-- ===== src/Api/Delivery.antt =====
-- `_deliver` of runner/runner/trusted_api.py: what goes to the callback client, in which order. An
-- attempt is stored before the client is called. `sent`, `proposals` and `terminals` are the history
-- of the calls; the members `_last_ok` and `terminal_finished_at`, which `_deliver` only writes, are
-- left out. One call is modelled, from its start to its end: no lock keeps two calls for a session apart,
-- and neither overlapping calls nor a crash between a stored attempt and its call are in the model.
pub mod Chunks
pub mod Once
use aiops_runner.Prelude.{
  ℕ, zero, suc, Bool, true, false, not, ◌&&◌, ◌||◌, Option, none, some, List, [], ◌∷◌, ◌++◌, length,
  if◌then◌else◌,
}

-- What a call of the client does: the other side takes it, refuses it, or the call raises.
pub data Answer : Type 0 where
  accepted refused raised : Answer

pub record Delivery (E : Type 0) : Type 0 where
  pub proposal_attempted : Bool
  pub last_attempted_sequence : ℕ
  pub terminal_attempted : Bool
  pub proposals : ℕ
  pub sent : List E
  pub terminals : ℕ

abbrev pub not_delivered : {E : Type 0} → Delivery E
not_delivered = record {
  proposal_attempted = false;
  last_attempted_sequence = 0;
  terminal_attempted = false;
  proposals = 0;
  sent = [];
  terminals = 0;
}

-- `events[:n]` and `events[n:]`
abbrev pub take {ℓ} : {A : Type ℓ} → ℕ → List A → List A
take zero xs = []
take (suc n) [] = []
take (suc n) (x ∷ xs) = x ∷ take n xs

abbrev pub drop {ℓ} : {A : Type ℓ} → ℕ → List A → List A
drop zero xs = xs
drop (suc n) [] = []
drop (suc n) (x ∷ xs) = drop n xs

-- `chunk[-1]` of a chunk with a first event.
abbrev pub last_of : {E : Type 0} → E → List E → E
last_of e [] = e
last_of e (x ∷ xs) = last_of x xs

-- What the journal and the client answer in one call of `_deliver`.
pub record Client (E : Type 0) : Type 0 where
  pub identity_proven : Bool
  pub has_proposal : Bool
  pub is_terminal : Bool
  pub send_proposal : Answer
  pub send_events : List E → Answer

abbrev pub is_accepted : Answer → Bool
is_accepted accepted = true
is_accepted _ = false

-- The rest of the loop once the client has answered.
unfoldable pub after_chunk :
    {E : Type 0} → Answer → Delivery E → Delivery E × Answer → Delivery E × Answer
after_chunk accepted tried rest = rest
after_chunk answer tried rest = (tried, answer)

module _ {E : Type 0} (event_sequence : E → ℕ) (client : Client E) where
  -- The attempt at a chunk.
  unfoldable pub attempt_chunk : E → List E → Delivery E → Delivery E
  attempt_chunk e es s = record s {
    last_attempted_sequence = event_sequence (last_of e es);
    sent = s.sent ++ (e ∷ es);
  }

  -- `for offset in range(0, len(events), 100)`, with fuel for the chunks: `accepted` where every
  -- chunk was, else the answer that stopped it.
  unfoldable pub send_chunks : ℕ → List E → Delivery E → Delivery E × Answer
  unfolding attempt_chunk after_chunk
  send_chunks zero events s = (s, accepted)
  send_chunks (suc fuel) [] s = (s, accepted)
  send_chunks (suc fuel) (e ∷ es) s =
      let tried = attempt_chunk e (take 99 es) s in
      let rest = send_chunks fuel (drop 99 es) tried in
      after_chunk (client.send_events (e ∷ take 99 es)) tried rest

  -- `send_terminal` is called where the events were taken.
  unfoldable pub attempt_terminal : Delivery E × Answer → Delivery E
  attempt_terminal (s, raised) = s
  attempt_terminal (s, answer) =
      if client.is_terminal && not s.terminal_attempted
      then record s {
        terminal_attempted = true;
        terminals = elim answer [ accepted ↦ suc s.terminals | other ↦ s.terminals ];
      }
      else s

  -- The events of the journal that were not attempted, and the terminal callback.
  unfoldable pub deliver_events : List E → Delivery E → Delivery E
  unfolding send_chunks attempt_terminal
  deliver_events all_events s =
      attempt_terminal
        (send_chunks (length all_events) (drop s.last_attempted_sequence all_events) s)

  unfoldable pub deliver : List E → Delivery E → Delivery E
  unfolding deliver_events
  deliver all_events s =
      let tried = record s { proposal_attempted = true; proposals = suc s.proposals } in
      if not client.identity_proven
      then s
      else if client.has_proposal && not s.proposal_attempted
      then if is_accepted client.send_proposal then deliver_events all_events tried else tried
      else deliver_events all_events s
