-- ===== src/Api/Delivery/Once.antt =====
-- What reaches the callback client over the life of a session.
use aiops_runner.Prelude.{◌≡◌, ℕ, suc, ◌≤◌, Bool, true, List, [], ◌∷◌, ◌++◌, length, if◌then◌else◌}
use aiops_runner.Api.Delivery.{Delivery, not_delivered, Client, deliver}
use aiops_runner.Api.Delivery.Chunks.{are_numbered, IsSent}

abbrev at_most : Bool → ℕ
at_most attempted = if attempted then 1 else 0

module _ {E : Type 0} (event_sequence : E → ℕ) where
  record IsOnce (all_events : List E) (s : Delivery E) : Type 0 where
    numbered : are_numbered event_sequence 1 all_events ≡ true
    sent : IsSent all_events s
    proposals : s.proposals ≤ at_most s.proposal_attempted
    terminals : s.terminals ≤ at_most s.terminal_attempted

-- The life of a session: its journal grows by events with the next number, and `_deliver` runs, with
-- any answers, one call after the other and each to its end.
pub data History {E : Type 0} (event_sequence : E → ℕ) : List E → Delivery E → Type 0 where
  created : History event_sequence [] not_delivered
  appended :
      (all_events : List E) (s : Delivery E) (e : E)
      → event_sequence e ≡ suc (length all_events)
      → History event_sequence all_events s
      → History event_sequence (all_events ++ (e ∷ [])) s
  delivered :
      (all_events : List E) (s : Delivery E) (client : Client E)
      → History event_sequence all_events s
      → History event_sequence all_events (deliver event_sequence client all_events s)
