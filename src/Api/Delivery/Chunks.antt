-- ===== src/Api/Delivery/Chunks.antt =====
-- How far the chunks of events go in one call.
use aiops_runner.Prelude.{
  ◌≡◌, ◌≢◌, append-nil, refl, sym, ap, ◌∙◌, subst, ℕ, zero, suc, ◌+◌, ◌≤◌, Bool, true, ◌&&◌, List,
  [], ◌∷◌, ◌++◌, append_assoc, length, length-append, ◌==◌, arith,
}
use aiops_runner.Api.Delivery.{
  Answer, accepted, refused, raised, Delivery, take, drop, last_of, Client, attempt_chunk,
  after_chunk, send_chunks,
}

-- The events are numbered from n on.
abbrev pub are_numbered : {E : Type 0} → (E → ℕ) → ℕ → List E → Bool
are_numbered event_sequence n [] = true
are_numbered event_sequence n (e ∷ es) =
    event_sequence e == n && are_numbered event_sequence (suc n) es

take-drop : {A : Type 0} (n : ℕ) (xs : List A) → take n xs ++ drop n xs ≡ xs
take-drop zero xs = refl
take-drop (suc n) [] = refl
take-drop (suc n) (x ∷ xs) = ap (λ ys. x ∷ ys) (take-drop n xs)

pub drop-append : {A : Type 0} (n : ℕ) (xs ys : List A) → n ≡ length xs → drop n (xs ++ ys) ≡ ys
drop-append zero [] ys h = refl
drop-append zero (x ∷ xs) ys h = absurd (omega (arith, h))
drop-append (suc n) [] ys h = absurd (omega (arith, h))
drop-append (suc n) (x ∷ xs) ys h = drop-append n xs ys (omega (arith, h))

pub length-drop : {A : Type 0} (n : ℕ) (xs : List A) → length (drop n xs) ≤ length xs
length-drop zero xs = omega arith
length-drop (suc n) [] = omega arith
length-drop (suc n) (x ∷ xs) = omega (arith, length-drop n xs)

-- What was sent is the events up to the last that was attempted.
pub record IsSent {E : Type 0} (all_events : List E) (s : Delivery E) : Type 0 where
  pub rest : List E
  pub split : all_events ≡ s.sent ++ rest
  pub last : s.last_attempted_sequence ≡ length s.sent

pub record IsChunked {E : Type 0} (all_events : List E) (s : Delivery E) (r : Delivery E × Answer)
    : Type 0 where
  pub sent : IsSent all_events r.0
  pub complete : r.1 ≡ accepted → r.0.sent ≡ all_events
  pub proposals : r.0.proposals ≡ s.proposals
  pub proposal_attempted : r.0.proposal_attempted ≡ s.proposal_attempted
  pub terminals : r.0.terminals ≡ s.terminals
  pub terminal_attempted : r.0.terminal_attempted ≡ s.terminal_attempted

module _ {E : Type 0} (event_sequence : E → ℕ) where
  are_numbered-append :
      (n : ℕ) (xs ys : List E)
      → are_numbered event_sequence n (xs ++ ys) ≡ true
      → are_numbered event_sequence (n + length xs) ys ≡ true
  are_numbered-append n [] ys h =
      subst (λ k. are_numbered event_sequence k ys ≡ true) (omega arith) h
  are_numbered-append n (x ∷ xs) ys h =
      subst (λ k. are_numbered event_sequence k ys ≡ true) (omega arith)
        (are_numbered-append (suc n) xs ys (ground (arith, h)))

  last_of-number :
      (n : ℕ) (e : E) (es ys : List E)
      → are_numbered event_sequence n ((e ∷ es) ++ ys) ≡ true
      → event_sequence (last_of e es) + 1 ≡ n + length (e ∷ es)
  last_of-number n e [] ys h = ground (arith, h)
  last_of-number n e (x ∷ xs) ys h =
      let rest = last_of-number (suc n) x xs ys (ground (arith, h)) in omega (arith, rest)

  attempt_chunk-IsSent :
      (client : Client E) (all_events : List E) (e : E) (es ys : List E) (s : Delivery E)
      → are_numbered event_sequence 1 all_events ≡ true
      → all_events ≡ s.sent ++ ((e ∷ es) ++ ys)
      → (all_events ≡ (attempt_chunk event_sequence client e es s).sent ++ ys)
        × ((attempt_chunk event_sequence client e es s).last_attempted_sequence
            ≡ length (attempt_chunk event_sequence client e es s).sent)
  unfolding attempt_chunk
  attempt_chunk-IsSent client all_events e es ys s h split =
      let here = last_of-number (1 + length s.sent) e es ys (
        are_numbered-append 1 s.sent ((e ∷ es) ++ ys)
          (subst (λ l. are_numbered event_sequence 1 l ≡ true) split h)) in
      (
        split ∙ sym (append_assoc s.sent (e ∷ es) ys),
        omega (arith, here, length-append s.sent (e ∷ es)),
      )

  done-IsChunked :
      (all_events : List E) (s : Delivery E)
      → all_events ≡ s.sent ++ []
      → s.last_attempted_sequence ≡ length s.sent
      → IsChunked all_events s (s, accepted)
  done-IsChunked all_events s split last = record {
    sent = record { rest = []; split = split; last = last };
    complete = λ taken. sym (append-nil s.sent) ∙ sym split;
    proposals = refl;
    proposal_attempted = refl;
    terminals = refl;
    terminal_attempted = refl;
  }

  stop-IsChunked :
      (client : Client E) (all_events : List E) (e : E) (es ys : List E) (s : Delivery E)
      (answer : Answer)
      → are_numbered event_sequence 1 all_events ≡ true
      → all_events ≡ s.sent ++ ((e ∷ es) ++ ys)
      → answer ≢ accepted
      → IsChunked all_events s (attempt_chunk event_sequence client e es s, answer)
  unfolding attempt_chunk
  stop-IsChunked client all_events e es ys s answer h split stopped =
      let (after, last) = attempt_chunk-IsSent client all_events e es ys s h split in
      record {
        sent = record { rest = ys; split = after; last = last };
        complete = λ taken. absurd (stopped taken);
        proposals = refl;
        proposal_attempted = refl;
        terminals = refl;
        terminal_attempted = refl;
      }

  after_chunk-IsChunked :
      (client : Client E) (all_events : List E) (e : E) (es ys : List E) (s : Delivery E)
      (answer : Answer) (rest : Delivery E × Answer)
      → are_numbered event_sequence 1 all_events ≡ true
      → all_events ≡ s.sent ++ ((e ∷ es) ++ ys)
      → IsChunked all_events (attempt_chunk event_sequence client e es s) rest
      → IsChunked all_events s
          (after_chunk answer (attempt_chunk event_sequence client e es s) rest)
  unfolding after_chunk attempt_chunk
  after_chunk-IsChunked client all_events e es ys s accepted rest h split goes = record {
    sent = goes.sent;
    complete = goes.complete;
    proposals = goes.proposals;
    proposal_attempted = goes.proposal_attempted;
    terminals = goes.terminals;
    terminal_attempted = goes.terminal_attempted;
  }
  after_chunk-IsChunked client all_events e es ys s refused rest h split goes =
      stop-IsChunked client all_events e es ys s refused h split (λ taken. cc)
  after_chunk-IsChunked client all_events e es ys s raised rest h split goes =
      stop-IsChunked client all_events e es ys s raised h split (λ taken. cc)

  pub send_chunks-IsChunked :
      (client : Client E) (all_events : List E) (fuel : ℕ) (events : List E) (s : Delivery E)
      → are_numbered event_sequence 1 all_events ≡ true
      → all_events ≡ s.sent ++ events
      → s.last_attempted_sequence ≡ length s.sent
      → length events ≤ fuel
      → IsChunked all_events s (send_chunks event_sequence client fuel events s)
  unfolding send_chunks
  send_chunks-IsChunked client all_events zero [] s h split last enough =
      done-IsChunked all_events s split last
  send_chunks-IsChunked client all_events zero (e ∷ es) s h split last enough =
      absurd (omega (arith, enough))
  send_chunks-IsChunked client all_events (suc fuel) [] s h split last enough =
      done-IsChunked all_events s split last
  send_chunks-IsChunked client all_events (suc fuel) (e ∷ es) s h split last enough =
      let parts = split ∙ ap (λ l. s.sent ++ (e ∷ l)) (sym (take-drop 99 es)) in
      let tried = attempt_chunk event_sequence client e (take 99 es) s in
      let (after, last) =
        attempt_chunk-IsSent client all_events e (take 99 es) (drop 99 es) s h parts in
      after_chunk-IsChunked client all_events e (take 99 es) (drop 99 es) s
        (client.send_events (e ∷ take 99 es))
        (send_chunks event_sequence client fuel (drop 99 es) tried) h parts
        (send_chunks-IsChunked client all_events fuel (drop 99 es) tried h after last
          (omega (arith, enough, length-drop 99 es)))
