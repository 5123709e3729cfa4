-- ===== src/Stream/Consume/Retry.antt =====
-- The limit of retries while a host is inspected: Claude's provider that stays unavailable ends the
-- run.
use aiops_runner.Prelude.{
  ◌≡◌, refl, ℕ, suc, ◌+◌, ◌<◌, true, false, Option, none, some, List, [], ◌∷◌, ◌++◌, map, length,
  arith, ltb, Bool-cases, inl, inr, String, ok, err, All,
}
use aiops_runner.Session.Codes.{SessionCode, claude_provider_retry_limit}
use aiops_runner.Contract.Json.{str, int, obj, Fields}
use aiops_runner.Stream.Reading.{Library, get, strict_json_loads}
use aiops_runner.Stream.State.{
  inspecting, model_provider_unavailable, StreamEvent, retry_limit_reached, ParsedStream,
}
use aiops_runner.Stream.Parser.{
  api_retry, system_line, parse_object, parse_value, parse_line, keep_events,
}
use aiops_runner.Stream.Consume.{
  World, Arrival, Reading, resume_from, line, Adapter, sink_events, after_sink, sink_made,
  read_parsed, read_stored, read_line, read_output, write,
}

-- A line that reports the status 503 of Claude's provider.
unfoldable pub IsUnavailable : Library → String → Type 0
IsUnavailable lib raw =
    (payload : Fields) × (strict_json_loads lib raw ≡ some (obj payload))
    × (get "type" payload ≡ some (str "system"))
    × (get "subtype" payload ≡ some (str "api_retry"))
    × (get "error_status" payload ≡ some (int 503))

abbrev retried : ParsedStream → ParsedStream
retried s = record s { provider_unavailable_retry_count = suc s.provider_unavailable_retry_count }

abbrev limited : ParsedStream → ParsedStream
limited s = record s {
  provider_unavailable_retry_count = suc s.provider_unavailable_retry_count;
  early_failure = some (record { code = model_provider_unavailable; http_status = some 503 });
}

parse_line-retries :
    (lib : Library) (raw : String) (s : ParsedStream)
    → IsUnavailable lib raw
    → s.terminal_seen ≡ false
    → s.early_failure ≡ none
    → ltb (suc s.provider_unavailable_retry_count) 3 ≡ true
    → parse_line lib inspecting raw s ≡ ok (keep_events ([], retried s))
unfolding IsUnavailable parse_line parse_value parse_object system_line api_retry
parse_line-retries lib raw s (payload, parsed, kind, subtype, status) going quiet few =
    rw (parsed, kind, subtype, status, going, quiet, few) refl

parse_line-limits :
    (lib : Library) (raw : String) (s : ParsedStream)
    → IsUnavailable lib raw
    → s.terminal_seen ≡ false
    → s.early_failure ≡ none
    → ltb (suc s.provider_unavailable_retry_count) 3 ≡ false
    → parse_line lib inspecting raw s ≡ ok (keep_events (retry_limit_reached ∷ [], limited s))
unfolding IsUnavailable parse_line parse_value parse_object system_line api_retry
parse_line-limits lib raw s (payload, parsed, kind, subtype, status) going quiet many =
    rw (parsed, kind, subtype, status, going, quiet, many) refl

-- An adapter whose store and sink take everything.
pub record IsTaking (adapter : Adapter) : Type 0 where
  pub stores : (w : World) (raw : String) → adapter.store w raw ≡ none
  pub sink : World → StreamEvent → Option SessionCode
  pub given : adapter.event_sink ≡ some sink
  pub takes : (w : World) (e : StreamEvent) → sink w e ≡ none

module _ (lib : Library) (adapter : Adapter) (taking : IsTaking adapter) where
  read_line-retries :
      (raw : String) (n : ℕ) (s : ParsedStream) (w : World)
      → IsUnavailable lib raw
      → s.terminal_seen ≡ false
      → s.early_failure ≡ none
      → ltb (suc s.provider_unavailable_retry_count) 3 ≡ true
      → read_line lib inspecting adapter raw n s w
        ≡ (write raw w, ok (n, (keep_events ([], retried s)).1))
  unfolding read_line read_stored read_parsed sink_made sink_events
  read_line-retries raw n s w down going quiet few =
      rw
        (
          taking.stores w raw,
          parse_line-retries lib raw s down going quiet few,
          taking.given,
          quiet,
        )
        refl

  read_line-limits :
      (raw : String) (n : ℕ) (s : ParsedStream) (w : World)
      → IsUnavailable lib raw
      → s.terminal_seen ≡ false
      → s.early_failure ≡ none
      → ltb (suc s.provider_unavailable_retry_count) 3 ≡ false
      → (read_line lib inspecting adapter raw n s w).1 ≡ err claude_provider_retry_limit
  unfolding read_line read_stored read_parsed sink_made sink_events after_sink
  read_line-limits raw n s w down going quiet many =
      rw
        (
          taking.stores w raw,
          parse_line-limits lib raw s down going quiet many,
          taking.given,
          taking.takes (write raw w) retry_limit_reached,
        )
        refl

resume_from-fails :
    (next : ℕ → ParsedStream → World → Reading) (reading : Reading) {code : SessionCode}
    → reading.1 ≡ err code
    → (resume_from next reading).1 ≡ err code
resume_from-fails next (w, err code) h = h
resume_from-fails next (w, ok d) h = cc

-- While a host is inspected, before the result marker, with c consecutive retries counted and none
-- failed, the next 3 - c
-- lines that report the provider as unavailable end the run with the retry limit, whatever follows
-- them, where the transcript store and the sink take everything.
pub read_output-retries :
    (lib : Library) (adapter : Adapter) (lines : List String) (rest : List Arrival) (n : ℕ)
    (s : ParsedStream) (w : World)
    → IsTaking adapter
    → All (IsUnavailable lib) lines
    → s.terminal_seen ≡ false
    → s.early_failure ≡ none
    → s.provider_unavailable_retry_count < 3
    → length lines + s.provider_unavailable_retry_count ≡ 3
    → (read_output lib inspecting adapter (map line lines ++ rest) n s w).1
      ≡ err claude_provider_retry_limit
unfolding read_output
read_output-retries lib adapter [] rest n s w taking down going quiet below total =
    absurd (omega (arith, below, total))
read_output-retries lib adapter (raw ∷ lines) rest n s w taking (d, down) going quiet below total =
    elim (Bool-cases (ltb (suc s.provider_unavailable_retry_count) 3)) [
      | inl few ↦ rw (read_line-retries lib adapter taking raw n s w d going quiet few) (
          read_output-retries lib adapter lines rest n (keep_events ([], retried s)).1 (write raw w)
            taking down going quiet (ground (arith, few)) (omega (arith, total)))
      | inr many ↦
          resume_from-fails (read_output lib inspecting adapter (map line lines ++ rest))
            (read_line lib inspecting adapter raw n s w)
            (read_line-limits lib adapter taking raw n s w d going quiet many)
    ]
