-- ===== src/Lib.antt =====
-- The trusted runner of aiops-runner: the repair contract, the sessions, the controller and the hook.
--
-- A repair session goes from a diagnosis by Claude over a proposal and its approval to an execution.
-- AIOps keeps the business state; the runner keeps a durable journal of each session, runs Claude as
-- a local process, and takes control intents that close or stop a session. The contract is what both
-- sides check: the transition table, snapshots, events, intents and receipts with their digests. The
-- hook is the boundary of the tools that Claude may call.
--
-- Contract (runner/runner/trusted_repair_contract.py):
-- - Contract/Lifecycle: the enumerations, TERMINAL_STATUSES, TRANSITIONS and next_status; Paths is
--   about runs of the table, Codes about the texts of statuses and events.
-- - Contract/Wire: validate_wire_object. Contract/Snapshot: validate_repair_session_semantics, split
--   at its checks into check_previous, check_claude_binding and check_proposal_binding.
-- - Contract/Json: values, _normalize, the digest of _canonical_json, parse_wire_json.
-- - Contract/Batch and Contract/Ingest: compute_event_fingerprint, validate_event_batch_semantics and
--   decide_event_ingest, with its two indexes as association lists.
-- - Contract/Intent, Contract/Receipt, Contract/Outcome: control intents and receipts.
--
-- Session (runner/runner/trusted_session.py):
-- - Session/Metadata: the record of a session and the sets of statuses. Session/Codes: error codes.
-- - Session/Registry: ProcessRegistry, where a process is how it ends when it is signalled.
-- - Session/Control: cancel and apply_control_action. The locks are released between the critical
--   sections, so what other threads do there is an arbitrary function on the state.
-- - Session/Journal/Claims, Events, Records: the files of SessionJournal for control results, events,
--   proposals and risk records. A crash between the event line and the metadata is a step of its own.
-- - Session/Outcome: _persist_result, _record_uncertain and recover_active_as_uncertain.
-- - Session/Launch: _enabled_for, _validate_binding, _pre_spawn, _validate_initial_launch and the
--   prompt of resume. Session/Resume: resume, _resume_bound and record_process, where the environment says what the
--   runner reads at each step and what other threads do between two steps; the run of Claude itself
--   is a parameter there.
-- - Session/KillSwitch: activate_kill_switch, over the sessions that it lists, and deactivate_kill_switch.
--
-- Proposal (runner/runner/trusted_proposal_draft.py and trusted_repair_contract.py): Proposal has the
-- public proposal and validate_and_hash_proposal, Proposal/Draft the private draft and its expansion,
-- Proposal/Risk command_is_high_risk.
--
-- Stream (runner/runner/trusted_session.py): Claude's output.
-- - Stream/Reading: how Python reads a JSON value, redact_sensitive and _strict_json_loads; the record
--   Library is what json, re, hashlib, uuid and datetime compute. Stream/State: ParsedStream.
-- - Stream/Markers: _claude_result_failure, _assistant_control_marker, _terminal_structured_output.
-- - Stream/Parser: StreamJsonParser.parse_line and finalize. A step returns the events and the state,
--   or the code of the error that ends the run; Effect, Lines and Balance carry the counts of tools
--   and of markers through every step, line and run, Pause is about what follows a risk pause or the
--   result marker.
-- - Stream/Consume: the loop of ClaudeSessionAdapter.run with the transcript store and the event sink,
--   which may raise, the budget of commands and the end of the process. The result goes to
--   _persist_result of Session/Outcome.
--
-- Api (runner/runner/trusted_api.py): Api/Control has _control_semantics_valid, the binding check and
-- the choice of a receipt's verdict in cancel; Api/Admission has _claim, _ensure_enabled, _http_error;
-- Api/Delivery has _deliver, where the calls of the callback client are kept as a history;
-- one call of _deliver is a step there, so calls that overlap and crashes within one are left out.
--
-- Hook (agent-project-trusted/bin/trusted_tool_hook.py): Hook/Scan has the two scanners, Hook/Words
-- the splitting of a command, Hook/Policy evaluate_hook and main.
--
-- Kubernetes (runner/runner/kubernetes.py): Kubernetes/Collection is CollectionStream, Kubernetes/Pull
-- collection_pull, Kubernetes/Projection the projection of ClusterCollector with the changes that it
-- emits, Kubernetes/Ownership the ownership closures and the exclusion of stopped workloads, and
-- Kubernetes/Sync the sync jobs with their threads, one statement at a time, and pages. Below a component, one module is about
-- what it retains or ends with, and one about what a reader gets.
--
-- Inspection (runner/runner/inspection.py): Inspection/Batch is the life of a batch of targets,
-- Inspection/Create its admission, Inspection/Callback the delivery of its snapshots with the stored
-- failures and their replay, and Inspection/Report the evidence of a report, its status and its fallback.
--
-- Inventory (runner/runner/trusted_inventory.py): _load_hosts and resolve_unique_target;
-- Inventory/Profile is ssh_profile with the connection files. Identity
-- (runner/runner/instance_identity.py): load_identity, IdentityGuard.verify and init_identity, over
-- what the file system holds. Auth (runner/runner/auth.py) is the authentication of a request.
--
-- Prelude holds the shared helpers, Examples the theorems at concrete inputs.
--
-- Times are microseconds on natural numbers. A value that is missing or does not parse is none, an
-- exception is a result with its code, and a dictionary is a record or an association list. Every
-- loop is a recursion on its list or text; the chunks of callback events take fuel, as much as there
-- are events, and each chunk has at least one; the ownership closure takes one round more than there
-- are assets, and every round but the last finds one. JSON Schema, json.loads, the regular expressions,
-- Unicode normalization, SHA-256, UUID and time parsing, the secret scan and shlex.split are
-- parameters. The control operations take verify_identity to succeed.
--
-- Not modelled: the first diagnosis, resuming after a risk grant, the encrypted transcripts, the HTTP
-- client of callbacks, the inspection of one target by Claude and the service inventory of its report,
-- the client, queries and health rules of Kubernetes, configuration, the HTTP server and the scripts. They are input and output for the most part, or are left for later.
mod Prelude
pub mod Auth
pub mod Contract
pub mod Session
pub mod Api
pub mod Hook
pub mod Identity
pub mod Inspection
pub mod Inventory
pub mod Kubernetes
pub mod Stream
pub mod Proposal
mod Examples
