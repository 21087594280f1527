-- ===== src/Lib.antt =====
-- SkillKernel: a governed library of procedural skills. A sidecar service keeps its state in
-- PostgreSQL, runs jobs from a queue, fills that queue from schedules, and lets a candidate skill
-- through only after a scan and a deterministic gate; active skills are frozen by critical canaries.
--
-- The parts and the files that model them:
--
-- Base: tests on numbers and texts, lists, signed integers, JSON values, lists without repetitions,
-- calls that raise, and the operations of Python on texts (strip, join, sorted). It holds no code of
-- the program.
--
-- Jobs: sidecar/autoskill/db/jobs.py, class AsyncpgJobStore, with `ensure_workspace` of
-- sidecar/autoskill/db/workspaces.py. Jobs/Types holds the tables, Jobs/Enqueue `enqueue_job`,
-- Jobs/Claim `claim_next_job` with `_recover_expired_leases`, Jobs/Complete `complete_job` and
-- `renew_job_lease`, one function for each method and each SQL statement of it. Jobs/Steps is the
-- relation of the states that calls of these methods reach.
--
-- Scheduler: sidecar/autoskill/db/scheduler.py, class AsyncpgSchedulerStore. Scheduler/Misfire holds
-- `_next_run_after`, `_missed_run_count` and the misfire policies, Scheduler/Tick `run_due_schedules`,
-- which enqueues into the jobs table of Jobs, and Scheduler/Upsert `upsert_schedule`.
--
-- Scanner: sidecar/autoskill/services/scanner.py. Scanner/Scan holds `scan_text`, `scan_text_bundle`
-- and `has_blocking_findings`.
--
-- Evaluator: sidecar/autoskill/services/evaluator.py. Evaluator/Replay holds the intervention replay,
-- Evaluator/Probes the evaluation of each kind of probe (an adversarial one calls the scanner),
-- Evaluator/Metrics the acceptance metrics and policy, Evaluator/Gate the class
-- DeterministicProposalGateAdapter and `_autonomy_assurance`.
--
-- Lifecycle: sidecar/autoskill/db/lifecycle.py, class AsyncpgLifecycleStore. Lifecycle/Skills holds
-- `freeze_skill`, `unfreeze_skill` and `record_canary_result`; the calls that they make of the
-- governance store are a list in the order in which they are made.
--
-- Redaction: sidecar/autoskill/core/redaction.py. Redaction/Redact holds `redact_payload`.
--
-- Audit: sidecar/autoskill/core/audit.py. Audit/Chain holds `AuditRecord` and `verify_hash_chain`;
-- the digest of sidecar/autoskill/core/hashing.py is a parameter. Audit/Store holds `append_record`,
-- `list_recent` and `verify_chain` of sidecar/autoskill/db/audit.py, over the table of the chains of
-- all workspaces and the `ensure_workspace` of Jobs, and the key of the advisory lock.
--
-- Topology: sidecar/autoskill/services/topology.py and sidecar/autoskill/core/skillgraph.py.
-- Topology/Graph holds the graph of skills with its validator, Topology/Blockers what blocks a
-- proposal, Topology/Proposals `propose_creation`, `propose_improvement`, `propose_composition` and
-- `propose_decomposition`. A set is a list, mostly without repetitions; the message of a blocker is a
-- constructor with the values that the text is formatted with.
--
-- Broker: sidecar/autoskill/services/broker.py. Broker/Select holds the ranking and the selection
-- of the candidates (Broker/Retrieved: they come from what the stores answered), Broker/Policies the policy of an artifact, Broker/Cache the class
-- ContextHintCache, Broker/Hint the rendering, the scan of the rendered bundle (by the scanner) and
-- the response, and Broker/Serve `build_context_hint`. What the stores answer is the record Stores;
-- the calls that only record a response are a list.
--
-- Governance: sidecar/autoskill/db/governance.py, class AsyncpgGovernanceStore. Governance/Transactions
-- holds `start_transaction` and `update_transaction_status`, Governance/Revocations
-- `request_revocation`, `claim_next_revocation_request` and `complete_revocation_request`;
-- Governance/Steps is the relation of the states that calls of these methods reach. The columns
-- started_at and action, and the trace identifiers of a request, are left out.
--
-- How the state is represented. A table is the list of its rows; a UUID is a number; an instant is
-- its count of microseconds, so that `timedelta(seconds=n)` is exact, as floats are below 272
-- years; a transaction either returns the tables after it or is rolled back with the error of a
-- statement. Rows that SKIP LOCKED passes over are a predicate, and a tie in ORDER BY takes the row
-- listed first. The client's clock and the database's are two arguments where the code reads both.
-- Generated identifiers are arguments. What a column of type jsonb keeps of the details of an audit
-- record is a parameter. A negative number of seconds, of attempts or of rows in a limit stands as
-- 0; the priority of a job is signed. The cast to a PostgreSQL integer is checked against its
-- bound, and so are the priority and attempts of an enqueued job and the interval of a schedule, which
-- their columns must hold.
--
-- Python. Exceptions that the gate lets through are values of a result type. What the modules re, json
-- and unicodedata and the text and float types do is a record of functions: Matcher for the scanner,
-- Texts for the redaction, Runtime for the evaluator and the broker, Formats for the broker,
-- Environment for the scheduler. A float is the argument of these functions, with < and <= apart, since
-- a NaN has neither; `float` of an integer and `int` of a float may raise OverflowError, which the
-- evaluator and the broker do not catch. A probe has its two mandatory keys. A set is a list without
-- repetitions where its size matters; texts are compared and sorted by their code points, and trimmed
-- of the characters that `str.isspace` holds of.
--
-- Fuel. Only the loop of `_next_run_after` runs on fuel, one unit for each missed run. For a positive
-- interval the count of missed runs suffices, and so it does for a whole tick; for an
-- interval of zero no fuel does.
--
-- Not modelled: the other stores and services, the HTTP routes, the browser interface, the plugin
-- and the scripts; of the modelled files the methods that only read, the null stores, `to_json`,
-- `detect_threshold_deadlocks`, the replay of a policy and the canary feedback of the broker, the
-- transaction items, provenance edges and invalidation of the governance store, and the content of
-- the evaluator's traces and artifacts.
pub mod Base
pub mod Jobs
pub mod Scheduler
pub mod Scanner
pub mod Redaction
pub mod Evaluator
pub mod Lifecycle
pub mod Audit
pub mod Topology
pub mod Broker
pub mod Governance
