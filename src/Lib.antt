-- ===== src/Lib.antt =====
-- SafeAgent: a guard that lets an agent's action with outside effects happen at most once. The
-- Python modules are modelled function by function; tables and dicts are association lists by
-- their key, in the order of their rows.
--
-- Parts, and the file that models each:
--   Settlement/Models, StateMachine: settlement/models.py and state_machine.py, the cases and the
--   transitions of their state.
--   Settlement/Tally, Reconciliation, Policy: settlement/reconciliation.py and policy.py, outcome
--   signals into a case, their tally, and when a case may be finalized without a person.
--   Settlement/Gate, Lifecycle: settlement/gate.py, `attempt_settlement`; Lifecycle has the runs of
--   a case under the operations of the package, as a step relation.
--   Execution/Store: safeagent_exec_guard/sqlite_store.py, `SQLiteExecutionStore`, with `claim`,
--   `settle`, `get`, `audit_claims`, `count_stale_pending` and `sweep_stale_pending`.
--   Execution/Postgres: safeagent_exec_guard/postgres_store.py, the three calls of the registry.
--   Execution/Hosted, Governance: safeagent_exec_guard/pg_store.py, `PgExecutionStore`, of the hosted
--   service, with its receipts and anchors; a write may find no connection or lose its answer.
--   Execution/Receipt, Registry, Submit: settlement/settlement_requests.py,
--   `SettlementRequestRegistry`: `execute` on its SQLite, Postgres and memory backends, and
--   `submit`, which goes through the gate.
--   Execution/Workers: `_execute_sqlite` again, as workers with a connection each to one database
--   file, whose SQL statements, commits and rollbacks interleave and who may stop between any two.
--   Boundary/Permit, Ledger, Gateway: safeagent_exec_guard/boundary.py, signed permits, the permit
--   table with its journal, and the gateway that verifies, binds, consumes and dispatches.
--   Attestation: safeagent_exec_guard/attestation_gate.py, `gate`.
--   Stripe/Store, Journal, Reconcile, Request: safeagent_exec_guard/stripe_gateway.py, the store of
--   PaymentIntents, its webhook journal, `reconcile`, and the check of a request.
--   ExitGuard: safeagent_exec_guard/exit_duplicate_guard.py, the exits of a trading bot.
--   Control: the reconciliation of recorded claims with a broker's orders, control/v15. From
--   reconcile_v12.py: Models (the dataclasses and enums), Identity (stable ids and
--   `normalize_inputs`), Evidence (`build_evidence_graph`), Matching (`bipartite_max_matching`), Tier
--   (the searches that start from a given matching), Outcome (`max_matchings_for_tier`), Resolution
--   and Assignments (`resolve_assignments`). From reconcile_v12_classify.py: Results and Classify
--   (`classify_results`, `reconcile` and `reconcile_with_disposition`). From
--   ingestion_normalization.py: Ingestion. They are run in the order Ingestion, Identity, Evidence,
--   Assignments, Classify.
--   Prelude: texts, JSON values, dicts, lists, methods that may raise. Tests: each theorem applied.
--
-- Choices. A method is a function from its state to a result and the next state; what it wrote
-- before it raised stays written, but a database transaction that raises is rolled back. Clock
-- readings and fresh uuids are arguments, and times are natural numbers. A JSON column holds the
-- dict that was dumped; a float is a value that is stored and never computed with. A confidence
-- is a fraction. Rows of equal time keep the order of the table. `audit_claims` takes a limit and
-- an offset that are natural numbers, as its HTTP callers ensure. What an action does outside is
-- an entry in a log, `invoked` or `executed`; the action does not call back into the guard. It
-- returns, raises an `Exception`, which the code catches, or is interrupted by what is no
-- `Exception`, which the code does not catch. The searches for an augmenting path take fuel, 1
-- more than the number of compatible pairs, which the results on matchings show to be enough:
-- they return, and what they return is right. Every other loop goes along a list. In Control a
-- claim or an order is its position in the input, a quantity is counted in units of 10^-8 and a
-- time in microseconds; the sentences for a reader, `evidence` and `detail`, are left out.
--
-- Parameters. Canonical JSON, SHA-256, base64url and Ed25519 of the boundary are the record
-- `Boundary.Permit.Provider`, and what is documented of them is `IsLawful` in
-- Boundary/Gateway/Binding. The attestation gate takes its digest, date and number functions as
-- `Attestation.Provider`, and the outcome of its signature check as an argument; the Stripe calls
-- and `str.lower` are arguments too. How Python writes numbers and times as text, which the stable
-- ids and the keys of ingested records contain, is `Control.Identity.Writing` and
-- `Control.Ingestion.TieTexts`.
--
-- Not modelled: the HTTP and payment servers, `dispatch` of the Stripe gateway, the stores of
-- cases, the hosted access, the parsers, command line, output validator and summaries of
-- control/v15, the adapters, threads that use one `SQLiteExecutionStore` and with it one
-- connection at the same time, and all connection handling but the write lock of an SQLite file
-- and what a broken connection does to a write of the hosted store.
pub mod Prelude
pub mod Settlement
pub mod Execution
pub mod Boundary
pub mod Control
pub mod Attestation
pub mod ExitGuard
pub mod Stripe
pub mod Tests
