-- ===== src/Lib.antt =====
-- Ciacola runs command line agents (Claude, Codex) as the workers of a server. Everything that it
-- knows about them is in one SQLite database, the ledger; new paid work starts at one boundary, the
-- admission; and an executor runs what was admitted through the contract that each provider keeps.
-- This library models the ledger, the admission, the contract, the executors, the recovery, the ceiling
-- on tools, and the assignments of the repo worker with their delegation, and proves what they promise.
--
-- The parts, and where their code is:
--   Contract   crates/ciacola-agent: what a turn asks for (Intent), what a provider can do and the
--              check of the one against the other (Capability), what came of it (Outcome), errors
--              (Failure) and the registry of providers (Registry).
--   Agent      crates/ciacola-core/src/agent.rs, and the runtime defaults of roles.rs: stored
--              definitions (Definition), the system prompt (Prompt), what a turn asks of its provider
--              (Intent), and an exchange with it (Run) and what that leaves to record (Exchange).
--   Limits     crates/ciacola-core/src/limits.rs: the configuration and its validation (Config), the
--              rolling window (Accounting), the circuit breakers (Evaluate), and the protection of a
--              turn that is frozen at admission and checked at execution (Protection).
--   Ledger     crates/ciacola-core/src/ledger.rs: the tables (Rows), the SET clauses of the statements
--              (Transitions), the operations on turns (Turns) and on agents (Agents), and what the
--              `prune` of health.rs does to the text of old turns (Prune). Operations has
--              them as the steps of one machine, with the invariant; Writes and Trace say what a step
--              writes; Validity, History, Once, Interruption, Identity and Loyalty are the proofs.
--   Admission  crates/ciacola-core/src/admission.rs: the rows of the window (Window), the accounting
--              and the report (Report), and the decision with the row that it writes (Admit).
--   Executor   crates/ciacola-core/src/exec.rs and polling.rs: the endpoints that a turn is granted
--              (Scope), the checks before its provider runs (Load), and one delivery of a turn that
--              nobody interferes with, from its claim to its settlement (Deliver). System has the two
--              executors as a step relation: any number of them, each with its permits, its count of
--              deliveries, its queue and its kill tokens, on one ledger that others write to as well.
--              Settled, Landed, Family and the modules under System are the proofs.
--   Grants     crates/ciacola-core/src/identity.rs: which tools a caller can hand to its child.
--   Recovery   crates/ciacola-core/src/recover.rs: the search for orphans (Orphans), and the sweep over
--              the running and the queued turns (Recover), and the order of their keys (Order, which
--              is of the proofs, as is Swept). What `ps` prints, whether `kill` succeeds and
--              `owns_process` of a provider are parameters (System).
--   RepoWorker crates/ciacola-repo-worker/src: the row of an assignment (Assignment, of assignment.rs),
--              the statements of db.rs (Statements, Finish, Reserve), and the statements as one machine
--              (Requests). The unique indexes of migrations/0001_assignments.sql are tested by each
--              UPDATE and by the reservation. Journey, Guarded, Indexes, Busy and Names are the proofs.
--              Delegation has crates/ciacola-core/src/delegation.rs (Policy) and delegation.rs of the repo
--              worker: the walk over a lineage (Lineage) and the check of an assignment before an action
--              on it is delegated (Preflight). Ancestors says what a lineage is; the rest are the proofs.
--   Base       tables, results, texts and numbers, as the other parts use them. Samples has test data;
--              each part has a module Tests.
--
-- How code corresponds to model. A table is the list of its rows, an UPDATE is `update_where`, and
-- `rows_affected() == 1` is `one_row`. An operation takes the ledger and gives the ledger after it with
-- its answer; a transaction is one operation, so a rollback gives back the ledger as it was. The clock,
-- new ids, sessions and tokens are arguments. A column that holds one of a few words is a data type; a
-- column that holds JSON is the value, so a text that does not parse is not modelled, and neither is a
-- database that fails. Numbers are natural; what the source cuts off at u64::MAX or i64::MAX is cut off
-- here. A dollar amount, a floating point number in the source, is a record of the answers to the tests
-- that the source makes on it. The trigger that marks settlements of old executables is in
-- `update_turns`; the one that refuses an old claimant cannot fire, since `claim_turn` writes the
-- version that it asks for. The loops of `spawn_depth` and `delegated_lineage_hops` have the source's
-- own bounds of 64 and 65 rounds. Printing a number has the number and one more as fuel, and a number has
-- no more digits than that; no other definition has fuel. Sentences for the operator are left out.
--
-- In Executor.System a step is what a task does between two points where it can be made to wait; `load`,
-- which reads more than once, is one step there. The order of steps is free, so the relation has every
-- order that the runtime can choose. What a provider answers and reports, what the file of endpoints
-- holds, the variable HOME and how an error displays are parameters (Setup, World).
--
-- Not modelled: the migrations and listings of the ledger, the timers and channels of the executors'
-- runtime and what they log, the server and its tools, the other plugins, the tools of the repo worker
-- with its imports and its start, what a pruning does in the tables of plugins, and the adapters, which run foreign commands.
pub mod Base
pub mod Contract
pub mod Limits
pub mod Agent
pub mod Ledger
pub mod Admission
pub mod Recovery
pub mod Executor
pub mod RepoWorker
pub mod Grants
pub mod Samples
