-- ===== src/Lib.antt =====
-- LineageTX: a safety gate that coordinates one producer schema change across its consumers.
--
-- The program's parts, by path from the repository's root, and the files that model them:
--
-- src/data_lineage_fix_agent/lineagetx/models.py: Models. Status has the enumerations and the two
-- transition tables, Text the identifier, SHA and blank-text tests, Intent `ChangeIntent`,
-- Participants `Participant`, Receipts the three receipts. A record is the dataclass's fields;
-- `new` and `check_…` are the checks of `__post_init__`. Runtime is what the code asks of hashlib,
-- json, datetime and urllib: a parameter, a record of functions. RoundTrip is about an intent's
-- dictionary.
--
-- src/data_lineage_fix_agent/lineagetx/state.py: State. `SQLiteStateStore` is a record of four
-- tables (State/Tables), each SQL statement a function on rows; `_write_transaction` gives back
-- the old store when its body raises. State/Migrations, State/Participants and State/Approvals
-- have the operations, one function for each method, with the body of its transaction as a
-- function of its own; the keyword arguments of a transition are a record `Move`, and `utc_now()`
-- is an argument. State/Calls has a client's calls in the order in which BEGIN IMMEDIATE lets the
-- writers in. State/Changes has the steps that the operations make; MigrationSteps,
-- ParticipantSteps and Inversion relate them to the operations, and Invariants is the rule for
-- every sequence of calls. Gate is about the gate release and the abort cleanup, Replay about the
-- event log, Evolution and History about the record of one migration, Terminal about a finished
-- one, Growth about the length of the log, Ledger about the approvals; Gate/Quiet and
-- Replay/Faithful/Events have their lemmas on single writes.
--
-- src/data_lineage_fix_agent/lineagetx/policy.py: Policy. `validate_discovery` is in Binding, in
-- the order of its checks, which Discovery and Traces have; Context is the discovery result of
-- src/data_lineage_fix_agent/lineagetx/datahub_context.py that it reads, Approval is
-- `validate_owner_approval`. Bindings and Hops are about what an accepted discovery says,
-- Recording about the way of an approval to the store, with the receipt that `_apply_approval` of
-- src/data_lineage_fix_agent/lineagetx/coordinator.py builds. The decimal digits of Unicode are a
-- parameter.
--
-- src/data_lineage_fix_agent/lineagetx/publisher.py: Publisher. Requests has the dataclasses with
-- their checks and `validate`, Local is `LocalReceiptPublisher`, whose three dicts are a record,
-- Equality the comparison of dataclasses. Its calls go to `World`: the clock, the parsers, and the
-- file system's answer to the write of publication.json. Retry and Acceptance are about what a
-- publication gives; the latter meets State, which checks the receipts when a migration is
-- committed.
--
-- src/data_lineage_fix_agent/lineagetx/proposals.py and
-- src/data_lineage_fix_agent/lineagetx/participants/: Candidates has the records that a candidate
-- passes through and the checks that make them, with pathlib and sqlglot as a parameter; Structure
-- is `assert_structured_candidate`, and Bound is about what it accepts. What the adapters write is
-- an answer of the coordinator's collaborators.
--
-- src/data_lineage_fix_agent/lineagetx/coordinator.py: Coordinator. World has what the coordinator
-- holds (its dicts, the store, the calls so far) and `Services`, the collaborators that its
-- constructor takes: each answer is a function of the calls made before it, so that any behaviour
-- is covered, a failure at any call included, and `others` is what other clients do to the store
-- between two statements. Runs has the statements that raise and catch, Commit `commit` and
-- `reconcile_commit`, Abort `abort`, `reconcile_abort` and `_abort_after_failure`, Detect `detect`
-- and the operations as a client asks for them; Requests, Records, Recovery, Writeback and Names
-- are their parts; Recovery/Receipts is about what Recovery reads back, Refusal about an approval
-- that fails. Verify, Prepare and Approve have `prepare`, whose loop has one handler for each
-- round, `approve` and `approve_from_github`. What an evidence file holds and the reason code of
-- an abort are not modelled. Rules and Gains are the rules for statements; Safety is about the
-- gate release and the removal of worktrees, Durable about what `commit` and `abort` return.
--
-- src/data_lineage_fix_agent/lineagetx/evidence.py: Evidence. The bundle is the list of what lies
-- under its root; `build_manifest` and `verify_manifest` are modelled, the writing of single
-- artifacts is not. Bundle is about what a manifest says.
--
-- src/data_lineage_fix_agent/lineagetx/resume.py: Resume. A dict of the snapshot's fields stands
-- as a snapshot, hmac and json are a parameter; Signed is about what is read back.
--
-- An exception is a value of `Exception` (Prelude/Results); its message is not modelled. A JSON
-- column holds the value that it encodes. Numbers are natural numbers: a version is never
-- negative, and a negative pull request number is outside the model. No loop needs fuel: each runs
-- over a list.
--
-- Not modelled: the services (DataHub, GitHub, git), SQL parsing by sqlglot and the HTTP
-- transports, which are outside the repository; worktrees.py, github_approval.py, writeback.py,
-- the rest of datahub_context.py, the rewrites of the participant adapters and the reference
-- proposer, which the coordinator sees as answers of its collaborators; the command line, the
-- scripts and the demonstration. The manifest's components list them one by one.
pub mod Prelude
pub mod Models
pub mod State
pub mod Policy
pub mod Publisher
pub mod Resume
pub mod Candidates
pub mod Coordinator
pub mod Evidence
pub mod Examples
