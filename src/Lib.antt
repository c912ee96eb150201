-- ===== src/Lib.antt =====
-- A model of the kernel of M2Harness, a durable harness for agents that write modelling reports.
--
-- The Main Harness (src/m2harness/application/main_harness.py) owns a run: a table of tasks with their
-- dependencies (src/m2harness/domain/dag.py) and one record per task. A run starts on a valid table;
-- each task is dispatched to the tool that solves it; its report completes, blocks or fails it;
-- completed tasks unlock the tasks that depend on them; a rollback takes tasks back; a new plan replaces
-- the table; and the last task publishes a paper that src/m2harness/publication.py has checked. Every
-- operation ends in a compare-and-swap on the run's version in
-- src/m2harness/infrastructure/db/main_harness.py, if the harness has a repository.
--
-- Files and what they model:
--   Prelude      shared helpers: equality tests, Boolean tests, lists over the native numbers, texts
--   Errors       src/m2harness/errors.py and the built-in exceptions that the code raises
--   Json         the values that the program keeps as `Any`
--   Dag          src/m2harness/domain/dag.py: `DAGTaskTable` with `topological_order`,
--                `_reachable_from_roots` (reachable_from_roots) and the validator (validate)
--   Dag/Canonical its two builders, `canonical_single_question_dag` and `canonical_main_harness_dag`
--   Capability   src/m2harness/domain/capability.py, src/m2harness/application/capabilities.py: `register`
--                and `resolve`
--   Reports      the records of src/m2harness/models.py, src/m2harness/domain/solve_problem.py and
--                src/m2harness/application/report_store.py that the Main Harness keeps
--   Publication  src/m2harness/publication.py
--   MainHarness  src/m2harness/application/main_harness.py: `start`, `ready_tasks`, `todo_view`, `dispatch`, `publish`,
--                `generate_paper`, `rollback`, `replan`, `_commit`, `_unlock_dependents` and
--                `_replace_task` by the same names, and the repository in MainHarness/Repository
--   Tools        src/m2harness/domain/tool.py and src/m2harness/infrastructure/db/tool_runs.py: the
--                reservations of idempotency keys (`lookup`, `reserve`, `complete`) in
--                Tools/Reservations and the audit log (`_append`, `verify`) in Tools/Audit; and of
--                src/m2harness/application/tools.py the registry (`register`, `get`, `list`) in
--                Tools/Registry and the middlewares in Tools/Redaction. Tools/Runtime is
--                `ToolRuntime.execute` around a handler, Tools/Schema its `_validate_schema`, and
--                Tools/Runtime/Stored the reservations as its store.
--   MainHarness/Context `_context_for_dispatch`, with `_merge_readonly_files` and `node_dependency_outputs` in
--                MainHarness/Disclosure and src/m2harness/application/compact.py in Compact
--   Store        src/m2harness/store.py and the records of src/m2harness/models.py that it keeps: the
--                transactions and the event chain in Store/Events, questions and artifacts in
--                Store/Questions, leases and transitions in Store/Leases, activities in
--                Store/Activities and the claim evidence in Store/Evidence. A database is the list of its
--                tables; Store/Runs has the databases that the operations lead to. Store/Keeps carries a
--                property through all operations at once.
--   Solve        src/m2harness/application/solve_problem.py: `SolveProblemService.solve`. Solve/Ports has the ports that
--                it is given, as functions that read and change a world behind them and may raise; Solve the
--                checkpoints for an operator's commands, the probes and the archive; Solve/Model and Solve/Code the
--                stages of a round, Solve/Start where it starts or is resumed, Solve/Rounds the loop and what an interrupt ends in.
--                Solve/Reader is the reader of disclosed files, Solve/Tool the handler `_solve_problem` of
--                src/m2harness/application/local_tools.py, which MainHarness/Solved puts behind a dispatch.
--   Workflow     src/m2harness/workflow.py: `_enter_stage`, `_complete_stage` and `_approval_evidence_error`,
--                over the store; Workflow/Steps has the machine of the stages that they refine, Workflow/Runs
--                its runs, Workflow/Leased what the operations on a lease leave between them
--   Todo         src/m2harness/application/todo.py: `TodoLedger.write` (write) with what it checks
--   Events       src/m2harness/domain/events.py and src/m2harness/infrastructure/db/sqlite_events.py:
--                `append_domain`, `_last` (last), `verify`, `list` (list_events), `unpublished` and `mark_published`; Events/Runs has
--                the logs that these lead to
--
-- State and errors. An operation is a function from the repository's rows to a result, a value or the
-- error it raises, and the rows it leaves. The clock is read once for each operation, as a number; ids
-- of reports are numbers that the caller supplies. A dictionary is a list of pairs or is read from the
-- list it is built from.
--
-- In the store an id is the text of its UUID and a time a number of microseconds, since ISO texts of one time
-- zone are ordered as the times are; an operation takes the readings of the clock and the fresh ids it would make.
--
-- Fuel. The loop of the topological sort pops one id per round and is given one round more than there
-- are tasks; the loop over the edges pops an id that is a root or the end of an edge; the loop of a
-- rollback adds an id in all rounds but the last.
--
-- The texts that the solve tool writes for its agents are parameters, since its loop never reads them.
--
-- Not modelled. Left for its size: `run_step` of src/m2harness/workflow.py with its executor, the declared workflow
-- engine, the artifact store, the human control store behind the solve's port, the network policy, `ContextCompactor` and
-- the search over knowledge. Left because it reads and writes files, processes or the network: the report store, the other
-- local tools, the code harnesses and their sandbox, media, skills, the command line, the agents and their prompts. The
-- tool's answers, the report store's answers, the paper composer and Python's Unicode tables are arguments, so the
-- theorems hold for any of them. The digest, the JSON library and Python's comparison of outputs are parameters too. The
-- JSON library sorts the keys of a dictionary that it writes, so what is asked of it speaks of texts, or of lists of ids.
-- A run's row holds the state that is read of its JSON.
pub mod Prelude
pub mod Errors
pub mod Json
pub mod Dag
pub mod Capability
pub mod Compact
pub mod Store
pub mod Workflow
pub mod Todo
pub mod Solve
pub mod Reports
pub mod Publication
pub mod MainHarness
pub mod Tools
pub mod Events
