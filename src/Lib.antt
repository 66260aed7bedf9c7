-- ===== src/Lib.antt =====
-- JobSlayer: the control plane of AI task execution, as a shallow embedding with its theorems.
--
-- The program decides what an AI worker may do. `WorkflowKernel` moves a task through its states and
-- is the only owner of a task's state; it reads and appends to an audit journal of hash-linked
-- records. Worker leases make one worker the owner of a run. Budgets are reserved before a run, and
-- attempts and charges draw on them. The serial coordinator decides which node of a run is next, and
-- records its intent before the one side effect of a tick. What is executed is a task plan: a graph that
-- a human edits and finalizes in revisions, to which a planning agent may only propose.
--
-- The files:
--   Base, Base/*          shared names, tests, lists, texts, and `Result` for code that may raise.
--   Time                  `datetime`.
--   Workflow/State        `TaskState`, `ActorType`, `ALLOWED_TRANSITIONS`: src/jobslayer/domain/models.py
--                         and src/jobslayer/workflow/kernel.py.
--   Workflow/Report       the evidence models: src/jobslayer/domain/models.py.
--   Workflow/Journal      records, building and verifying: src/jobslayer/workflow/journal.py. Chain and
--                         Tamper hold the lemmas on the hash chain, Port is the protocol `AuditJournal`
--                         as a record of operations and laws.
--   Workflow/Journal/Jsonl    `JsonlAuditJournal` of the same file; Laws and Protocol hold its proofs, and
--                         its place behind the port.
--   Workflow/Journal/Staged   `TransactionalAuditJournal`:
--                         src/jobslayer/persistence/transactional_journal.py, behind the port too.
--   Workflow/Kernel       `WorkflowKernel`: src/jobslayer/workflow/kernel.py, over any journal of the
--                         port. Gates and Check say what an accepted command has shown, Steps what one
--                         command does, Path and Reach what histories look like.
--   Leases                `WorkerLease`: src/jobslayer/workers/__init__.py. Table, Store and Reading are
--                         `SqliteWorkerLeaseStore`: src/jobslayer/adapters/sqlite_workers.py. Rows, Life,
--                         Methods, Acquire, Recovery and Reload are proofs.
--   Budgets               `ExecutionBudget` and `BudgetSnapshot`: src/jobslayer/governance/__init__.py.
--                         Store and Charge are `SqliteBudgetStore`:
--                         src/jobslayer/adapters/sqlite_budgets.py. Steps, Runs, Reserved and Closed are
--                         proofs; Closed also holds a call of any method of the store.
--   Plan                  the nodes and edges of a task plan: src/jobslayer/orchestration/__init__.py. Graph is
--                         its check for cycles, with its proofs in Order, Pigeon, Visit and Acyclic;
--                         Snapshot, Assess and Record are its other models. Port holds its protocols
--                         `TaskPlanStore` and `PlanningAgent`.
--   Plan/Changes, Edits, Service   `TaskOrchestrationService`:
--                         src/jobslayer/application/task_orchestration.py, over any store of the port.
--                         Next, Edited and Final say how one revision follows from another, Lineage and
--                         Reached what histories look like; Readiness, Rules, Concurrent, Finalized and
--                         Roundtrip are proofs too.
--   Plan/Local            `LocalTaskPlanStore`: src/jobslayer/adapters/local_orchestration.py. LocalLaws,
--                         LocalStore, LocalPort and Refines hold its proofs, and its place behind the port.
--   Manager               the stage of a run: src/jobslayer/task_manager/execution.py. Ready and Cursor are
--                         `_decide` and the cursors of `TaskManagerSerialCoordinator`:
--                         src/jobslayer/application/task_manager_coordinator.py and
--                         src/jobslayer/task_manager/coordinator.py. Decisions, Completion and Bound are
--                         proofs.
--   LongRun               the models of resumable runs: src/jobslayer/long_running/__init__.py; Same is their
--                         equality. Store is `SqliteLongRunStore`:
--                         src/jobslayer/adapters/sqlite_long_runs.py. Usage, Service and Start are
--                         `LongRunningExecutionService`:
--                         src/jobslayer/application/long_running_execution.py. Finished and Stranded are
--                         proofs.
--   Sandbox               `SandboxCapabilities.unmet`: src/jobslayer/workers/__init__.py.
--   */Tests               concrete runs, at which the theorems are applied.
--
-- How code is read: an exception is the error of a `Result`; a method that writes returns the new
-- store beside its result; a call that may raise after a commit returns both. A table is a list of
-- rows, newest first, and a row is the model whose JSON it holds: the columns repeat fields of it.
-- SHA-256 over canonical JSON is the parameter `digest`, the JSON codec of a journal line is `Codec`,
-- the SQL comparison of ISO times is `iso_le`. Python's integers are ℕ where the models forbid
-- negative values. The only fuel is the depth of the search of a plan's graph, one more than the number
-- of its nodes; all other recursion is structural.
--
-- Not modelled: the tick of the coordinator around its decision, adapters that run processes, the HTTP and desktop front ends, the command line, the
-- models of UI design, and the stores of artifacts.
pub mod Base
pub mod Time
pub mod Workflow
pub mod Leases
pub mod Budgets
pub mod Manager
pub mod Sandbox
pub mod Plan
pub mod LongRun
