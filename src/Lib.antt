-- ===== src/Lib.antt =====
-- The repair core of EvoCI: budgets, events, path and command policy, the patch engine, verification,
-- the tool loop of the agents, the skill registry, the memory of the runs, and the workflow graph with its routing.
--
-- How the parts interact. The graph of src/evoci/graph/builder.py runs one node after another. Each node
-- takes the state of src/evoci/graph/state.py and may touch what lies outside of it: the workspace's files,
-- the snapshots of the batches, the stored apply plans, the run's budget, its events and its row in the run
-- store. `supervise` asks the supervisor for a decision, `prepare_task` checks the dispatch and takes a
-- snapshot, `worker` runs the task, `approval` asks a human about a risky patch, `apply_candidate` writes the
-- edits, `verify` runs the checks in a copy, `rollback` restores the workspace, and `finalize` and `failed`
-- end the run. The agent of a task is the tool loop: it asks the model, calls the tools of its registry, which
-- read the workspace, the installed skills and the memory, and charges the budgets of the task and the run.
--
-- Files, with the code that each models:
--   Prelude: shared names, tests, list lemmas, outcomes that raise, integers, texts of numbers, dictionaries.
--   Runtime/Events, Runtime/Recorder: src/evoci/runtime/events.py; `emit` and `count` of trajectory.py.
--   Runtime/Budget: src/evoci/runtime/budget.py. A method returns the budget that it leaves and its outcome.
--   Tools/Paths: the parts of pathlib and str that the tools use, and `WorkspaceBoundary.resolve`.
--   Tools/Scope, Tools/Policy: src/evoci/tools/scope.py and policy.py.
--   Tools/Filesystem: the files of a workspace, and `write_file` of src/evoci/tools/filesystem.py.
--   Tools/Patch, Patch/Apply, Patch/Restore: src/evoci/tools/patch.py.
--   Tools/Registry, Tools/Worker, Worker/Memories: `ToolRegistry` of src/evoci/tools/registry.py, and the tools of
--     `create_worker_registry` that reach the skills and memories of a worker.
--   Agents/ToolLoop: src/evoci/agents/tool_loop.py; Pages, Calls, Answers, Turns and Run follow `run`.
--   Capability/Models, Registry: src/evoci/capability/models.py and registry.py; Registry/Staging, Moves,
--     Install and Counts follow `_write_staging`, `create_skill` and `update_skill`, and the counts and memory of a skill.
--   Capability/Catalog: the catalog of enabled skills, src/evoci/capability/retrieval.py.
--   Memory/Models, Store, Store/Content, Retrieval: the models, the rows of the store, the text of an episode and
--     the budget of the retrieved hits, src/evoci/memory/models.py, store.py and retrieval.py.
--   Domain: the records and validators of src/evoci/domain/models.py.
--   Verification/Plan, Evaluate, Service: src/evoci/verification/service.py.
--   Graph/Scheduler, Graph/Routing: src/evoci/graph/scheduler.py and routing.py.
--   Graph/State, State/Effects, State/Restore: src/evoci/graph/state.py, the effects of integration.py and
--     outcome.py, and the restoration of a snapshot, with the faults of the file system.
--   Graph/Outcome: failure classes and the end of a run, src/evoci/graph/outcome.py.
--   Graph/Nodes: one module for each node of src/evoci/graph/builder.py, named for it.
--   Graph/Edges: the routing functions, one step of the graph, and a run as a sequence of steps.
-- The modules below these hold the lemmas on their parents, named for what they are about: Budget/Bounds and
-- Budget/Recovery, Recorder/Once, Paths/Split, Scope/Safety, Filesystem/Views, Patch/Baseline, Apply/Overlay,
-- Restore/Returns and Restore/Attempt, Registry/Gate and Registry/Changes, Worker/Gate, ToolLoop/Stages, Protocol,
-- Spending and Credit, Pages/Whole, Install/Atomic, Install/Whole, Install/Create and Install/Repeat,
-- Counts/Fits and Counts/Tally, Catalog/Fit and Catalog/Listed, Store/Merging, Retrieval/Budget, Plan/Order, Evaluate/Verdict, Service/Contract
-- and Service/Charges, Scheduler/Accepts, Routing/Gate, Apply/Undo, State/Restore/Whole,
-- Rollback/Exact, Edges/Bound and Edges/Success.
-- The modules named Samples hold small inputs and runs on them.
--
-- Choices. An exception is a value of `Raised`; a function that raises returns what it leaves behind, too.
-- A workspace is a function from the components of a path to a file, a directory, another node, or nothing;
-- symbolic links are not modelled, and texts stand for their UTF-8 bytes. A text that Python reads has its
-- newlines translated. Where the file system or SQLite fails is an argument (`Faults` of Capability/Registry/Moves,
-- `Restoring` of Graph/State/Restore). The answers of models, humans, git and subprocesses are arguments, too: the record `Answers` of Graph/Edges holds them for one node, and SHA-256
-- and the fingerprint of a workspace are functions in the record `Setting`. Loops are structural recursion,
-- so no fuel is used; a run of the graph is a relation.
--
-- Not modelled: the prompts of the agents, the consolidation and the fingerprints of the memory, the validator and
-- the scores of skills, the model gateway, the benchmark harness, SQLite with its full-text search, the command
-- line, checkpoints of LangGraph, and the learning that follows the end of a run.
pub mod Prelude
pub mod Runtime
pub mod Tools
pub mod Agents
pub mod Capability
pub mod Domain
pub mod Memory
pub mod Verification
pub mod Graph
