-- ===== src/Lib.antt =====
-- The workflow engine of oarlock: definitions of workflows, and the runs that execute them.
--
-- A workflow is a graph of steps. A definition is checked when it is saved; a run of it lives in the
-- rows of a database, and moves by transactions. The API starts, cancels and retries runs. A control
-- worker advances a run: it derives the state of the run from the latest attempts of its steps, and
-- inserts the tasks that are ready. A task worker claims a task, runs its executor and finishes or
-- parks it. The reaper fails tasks whose worker is gone, the scheduler starts the runs of cron
-- triggers, and a job or a callback resumes a parked task. The parts meet in the rows and in the job
-- queue only, so the model is one state, `Engine.Store.Db`, and each transaction is a function on it.
-- The API's own tables are states of their own: accounts and sessions, API tokens, triggers, and the
-- catalog of workflows and versions, of which the engine's rows are a view.
--
-- Which file models which part; paths are from the repository's root.
-- - Definition: engine/internal/definition/definition.go. `Step`, `Validate`, `checkAcyclic` and
--   `TransitiveNeeds` are `step`, `validate`, `check_acyclic` and `transitive_needs`. Its modules
--   Graph, Closure, Painting, Acyclic and Valid hold the declarative notions and the proofs.
-- - Json: values as encoding/json marshals them, with the order of keys and the escapes.
-- - Steps.Js: `runJS` and `EvalExpression` of engine/internal/steps/native.go, over a machine.
-- - Engine.Store: the tables of engine/internal/db/migrations/0001_init.sql and the job queue.
-- - Engine.Runs: `StartRunOpts`, `CancelRun` and `RetryRun` of engine/internal/engine/engine.go.
-- - Engine.Context: `buildRunContext` of engine/internal/engine/execute.go, `evalGuard` of advance.go.
-- - Engine.Advance: `advanceRunWorker.Work` of engine/internal/engine/advance.go.
-- - Engine.Execute: `finishTask`, `suspendTask` and the claim of engine/internal/engine/execute.go.
-- - Engine.Resume, Engine.Reaper, Engine.Scheduler: resume.go, reaper.go and scheduler.go beside it.
-- - Engine.System: the transactions as a transition relation, `Reaches`, and with the deletions of
--   workflows, `Evolves`; `cascade` is what the foreign keys of 0001_init.sql delete with a workflow.
--   Engine.Ledger has how each transaction moves the tasks, Engine.System.Roster how each moves the
--   runs, Engine.System.Quiet the tasks of canceled runs; Engine.System.Deletes, Forever and Commits
--   have what holds of both together.
-- - Engine.Work, Engine.Interpolate: `executeTaskWorker.Work` and `interpolateConfig` of execute.go.
-- - Engine.Redact: engine/internal/engine/redact.go.
-- - Api.Users: engine/internal/api/users.go; Api.RateLimit: ratelimit.go beside it.
-- - Engine.TaskLog: engine/internal/engine/dblog.go.
-- - Steps.Registry: `Registry` and `Default` of engine/internal/steps/steps.go.
-- - Api.Hooks: engine/internal/api/hooks.go.
-- - Api.Http: `error`, `clampLimit` and `slugify` of engine/internal/api/api.go.
-- - Api.Workflows, Api.Runs: the handlers of engine/internal/api/api.go, and resume.go beside it.
-- - Api.Auth, Api.SignIn: engine/internal/api/auth.go.
-- - Api.Tokens: engine/internal/api/tokens.go, and `authenticateToken` of mcpserver.go.
-- - Api.Triggers: engine/internal/api/triggers.go.
-- - Vault: engine/internal/vault/vault.go.
-- - Api.Uses, Api.Secrets, Api.Servers: engine/internal/api/resources.go.
-- - Api.Logs: `runLogs` and `runLogsDownload` of engine/internal/api/api.go.
-- - Api.Password: engine/internal/api/password.go.
--
-- Conventions. A text is a list of bytes, a UUID a number drawn from the counter `next_id`, a time a
-- number of nanoseconds. A transaction that returns an error leaves the state as it was, so its
-- function returns the error alone. Errors of the connection to the database are left out. A query
-- with `distinct on` is the latest row by attempt; a map whose order decides nothing is a list.
-- A task worker makes a fresh log handler in each of `Work`, `suspendTask` and `finishTask`.
--
-- Taken as given. Which texts the database takes as `jsonb` is the parameter `takes` where a task
-- worker writes (`finish`, and the claim and the parking of Engine.Work); the errors of guards, the
-- outputs of resumed tasks and definitions are taken to be texts that it takes. The raw definition that
-- is read back is the one that was stored, although jsonb orders its keys anew. `setupConfigured` is
-- the flag of one process. The rows that a webhook's join finds are an argument of the handler.
--
-- Fuel. The closure of the needs and the search for a cycle recurse along the graph: each level marks
-- a step that was not marked, so one more than the number of steps is enough. The search of a schedule
-- moves by a nanosecond at least, so one more than the lookback is enough. In each, running out is a
-- result of its own, which the theorems exclude.
--
-- Parameters. The JavaScript machine, the reading of stored JSON, the text of a UUID and of a time,
-- the cron parser, random tokens, hashes, argon2, the cipher, the registry of executors and HMAC are
-- arguments, and so are `definition.Parse`, the reading of JSON into a definition, the text that the
-- database gives of a definition, and the vault where the engine calls it.
--
-- Not modelled: the handlers that only read (lists, the detail of a run, statistics) and the event
-- stream; the MCP server and client, and the executors that call services, which are I/O over
-- libraries; the start of the process; the web application.
pub mod Prelude
pub mod Json
pub mod Definition
pub mod Steps
pub mod Engine
pub mod Api
pub mod Vault
mod Tests
