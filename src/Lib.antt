-- ===== src/Lib.antt =====
-- A model of Gardener: a server that splits a user's task into trees, has a command line agent work
-- on them, and validates, repairs and reports what comes back.
--
-- Parts and files:
-- Models: the records of internal/app/models.go. Env holds what a call reads from outside.
-- Store, Store/*: the tasks in memory of internal/app/store.go. A method takes the store and gives
-- the new one beside its result; the mutex of the source makes it one step. Settings and Progress
-- hold the settings and the log lines of the same file.
-- Hub: the event hub of internal/app/events.go, to which the store publishes each change.
-- Runtime: the summary of internal/app/runtime.go that every clone of a task carries.
-- Instructions and the module Plan: the texts of internal/app/orchestrator.go and what an agent answers.
-- Store/Disk is what Load makes of the files, Store/Removal which directories DeleteTask removes,
-- Store/Refinement the map that callers rely on.
-- Orchestrator: the registry of runs and the calls of a client (SendMessage, ResumeTask, StopTask,
-- DeleteTask, RenameTask; CreateTask in Orchestrator/Creation). Orchestrator/Forest is runForest as
-- the blocks between its waits, Orchestrator/Attempts runGardenerPlan and runGardenerDecision, Orchestrator/Trees runTree and its
-- callers, with the goroutines of a forest as a step relation, Orchestrator/Watchdog the pass of
-- internal/app/watchdog.go.
-- Proxy: the compatibility proxy of internal/compat/proxy.go: the screening of requests, the messages
-- (Proxy/Messages) and the stream of events (Proxy/Stream).
-- Runner: the choice of a CLI, its arguments and its environment of internal/codex/runner.go.
-- Usage: the token counts of internal/app/usage.go.
-- Api, Origin: what internal/app/server.go shows and lets through; Api/Routes is what a request below
-- /api/tasks/ does and answers, Api/Files which files are sent, Api/Listing and Api/Scopes which are
-- listed. Orchestrator/Goals and Orchestrator/Logs are the goals of trees and the lines of the log.
-- Base, Text: lists, maps, sorting and strings that the parts share. Tests: concrete runs.
--
-- A client's call changes the store and may start a run; the run asks the agent through the CLI, adds
-- trees to its task and ends it. A new run of a task cancels the one before it, and the old one finds
-- out at its next block, by its context and by the identity of the active run.
--
-- Choices: A text is a list of code points, and case folding is that of ASCII; a byte length is that
-- of UTF-8. A time is in nanoseconds, and one call reads the clock once. Counts that cannot be
-- negative are natural numbers; token counts are int64 in two's complement. A map is an association
-- list, and a sort is stable. Lists of pointers have no nil entry. Whether a write or a removal of
-- files succeeds is part of Env; the contents of files are not modelled.
--
-- The CLI, the JSON decoder, regular expressions, the hash of identities, floating point comparison,
-- and Go's url, net and path/filepath packages are parameters. Decimal digits are written
-- with fuel 20, enough below 10^20 and so for every int64; the attempts at a plan are counted down from 2. All else is structural recursion.
--
-- Not modelled: the contents of reports and prompts, legacy usage logs, the HTTP exchange of the
-- proxy with a provider, the start and the output of child processes in internal/codex, power
-- inhibition, the task list, settings and static routes of internal/app/server.go, the browsing of
-- directories, cmd/server, the web pages and the installers.
pub mod Base
pub mod Text
pub mod Models
pub mod Runtime
pub mod Progress
pub mod Hub
pub mod Settings
pub mod Store
pub mod Plan
pub mod Instructions
pub mod Orchestrator
pub mod Usage
pub mod Api
pub mod Origin
pub mod Proxy
pub mod Runner
mod Tests
