-- ===== src/Lib.antt =====
-- Ratchet CLI: the durable and concurrent state of the ACP client, the mesh and the daemon.
--
-- Parts. The ACP client (internal/acpclient) keeps sessions and their prompt queues in one file,
-- and an event log for each session; its background workers have policies, a journal and an audit
-- log, and a lease for each session. The mesh (internal/mesh) lets agents share boards, send
-- messages through a router and claim tasks from a tracker. The daemon (internal/daemon) holds
-- plans, gates at which agents wait for a person, scheduled jobs and event channels. The parts do
-- not share state: each keeps its own behind a lock, so that a run of a part is a sequence of
-- whole operations. Where the code gives up a lock between two steps (the drain, a save of a
-- provider, a background worker), other calls can come between them in the model too. The
-- scheduler is the exception: of its overlapping calls only a Pause within a Resume is modelled.
--
-- Base is what all modules share: tests on numbers, lists, text, and Go's map as an association
-- list (Base.Dict).
--
-- AcpClient models internal/acpclient.
--   Types, Records: the records and statuses of spec.go and store.go.
--   Normalize: normalizeRecords, normalizePromptQueue and preserveCancellationLatch of store.go.
--   Mutate: the changes that each Store method makes to the records (Session: Upsert, requestCancel,
--   AppendQueuedPrompt and others; Queue: MarkQueueRunning, CancelPendingQueue and others).
--   EventLog: the encoding and numbering of eventlog.go.
--   Store: transitionSession of eventlog.go and createSessionWithEvents of archive.go, with the files
--   as a World and what the file system answers as an Env, the release of both locks included; Store.Ops: the methods as they are called;
--   Store.Runs: their sequences. Store.Reconcile: ReconcileCancellationRequests.
--   Drain: DrainQueue and its loop of drain.go; before each call of the store, other processes can run
--   any operations of it. Watch: WatchQueue of watch.go, around the drain.
--   Background: background.go and background_audit.go. Policies: BackgroundStore with its journal of
--   transitions, over lists by session id (Keyed). Audit: the log, whose last line a write can tear.
--   Recording: persistTerminalTransition, with the answer of each write; Reconcile: what the next
--   process does with the journal and the log; Launching: persistBeforeLaunch, block and Get; Ending:
--   what workerDone records, with the tree of a Go error. Leases: the lock file of one session and
--   the maps of the managers for it, in steps; Exclusive: all managers on one store, with crashes.
--
-- Mesh models internal/mesh.
--   Blackboard: Read, Write, WriteFromRemote, List, Watch and Unwatch of blackboard.go. The revision
--   is an int64, as its distance from the least one, and wraps. Watchers are called in order after
--   the write.
--   ProjectBoards: TeamBB and Mode of project_bb.go; a board is a reference.
--   Router: Register, Send and Unregister of router.go; an inbox is what its channel of capacity 64
--   holds.
--   Tracker: the SQL statements of tracker.go, on tables as lists of rows.
--
-- Daemon models internal/daemon.
--   Plans: plans.go. Approvals: approval_gate.go. HumanGate: human_gate.go; a wait is modelled at its
--   end. Schedule and Cron: cron.go; an interval is the pattern of an int64, a context a number, and a
--   loop is live while its context is not cancelled. Cron.Loops takes Pause, Resume and Stop as single steps; Cron.Overlap has the critical
--   sections of Pause and Resume. Broadcaster: session_broadcaster.go.
--   Autoresponder: autoresponder.go.
--   ProviderOps: provider_operations.go and provider_cleanup.go, with the provider calls of service.go
--   and the indexes of engine.go. Tables: the rows and statements. Journal: failOperation,
--   finalizeOperation and get. Flights: Commit and runFlight, whose goroutine runs by steps. Cleanup:
--   dispatchCleanup and cleanupSecret, by steps. Startup: Start and reconcileStartup. Runs: all of
--   these as actions in any order, with a restart at any point.
--
-- Bounds and fuel. The loops of the drain and of the watch recurse on a list of what the
-- environment does in each round or cycle, and a list as long as the limit is enough: the results
-- on them say so. Every other loop of the modelled code goes over a list of its own. Numbers are
-- unbounded except the board's revision and the schedule's interval, which are taken modulo 2 ^
-- 64, and the run count of a job, modulo 2 ^ 32; times are numbers that the operations take as
-- arguments.
--
-- Parameters. Ids, times, what an agent answers, the form of a UUID and of a JSON object, the
-- answers of files, locks and databases, validation of JSON-RPC messages, the sorting of sessions
-- (background policies are sorted in the model), and Go's functions on text are arguments. That
-- the system releases the file lock of a process that dies is part of the step of a crash.
--
-- Not modelled: other overlaps of two calls of the scheduler; the checks of Start and Resume
-- before the launch of a background worker; comparisons and flows of the ACP client; sessions,
-- teams and most of the RPC service of the daemon; the blocking of a save on the gate of its
-- alias; a transaction whose commit reports an error after it took effect; the answer to a
-- cancelled context; nodes, bridges and tools of the mesh; the terminal interface, the access to
-- model services, plugins and the command line. They are input and output, or wait to be added.
pub mod Base
pub mod AcpClient
pub mod Mesh
pub mod Daemon
