-- ===== src/Lib.antt =====
-- A model of om-tui's durable outbox, of the dispatcher that empties it, and of the supervisor that keeps
-- an account's connection, with the theorems on delivery and on the connection's life.
--
-- The program. Every outgoing message, media message, reaction and read receipt becomes one row of the
-- outbox table (internal/storage/sqlite/outbox.go), in the transaction that also writes its carriers.
-- A worker (internal/messaging/dispatch.go) leases due rows, marks each durably before it calls the
-- transport of a bridge (internal/bridge), and records how the call ended. Leases that expire are
-- recovered by whether the marker is set. The transport is reached through a registry of adapters
-- (internal/bridge/registry.go). One supervisor per account (internal/bridge/supervisor.go) starts
-- the adapter's connection, watches and probes it, retries, repairs and pairs; what an adapter
-- receives passes a fence that admits only the current connection.
--
-- The files.
--   Common          tests, options, lists, the result type, and the texts: Go's TrimSpace, SQLite's trim
--   Outbox.Types    the rows and requests of outbox.go, and the database as one list of records per table
--   Outbox.Checks   the CHECK constraints of internal/storage/sqlite/migrations/0005_outbox.sql
--   Outbox.Tables   one UPDATE, its count, requireLeaseMutation and requireStateMutation; in its children,
--                   what such a statement does to the one row that its ID finds
--   Outbox.Transitions  MarkTransportCalled, MarkNotDispatched, MarkCalledNotDispatched,
--                   ReleaseUnavailable, RetryNotDispatched, Cancel, MarkUncertain, Reject,
--                   ConfirmWithoutResult, MarkStoreFailed
--   Outbox.Leasing  LeaseDue and RecoverExpiredLeases
--   Outbox.Confirming   Confirm and repointLocalMessage, and ReconcileConfirm in its child
--   Outbox.Enqueue  enqueue and its entry points, with the validation, the inserts and the read cursor
--   Outbox.Queries  the queries that write nothing, and nextPollDelay of internal/messaging/service.go
--   Outbox.Phases   the diagram of a row's phases, and that every operation moves rows along it
--   Outbox.History  sequences of repository calls, by any workers in any interleaving
--   Outbox.Fencing  the statements of a lease holder as one family
--   Dispatch        DispatchDue and the four dispatches, from the capability to the durable ending
--   Bridge.Types    the failures of internal/bridge/types.go
--   Bridge.Supervisor.State  the loop's state (supervisorLoop), the snapshot and the policy of state.go
--   Bridge.Supervisor.Failures  classifyFailure, recordFingerprint, backoffCap, drawJitter, validatePolicy
--   Bridge.Supervisor.Generations  startGeneration, retireCurrent, routeFailure, beginCredentialRepair,
--                   the fence and the connect timeout
--   Bridge.Supervisor.Probing, Connecting, Pairing  the handlers of activity and probes, of a start and a
--                   run, and of pairing
--   Bridge.Supervisor.Loop  handleCommand, enforceDueDeadline, drainReadyWork; run and shutdown in its child
--   Bridge.Supervisor.Entry, Sink  NewSupervisor, the callers' commands, the queues, and generationSink
--   Bridge.Supervisor.Soundness, Accounts, Snapshots  what every history keeps: the fields that a state
--                   calls for, the runs and answers that are owed, and what Snapshot returns
--   Bridge.Supervisor.Settling, Pacing, Circuit  deadlines, backoff and the repeated-fingerprint circuit
--   Bridge.Registry the registry of internal/bridge/registry.go, its leases and its lookups
--   Ingest          retryTransient and classifyApplyError of internal/ingest/quarantine.go, and
--                   validateDecodedEvent of internal/ingest/worker.go
--   Examples        a small outbox, supervisor and registry that the theorems are applied to
--
-- The model. A pointer is an Option, a row a record, a table a list. A WHERE clause is a test, a SET list
-- a record update, and an UPDATE counts what it changes; a transaction that errs leaves the database as
-- it was. A statement that would break a CHECK or a unique key of a modelled table errs. Times are
-- nanoseconds since the epoch, with every earlier time at 0; columns are milliseconds. A string that
-- stands for an enumeration is a data type. Loops are recursion on the list of rows or leases, so there
-- is no fuel. A batch is dispatched in sequence, as in the code; other workers stand in the histories.
--
-- The supervisor's loop is a function from its state, one event and that iteration's inputs to the next
-- state; a history is a list of these, so every order of commands, results, deadlines and callbacks is
-- one. An event whose channel is nil changes nothing, so the histories include more than the program's.
-- A run is named by its generation. The worker that calls Lifecycle.Start is an event of its own. Stop
-- is a flag that an iteration meets at its top or while it handles its event; its other workers are joined by
-- shutdown. Sync's drain takes the list of what it finds ready. Times are nanoseconds, 0 the zero time.
--
-- Parameters. Clock readings, drawn tokens, the outcome of Acquire, the blob store, database faults
-- and the transport itself are arguments. Which of two broken unique keys SQLite reports first is one
-- too (`key_first`), so nothing depends on it. For the supervisor the results of the adapter, the repairer and the
-- Pairer, the random draws and the order of events are arguments. No contract of these is assumed but
-- where a theorem names it.
--
-- Not modelled. The text of errors, logging and the change signal; the poll loop and its timers, but
-- for its delay; the overflow of an attempt count; a negative duration or limit, which is 0 here and is
-- refused alike; a call that commits and reports a failure all the same. Of the supervisor: the
-- cancellation of contexts but for that of a Start, a caller that gives up waiting, the timer behind
-- a deadline, and panics, which the code turns into errors. Of the registry: the proxies around an
-- adapter's interfaces. The rest of the program is not modelled: the adapters, the rest of
-- the ingest of incoming events, the interfaces and the reports.
pub mod Common
pub mod Outbox
pub mod Bridge
pub mod Dispatch
pub mod Ingest
pub mod Examples
