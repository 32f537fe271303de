-- ===== src/Lib.antt =====
-- pi-watch: the durable job store, the processes that run a job, and its captured output.
--
-- A shell command that outlives the agent's turn is a job. src/job-store.ts keeps jobs in SQLite:
-- a job is reserved under an idempotent request key, claimed by one runner, launched after one
-- decision, and described by numbered revisions of evidence, each with a notice to its owner.
-- Callers, runners and reconcilers meet only in this store, through transactions that may fail
-- before, at or after their commit. src/runner.ts claims a job and starts src/guardian.ts, which
-- verifies its process group and, once granted, starts the shell; src/output-capture.ts keeps the
-- first bytes of both streams and seals them with a receipt, and src/output.ts reads them back. A
-- caller reaches the store through src/store-client.ts, a worker thread and src/store-worker.ts.
--
-- Base               JavaScript strings as UTF-16 units, integers, list helpers.
-- JobTypes           src/job-types.ts. Errors: `StoreError` and its subclasses as `Thrown`, calls
--                    that may throw as `Result`. Validate: the validators, on JavaScript values.
--                    Identity: the identity allocated for a job.
-- Evidence           src/store-evidence.ts. Defs: the types; the shell code of an observation is the
--                    integer that the validation has let through. Merge: `mergeEvidence`, a function per
--                    field, run in the source's order. Extends, Coherent, Replay, Order: its laws.
--                    Validate: `validateEvidenceInput`, on JavaScript values. Validated, Refused:
--                    its laws.
-- Store              src/job-store.ts. Tables: the tables and queries. Rows: `rowToJob`,
--                    `rowToControl`, `rowToEvidence`, `evidenceToParams`. Transaction:
--                    `inTransaction` over an `Engine`, which says what SQLite does this time.
--                    Launch, Publish: the bodies of the writing operations. Operations: validation
--                    followed by the transaction; `perform` answers one call. Read: the reads.
-- Store.View, Step   the rows of one job, and the steps of its life: the abstract store.
-- Store.Refine       each operation against the steps. Store.Atomic, Store.Committed: how a
--                    transaction ends, and the tables after it.
-- Store.Life         well-formed jobs, and what a step keeps. Store.Run: sequences of calls.
-- Store.Authority    who may launch a job and who may see it. Store.Progress: whether
--                    operations on a sound store return.
-- Output             src/output.ts. Utf8: `utf8Token`, `sanitize`. Json: the length of
--                    `JSON.stringify`. Page: `paginate`; its loop runs on fuel, the length of the
--                    window, and every turn consumes a byte. Account, Bounds, Progress, Shown: its
--                    laws.
-- Guardian           src/guardian.ts, src/guardian-protocol.ts: the process that runs the shell.
--                    Protocol: the messages. Machine: its state and a function per handler and
--                    timer. Run: the events, in any order. Signals, Shell: its laws.
-- Client             src/store-client.ts, src/store-worker.ts. Wire: an answer on its way from
--                    the worker to a caller. Requests: the table of pending requests. Settle: how
--                    often promises settle, and with what. Startup: the start of the worker.
-- Capture            src/output-capture.ts. Machine, Seal: `StreamCapture`, its handlers and
--                    `#seal`, over what the file system answers; the bytes of the raw file are the
--                    writes that completed. Receipt: the text of a receipt and its parser; digits
--                    run on fuel, enough for every safe integer. Kept, Heard, Steps, Truth, Final,
--                    RoundTrip: its laws.
-- Runner             src/runner.ts. Machine: the coordinator of `run` as a state, with the
--                    functions its handlers share. Handlers: a function per handler, split where
--                    the source waits; the answers of store, captures and guardian come with the
--                    events. Run: the events. Grants, Endings: its laws. Accepted: what it
--                    publishes against the merge of Evidence.
-- Snapshot           src/output.ts. Sidecar, Read: `loadSidecar`, `readOutputSnapshot` over what the file
--                    system answers. Sealed, Facts: its laws, with those of Capture and Output.
-- Owner              src/owner.ts. Validate: the reader of session headers and `validateOwner`.
--                    Backed, Header: its laws.
-- Tests              concrete inputs.
--
-- The clock, `randomUUID`, `randomBytes` and the hash are arguments. Numbers of the tables are
-- natural numbers: counters, revisions and milliseconds, which the program keeps within the safe
-- integers. A body that throws, at any statement or in the seam before the commit, is one fault of
-- the engine, since a rollback forgets how far it came. There is no fuel in the store: every
-- operation is one pass over the tables.
--
-- Not modelled: `resolveCwd`, which only calls node:path; what the engine throws in a read
-- outside of a read transaction; schema inspection and start-up of the store; the fixture modes
-- of test-seams.ts, which are off; the closing of the guardian's descriptors; the steps that
-- publish a closure receipt, which are one answer; how the runner reads its arguments and starts
-- the guardian; private-path.ts, launch.ts and process-control.ts, which mostly call the system;
-- the packaging scripts. What `JSON.parse` makes of a text is an argument.
pub mod Base
pub mod JobTypes
pub mod Evidence
pub mod Store
pub mod Output
pub mod Guardian
pub mod Client
pub mod Capture
pub mod Runner
pub mod Snapshot
pub mod Owner
mod Tests
