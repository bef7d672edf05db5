-- ===== src/Lib.antt =====
-- The Control Harness Golden Path: the runtime authority that hands tasks to workers, watches their
-- leases, decides what follows a failure, and keeps the audit log (src/harness of the repository).
--
-- The parts, and the files that model them:
--   src/harness/contracts.py: Contracts (statuses, table of transitions, other enumerations), with
--     Models (the fields of the models), Validation (their validators, as Boolean checks), Events (the
--     registered payloads). Graph treats the table as a graph, Checked what the validators guarantee.
--   src/harness/resilience.py: Resilience (classes of failures, thresholds, backoff).
--   src/harness/store.py: Store. Tables has the rows of `SCHEMA`; Txn the transaction that
--     `with self._connect()` opens; Actions the helpers that begin with an underscore. The public
--     methods are functions of the same names: Lifecycle (transition, create_task, get_task), Leases
--     (claim, heartbeat, expire_leases), Failures (report_failure, release_due_retries), Receipts
--     (submit_receipt), Approvals (request_approval, decide_approval, trace). A method `m` is
--     `with_connect m_txn`. Requests gathers the calls of the API in one type, and runs of them.
--   src/harness/projection.py and `pandaos_projection_snapshot` of store.py: Projection, with Snapshot.
--   src/harness/policy.py: Policy, with Shipped for the documents of policies/*.yaml, and
--     ShippedTasks for what they let through.
--   src/harness/auth.py: Auth, with Scopes (`required_scope`).
--   src/harness/workflow.py: Workflow, with Walk for runs of a workflow.
--   src/harness/metrics.py: Metrics. src/harness/cockpit.py: Cockpit, with Models, Rows and Panels.
--     The store's read-only snapshots are in Store/Snapshots.
--   src/harness/app.py: App. Http has the endpoints, their paths and the answers, Answers what an
--     outcome of the store becomes, with the guards of the NAS worker, Handlers the
--     middleware (`dispatch`) and the handlers (`handle`).
--   src/harness/nas_watcher.py: Watcher. Client has `HarnessClient` and the probe, Run has `NasWatcher`,
--     Pilot has `build_pilot_task` and `main`. Service puts the model of the API where the worker meets
--     the network.
--   src/harness/continuity.py: Continuity (`state_manifest`, the hosts), with Fixtures for the commands and
--     Exercise for the recovery.
-- A request passes the middleware, which asks auth for a principal with the scope of the path; the
-- handler then makes at most one call of the store that writes, `create_task` only after the policy. The
-- projection, the metrics and the cockpit read what the store has committed.
--
-- How a call is modelled. A call takes an environment `Env` and a state `State`, and gives an answer or
-- an exception together with the state that it leaves. `Env` holds `now()`, which PostgreSQL fixes for a
-- transaction, and the identifiers that `uuid4` draws. A transaction sees its own writes, commits at its
-- end, and is rolled back by an exception, except for what `conn.commit()` has committed before. The
-- sequences of BIGSERIAL columns are not rolled back. Transactions run one after another: the store
-- locks a row before it decides on it. Primary keys and the unique idempotency key are checked where the
-- source inserts. The branches for rows that have vanished are kept, with the errors that they raise.
--
-- Conventions. A time is a number of microseconds and a UUID is its 128-bit number. INTEGER columns, and the
-- minutes that `make_interval` is given, are taken to stay below 2^31. `lease_minutes` may be negative, and a time before the epoch counts as the
-- epoch. A cost, which its constraint fixes at 0, is a whole number. JSONB columns hold the model that
-- was dumped into them. A YAML document is a record of the keys that are read, with lists of pairs for
-- mappings. Loops are structural recursion over rows. Only the loop of the worker, which ends by
-- the clock, runs on fuel: one cycle for each interval before the end date, and one more step.
--
-- Helpers: Prelude (Boolean tests, tables as lists, texts). Store/Rows and Store/Moves say what UPDATE
-- does to the row with an id; Store/Preserve and Store/Keeps carry a property of the database through
-- every call; Store/Breaker, Store/Verdict and Store/Reports follow a failure report. Examples has the
-- inputs on which the theorems are instantiated.
--
-- Parameters, since they are not the repository's code: the clock and `uuid4` (Env), the text of UUIDs
-- and times and the sha256 fingerprint (Projection.Formats), token files and environment variables
-- (Auth), the order of texts in the database (Cockpit.Rows.Collation), how pydantic strips a text (App),
-- the sha256 of all rows (Continuity.Facts), and what the worker meets (Watcher.Client.World and
-- Watcher.Pilot.Parsers): network, clock, output, GitHub's documents, Python's parsers. Expiry of leases
-- assumes that `uuid4` draws identifiers that are new (IsFreshFrom); the report of a failure assumes it of
-- the one identifier that it may draw.
--
-- An answer of the API is a status code with a body. FastAPI routes a request to an endpoint, parses its
-- parameters, and answers 422 where a model of contracts.py does not accept the body; so a request here
-- is one that has been routed, with a parsed body, which the model's validator checks first. An exception
-- that no handler catches is answered with 500.
--
-- Not modelled: pydantic's parsing, the JSON spelling of answers (`_jsonable`), opening the connection and
-- its password file, `init_db`, requests that match no endpoint, the argument parser of
-- src/harness/continuity.py with what it prints, and the loading of YAML files in
-- src/harness/policy.py and src/harness/workflow.py.
pub mod Prelude
pub mod Contracts
pub mod Resilience
pub mod Store
pub mod Projection
pub mod Policy
pub mod Auth
pub mod Workflow
pub mod Metrics
pub mod Cockpit
pub mod App
pub mod Watcher
pub mod Continuity
pub mod Examples
