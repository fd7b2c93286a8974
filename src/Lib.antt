-- ===== src/Lib.antt =====
-- outbox_dispatcher: a model of a transactional-outbox dispatcher (Rust) and its proofs.
--
-- An application commits events with a list of callbacks into a PostgreSQL table. The scheduler
-- reads new events, validates their callbacks and inserts one delivery row for each. The dispatcher
-- fetches due rows, locks each, calls its receiver and writes the outcome back. A sweeper sends
-- external deliveries that were never completed once more, operators retry, complete or abandon
-- deliveries, and a retention worker deletes finished events. Several replicas share the database,
-- and nothing but its statements keeps them apart.
--
-- Files and code:
--   Base, Text, Json           what the program uses of Rust's standard library and of serde_json
--   Schema                     crates/core/src/schema.rs
--   Config and its children    crates/core/src/config.rs: `DispatchConfig`, Settings `AppConfig` as it
--                              is read, Tables the defaults, Validate `AppConfig::validate`
--   Callbacks and its children crates/core/src/callbacks.rs: Reason and Messages hold the errors, Name,
--                              Url, Headers and Fields the validation of one field each, Parse
--                              `parse_one_callback`, `parse_callbacks` and `validate_named_callback`
--   Retry                      crates/core/src/retry.rs
--   Repo and its children      crates/core/src/repo.rs and error.rs: Db is the database and one round
--                              trip, Scheduling, Dispatching, Sweep, Admin and Retention the
--                              statements by their client, Stats the queries that only read,
--                              Truncate `truncate_at_char_boundary`
--   Dispatch                   crates/core/src/dispatch.rs; its child Replicas is the step relation
--                              of several replicas on one database
--   Scheduler                  crates/core/src/scheduler.rs and timeout_sweep.rs
--   Retention                  crates/core/src/retention.rs
--   Startup                    crates/bin/src/main.rs: the checks before the workers start
--   Rescan                     crates/bin/src/main.rs: the command `rescan`
--   Keyring                    crates/core/src/keyring.rs
--   HttpCallback               crates/http-callback/src/client.rs; its child Signing is signing.rs,
--                              and its child Rounds is the client as the dispatcher calls it
--   AdminApi                   crates/admin-api/src/routes.rs; its child Auth is auth.rs
--   Tests                      runs on concrete inputs
-- A child module that is not named above holds the lemmas and theorems on its parent's definitions.
--
-- How it is modelled:
--   * A text is the list of its chars, as Unicode scalar values; lengths in bytes are those of UTF-8.
--   * Times and durations are natural numbers of nanoseconds. One clock, `now` of the database, is
--     both SQL's now() and `Utc::now()`; a call of a receiver may move it. Postgres rounds to
--     microseconds, which is not modelled. UUIDs are numbers.
--   * The jitter's random number is r / 2^53 with r below 2^53, an argument; `mul_f64` is computed
--     exactly and rounded down.
--   * A statement is a function on the tables and is atomic. Each round trip takes the next entry of
--     `faults`: it is healthy, it is refused and changes nothing, or it takes effect and its answer
--     is lost. A healthy database is one whose list of faults to come is empty.
--   * attempts and completion_cycles are unbounded: both stay below the limits of their callbacks
--     as long as nobody locks rows in a loop, far below 2^31.
--   * `buffer_unordered` runs a batch in order in `dispatch_all`; what happens beside a call is in
--     the database that the call returns. The interleavings of replicas are those of
--     Dispatch.Replicas, where every step is one statement or one write-back, a crash, or time.
--   * What becomes of the database while the wake loop waits is a parameter of Scheduler.Wakes, and
--     the number of wakes before the shutdown is an argument, as are the retention worker's cycles.
--   * `Url::parse` and the parser of socket addresses are parameters, of which nothing is assumed.
--     So are the environment, the base64 engines, reqwest, httpdate and the printers of JSON, UUIDs
--     and times. Of HMAC and the hex codec it is assumed that they do what they document
--     (HttpCallback.Signing.Crypto).
--   * The database is behind the dispatcher, the operators and the command: `Repo` statements are
--     what all of them share, and the webhook client is the `Callback` of Dispatch.
--   * Loops are structural recursion over their lists. Only the loop of `rescan` takes fuel: it runs
--     until the cursor stays, and more fuel than there are events is enough.
--
-- Not modelled: metrics and logging; the LISTEN connection, which only wakes the loop; the start of
-- the processes and the set-up of clients, sockets and exporters; the matching of paths
-- and the serialisation of answers; the merging of the configuration's files
-- and variables. They are I/O or
-- third-party code.
pub mod Base
pub mod Text
pub mod Json
pub mod Schema
pub mod Config
pub mod Callbacks
pub mod Retry
pub mod Repo
pub mod Dispatch
pub mod Scheduler
pub mod Retention
pub mod Rescan
pub mod Keyring
pub mod HttpCallback
pub mod AdminApi
pub mod Startup
pub mod Tests
