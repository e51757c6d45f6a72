-- ===== src/Lib.antt =====
-- Kemuri probes targets on a schedule, stores each round of samples, and raises alerts by rules on
-- the stored rounds. This library models its core, with theorems on what the code does.
--
-- The parts and the files that model them:
--   Base       shared names; text, bytes, and the parameters for f64 (Float) and chrono (Chrono)
--   Core       the crate kemuri-core (crates/kemuri-core/src): Kinds (alert.rs, check_state.rs,
--              classification.rs, outcome.rs, probe_kind.rs), Duration, Percentage, Ids, SampleBlob
--              and Histogram, each after the file of its name
--   Rounds     the row of a stored round (crates/kemuri-storage/src/repos/mod.rs); Stats: what
--              crates/kemuri-server/src/writer.rs computes from a round's samples
--   Alerts     crates/kemuri-server/src/alerts.rs. Store: the tables and statements of
--              crates/kemuri-storage/src/repos/alert_state_repo.rs and notification_outbox_repo.rs;
--              Rule: thresholds, comparisons and timers; Metric: compute_metric; Machine:
--              update_state_machine and evaluate_rule; NoData: evaluate_no_data; Laws: theorems
--   Scheduler  crates/kemuri-server/src/scheduler.rs with the workers of worker.rs. Due: due times;
--              Keys: sets and maps of checks; State: the task's state, a turn for one check, a tick
--              and the commands; Progress: what a turn, a tick and a new list of checks lead to; Steps:
--              scheduler and workers in any order; Overlap: which rounds run
--   Notifications  crates/kemuri-server/src/notification.rs. Backoff: `compute_backoff` of alerts.rs;
--              Worker: a cycle over the pending entries of the outbox; Laws: theorems
--   Rollups    crates/kemuri-server/src/rollup_worker.rs. Aggregate: `aggregate_bucket`; Store: the
--              queries and the upsert of crates/kemuri-storage/src/repos/round_repo.rs and
--              rollup_repo.rs; Worker: `run_cycle`; their child modules: theorems
--   Retention  crates/kemuri-server/src/retention_worker.rs. Store: its statements and those of the
--              repositories; Worker: `run_cycle`; Loop and Batch: the loops of deletions
--   FailureLog crates/kemuri-server/src/failure_log.rs
--   Config     crates/kemuri-config/src/lib.rs. Error and Types: errors and records; Values:
--              the checks of single values; Validate: `validate_with_warnings`; Params: the probe
--              parameters of a check; Resolve: `resolve`; Equal: derived
--              equalities; Diff: ConfigDiff
--   Series     the points of a series in crates/kemuri-server/src/api.rs
--
-- A configuration is validated and resolved to checks, which the scheduler gets. It queues jobs for
-- the workers and shares the set of running rounds with them; their results are stored as rounds.
-- The alert evaluator reads these, keeps a state for each rule and check, and stores events with
-- entries of the notification outbox, which the notification worker delivers or retries. The rollup
-- worker sums rounds up in buckets, and the retention worker deletes old rounds that a bucket holds,
-- and other old rows.
--
-- State and failure. The functions of the evaluator, the notification worker (over Alerts.Store.Db),
-- the rollup worker and the retention worker (over Base.Action.Store) are state passing over tables:
-- each statement takes an entry of `faults`, and on `true` changes nothing and returns the error. So
-- a list of faults chooses the statement at which a run fails. A scheduler's state
-- (Scheduler.State) holds what the task owns and what it shares. A turn for one check is one step:
-- the moments between its reading of the running set and its writes, in which a worker may finish a
-- round, are not split. A full result queue, on which the task waits, is not modelled; skipped rounds
-- are a list. Validation returns the first error, with its path and message.
--
-- Numbers. A u64 is a natural number with its bound written out: `% 2 ^ 64` where a release build
-- wraps, `min` with the greatest value where the code saturates. An instant is its nanoseconds since
-- the epoch, and a std duration its milliseconds. `f64`, chrono, SHA-256 and the queries on rounds
-- are parameters of the definitions; a theorem that relies on one names what it relies on.
-- SQLite's unixepoch, serde_json and the parsers of URLs, addresses and certificates are parameters
-- too. Text is compared as SQLite's BINARY collation and Rust's Ord do, by code points.
--
-- Fuel. The loops of the retention worker that delete until nothing is deleted run on fuel; any fuel
-- above the number of rows of the table is enough, and the results do not depend on it; with less
-- the result is `unfinished`, which is neither a value nor an error of the code. Every other
-- loop of the modelled code is over a list, and so is its model.
--
-- Not modelled: probes, notifiers, the HTTP API but for the points of a series, the command line
-- and the SQLite files (I/O), the timer loops around the cycles of the workers, logs and metrics;
-- and, so far, the writes of the result writer, the payload of a notification, the reading of YAML
-- with its defaults, the hashes of a configuration, and the reconciliation of a configuration with
-- the tables.

pub mod Base
pub mod Core
pub mod Rounds
pub mod Alerts
pub mod Scheduler
pub mod Notifications
pub mod Rollups
pub mod Retention
pub mod FailureLog
pub mod Config
pub mod Series
