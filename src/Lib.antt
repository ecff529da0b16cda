-- ===== src/Lib.antt =====
-- Verification of usenet-dl, a Usenet download manager: a SQLite database of downloads and
-- articles, a priority queue of the downloads that wait, a task for each download that runs, and
-- around these a scheduler of speed limits, a token bucket and post-processing.
--
-- The parts and their files:
--
-- Base and its children: lists and association tables over the native numbers, chunks of a list
-- (`slice::chunks`), and integers.
--
-- Types: the enumerations of src/types.rs and src/config.rs that the other parts use, and their
-- codes in the database. Types/Codes is about these codes.
--
-- World: the state that the operations share, as a record: the tables of src/db/mod.rs, the queue
-- and the running tasks of `QueueState` (src/downloader/mod.rs), the temporary directories, the
-- files that extractions have written, the events sent and the jobs spawned. An operation is a
-- function from a state to a result and a state; an error keeps what was done before it, as `?`
-- does. The parameter `Env` says which database statement fails, what the clock reads at each, and
-- which directory cannot be removed. The cached passwords, the flag of a clean shutdown (the key
-- `clean_shutdown` of the table runtime_state) and the flag `accepting_new` stand in it too.
-- World/Hoare has a rule for each construct of this monad.
--
-- Db: the statements of src/db/downloads.rs (Db/Downloads), src/db/articles.rs (Db/Articles,
-- Db/Files), src/db/duplicates.rs (Db/Duplicates), src/db/passwords.rs (Db/Passwords) and
-- src/db/state.rs (Db/State, the clean shutdown) as functions on the tables. Db/Schema and
-- Db/Migrations are about src/db/migrations.rs, which changes the schema and not these tables: the
-- schema, SQLite's rules for the statements that change it, the transactions, and the migrations,
-- with the tables and indexes in Db/Tables.
--
-- Queue: `Ord for QueuedDownload` and src/downloader/queue.rs. Control/Restore has
-- `restore_queue`.
--
-- Control: src/downloader/control.rs. Each method is one uninterrupted run; interleavings of two
-- methods are not modelled. Control/Invariant, Soundness and Commands are about the queue, and
-- Pause, Resume, Cancel, Reprioritise, Continue and Restart about the effect of one operation
-- each. Control/Reprocess has the definitions of `reprocess` and `reextract`.
--
-- Task: src/downloader/download_task. Task has `aggregate_results` and
-- `retry_articles_individually` (batch_processor.rs) and the counters; Task/Batches has
-- `prepare_batches` (batching.rs), Task/Fetch the fetch of the batches (`fetch_article_batch`,
-- `download_articles`), Task/Updater the writer of the status updates (`spawn_batch_updater` of
-- src/downloader/background_tasks.rs), Task/Run `fetch_download_record` and `run_download_task`
-- (orchestration.rs), and Task/Finalize finalization.rs with the methods of context.rs that it
-- calls. Batches overlap, as `buffer_unordered` has it: a list of turns says which of the running
-- batches sends its next signal, and with no connection the fetch never yields. A task says at its
-- end whether it has come to its end (`Ending`); what a coordinator does while a fetch waits for
-- good is left out. What the servers, the decoder and the files give is data of the model. The
-- comparison of the failure ratio, a float, and the texts of errors are parameters.
--
-- Processor: src/downloader/queue_processor.rs, the loop that starts the tasks, as a step relation
-- (`Step`, `Reach`) in which anything else may change the shared state between two steps.
--
-- PostProcessing: src/post_processing and, in PostProcessing/Start,
-- src/downloader/post_process.rs; PostProcessing/Reextract has the task that `reextract` of
-- src/downloader/control.rs spawns. What the parity tool, the extractors and the file system give
-- is the record `Tools`; an extraction gives the files that it has written and the passwords that
-- opened the archives (`extract_with_passwords_impl` of src/extraction/shared.rs), which the
-- stages cache, and the move is given all files written so far. In `Tools` are also the moving of
-- files, which Paths/Moving has in detail, and the detection of archives. Removing files in the
-- cleanup has no result and is left out, as are webhooks and scripts, which run on their own.
--
-- DirectUnpack: src/downloader/direct_unpack, the coordinator that extracts while the download
-- runs. Its loop runs on the list of what its passes meet (`Reading`), so that a list that is used
-- up stands for a loop that still runs. The texts of RAR names (rar_detection.rs) and the parsing
-- of PAR2 files are in the record `Outside`.
--
-- Intake: src/downloader/nzb.rs, `add_nzb` and `add_nzb_content`. Intake has the checks that come
-- first, of the NZB, the free space and the duplicates, and the choice of the destination;
-- Intake/Names the two functions on names, and Intake/Adding the rows, the events and the item in
-- the queue. What the NZB parser, the digest and the hash of a subject give is the record
-- `Reader`, and what the file system says of the free space, with the floating-point product of
-- the size, the records `Volume` and `Settings`. Webhooks run on their own and are left out.
--
-- Lifecycle: src/downloader/lifecycle.rs, the shutdown. What the tasks do while it waits for them
-- is a function on the state.
--
-- Scheduler: src/scheduler/mod.rs. ConfigOps: the schedule rules of src/downloader/config_ops.rs.
-- SchedulerTask: src/scheduler_task.rs, the loop that applies the actions, with `set_speed_limit`
-- of src/downloader/config_ops.rs; a pass of the loop is one `Moment`, which says when it looks at
-- the clock and what anything else does while it sleeps. A time of day is a number, as its order
-- is all that the code uses.
--
-- SpeedLimiter: src/speed_limiter.rs. The bucket is three numbers below 2^64, and sums wrap there.
-- A method is one uninterrupted run, so that each compare-exchange succeeds. The clock's readings
-- are a list, which bounds the passes of the loop of `acquire`; SpeedLimiter/Progress says how
-- many readings are enough. The floating-point product is a parameter.
--
-- Retry: src/retry.rs, `download_with_retry`. Its loop runs on fuel, one more than the attempts
-- that the configuration allows, which is enough. The product with the multiplier, the jitter and
-- the classes of errors are parameters; the multiplier is one whose products are durations, as
-- `Duration::from_secs_f64` panics on any other product. Errors: src/error.rs, the errors with
-- their HTTP statuses and codes, and the classes of src/retry.rs (`is_retryable`).
--
-- Paths: `get_unique_path` of src/utils.rs and, in Paths/Moving, `move_files` of
-- src/post_processing/mod.rs, where reading a directory is data (`Listing`). What std::path and
-- the file system answer is the record `PathReader`; the 9999 candidates that the code allows are
-- tried by recursion on their number.
--
-- Extraction: the list of passwords of src/extraction/password_list.rs. The trimmed lines of the
-- password file are data.
--
-- Examples: the theorems at concrete inputs, and runs.
--
-- Not modelled: the background tasks but for the queue processor and the updater, the removing of
-- files, extraction and PAR2 (external tools), the fetch of an NZB file from a URL, RSS and
-- watched folders, the history of the database, the REST API. Logging is left out everywhere, and
-- so are the floats that only the progress reports write.
pub mod Base
pub mod Types
pub mod World
pub mod Db
pub mod Queue
pub mod Control
pub mod Task
pub mod Processor
pub mod PostProcessing
pub mod DirectUnpack
pub mod Scheduler
pub mod ConfigOps
pub mod SpeedLimiter
pub mod Retry
pub mod Errors
pub mod SchedulerTask
pub mod Extraction
pub mod Intake
pub mod Lifecycle
pub mod Paths
pub mod Examples
