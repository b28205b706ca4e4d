-- ===== src/Lib.antt =====
-- Verification library of subx-core, a library that matches, translates, converts and synchronises
-- subtitle files. This development models ten parts of it:
--
-- - The configuration, src/config. A record of sections is read from a TOML file, checked field by
--   field (field_validator.rs) and as a whole (validator.rs), and read and changed by keys
--   (service.rs).
-- - The task scheduler, src/core/parallel/scheduler.rs. Submitters put tasks into a bounded queue, a
--   background loop takes them out while there are permits, and executions answer on channels. Its
--   size, strategy and limits come from the configuration.
-- - The line endings, src/core/formats/line_endings.rs. The parsers of the subtitle formats split
--   their input into blocks on the raw text, and must find the blocks of the normalised text.
-- - The translation, src/core/translation/engine.rs with the answers of the provider as
--   src/services/ai/translation_prompts.rs accepts them, and src/core/translation/request.rs.
-- - The time stamps of the formats, and the manual shift of a subtitle, src/core/sync/mod.rs, on the
--   entries of src/core/formats/types.rs.
-- - The identifiers of cues and files, src/core/uuidv7.rs.
--
-- - The matcher, src/core/matcher/engine.rs, with src/core/language.rs. The matches that the AI
--   proposes become operations with new names, the batch gets targets that do not collide, and the
--   operations are executed with a journal and a stream of progress events.
-- - The file tasks, src/core/parallel/task.rs and src/core/fs_util.rs, by which the matcher copies,
--   moves and renames files.
-- - The extraction of archives, src/core/archive, with its limits and its check of paths.
-- - The retries of the AI clients, src/services/ai/retry.rs.
--
-- Files and what they model:
--
-- - Prelude, with Tests, Lists, Strings and Monad below it: shared names, Boolean tests, lists on
--   native numbers, texts as lists of code points, results of fallible code.
-- - Std: what the code uses of Rust's strings and numbers (trim, to_ascii_lowercase, parse,
--   to_string).
-- - Config/Types and Config/Defaults: the structs of src/config/mod.rs and their defaults.
--   Config/Values: src/config/validation.rs. Config/Field and Config/Checks:
--   src/config/field_validator.rs; an arm of `validate_field` is a clause of `validate_value`, the
--   keys are the table `key_table`. Config/Validator: src/config/validator.rs. Config/Setter,
--   Config/Reader, Config/Service and Config/Store: src/config/service.rs, where `Store` is the file
--   and the cache of the service. Config/Masking: src/config/masking.rs.
-- - Scheduler/Queue and Scheduler/Actions: the queue, and the state with its atomic actions. An action
--   is what a submitter, the loop or an execution does between two points at which the others may run;
--   a run is any list of actions, so it covers their interleavings. Scheduler/Batch:
--   `submit_batch_tasks` up to the wait for its receivers.
-- - Formats/LineEndings: `normalize_line_endings`, `raw_blocks` and its iterator.
-- - Translation/Response, Translation/Chunks and Translation/Engine: the acceptance of an answer,
--   `chunk_ranges`, and step 3 of `translate_subtitle`. Translation/Terminology: the terms of an
--   answer and `merge_terminology`.
-- - Formats/Time: srt/time.rs, vtt/time.rs and ass/time.rs of src/core/formats, on the four fields of
--   a stamp. Formats/Types and Sync: the times of entries and `shift_subtitle_timing`. Uuidv7:
--   `next_id` and `generate_ids`.
-- - Language: src/core/language.rs. Matcher/Types: the structs of the matcher, and paths as the
--   components of a directory with a file's name. Matcher/Names, Matcher/Targets and Matcher/Batch:
--   `sanitize_suffix`, `apply_unique_target_paths` with its local functions, and
--   `apply_archive_origin_relocation`; a loop over indices changes a list in place. Matcher/Naming:
--   `normalize_ai_language` and `generate_subtitle_name`. Matcher/Plan: `match_file_list_with_audit`,
--   whose calls to the disk, the cache and the AI are the fields of an `Environment`.
--   Matcher/Conflict: the engine's own `resolve_filename_conflict` and the tasks it creates.
--   Matcher/Execute: `execute_operations` and `execute_operations_audit`. Matcher/Replay: the plan that
--   `save_file_list_cache` writes and `check_file_list_cache` rebuilds.
-- - Tasks/Disk, Tasks/Files and Tasks/Operation: a disk as a list of files with contents, the file
--   operations of `FileProcessingTask`, and `execute`.
-- - Archive: src/core/archive/common.rs and the loop of targz.rs, which sevenz.rs shares.
-- - Retry: `retry_with_backoff` and the loop behind `HttpRetryClient`. An operation is a function of the
--   number of the attempt; the floating point of the delays, and what a `Request` of reqwest answers,
--   are parameters.
--
-- Parameters. `Platform` is what the configuration takes from elsewhere: `f32`, the URL parser, the
-- Unicode case tables; `System` is the TOML crate, the number of processors and whether the file
-- has a path, can be read and can be written; `Ai` is the provider with the prompt around a batch, and serde_json; `Clock` is the uuid
-- crate with the system clock and the sleep of a thread. The hypotheses on them are `PlatformLaws` (a
-- printed `f32` is read back, two ASCII words keep their case) and `LiteralLaws` (literals compare as
-- the numbers they stand for, the default endpoint is an https URL) and `KeepsUp` (the clock passes
-- every time stamp within some number of sleeps, however it is set back before).
-- `Detector` is the Unicode `to_lowercase` and the captures of the regular expressions on file names.
-- `Faults` says which calls to the operating system fail, and `Outside` gives the faults, the
-- cancellation, the saving of the journal and the metadata of files for each position of a batch.
-- `Destination` gives the directory of an extraction, the canonical paths and the failing writes;
-- `Json` is serde_json on the cache of the matcher, and `Files` what a replay asks of the disk and of
-- the conversion of paths to text and back. `digit` is `\d` of the regex crate.
--
-- Bounds and fuel. `u32` and `u64` parse with their overflow checks; `usize` has 64 bits. The iterator
-- of raw blocks runs on the length of the text plus two, and one scan on the length of the rest;
-- `chunk_ranges` runs on the number of cues, and `next_id` on the number of rounds that the clock needs.
-- That this is enough is part of the results. The print of a number has a round more than the number. The probing of a target
-- has a round for each counter up to 9999, and the numbering of a file the 999 rounds of the code. The
-- conflict resolution of the matcher runs on fuel because its prompt calls itself; one unit is enough
-- for the other modes. The loop of an HTTP request has a round for each attempt. A counter `n + 1` of
-- 32 bits wraps, as in a release build.
--
-- Simplifications. Error values keep their cause, not their wording. Log lines and progress reports
-- are left out. In the scheduler the size test and the eviction that follows it without an await are
-- one action, and so are the pop of a task with the update of its status, and the end of an execution
-- with its answer and the return of its permit. Time (idle shutdown, timeouts) is not modelled; a task
-- that times out is one of its numbered results. A run is of single submissions, which may be
-- cancelled and whose executions may panic; a batch is modelled on its own. A text is a list of code
-- points, or of bytes in the line endings.
--
-- In the matcher a path that does not name a file, and a link, do not occur; the set of existing paths
-- does not change while a batch gets its targets. A failing copy leaves what `Faults` says.
--
-- Not modelled: the strict load with its environment overlay, the syntax of the subtitle formats
-- beyond their line endings and time stamps, synchronisation by audio, the discovery of files, the
-- readers of archives, the HTTP clients, and the audio analysis. The last two are input/output
-- and signal processing by libraries.
pub mod Archive
pub mod Config
pub mod Formats
pub mod Language
pub mod Matcher
pub mod Prelude
pub mod Retry
pub mod Scheduler
pub mod Std
pub mod Sync
pub mod Tasks
pub mod Translation
pub mod Uuidv7
