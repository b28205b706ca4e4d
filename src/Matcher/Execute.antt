-- ===== src/Matcher/Execute.antt =====
-- src/core/matcher/engine.rs, `execute_operations_audit` and `execute_operations`, and the journal of
-- src/core/matcher/journal.rs that they write. An `Outside` says for each position of the batch what
-- the disk, the reporter and the journal's file do.
pub mod Returns
pub mod Stream
pub mod Audit
use subx_core.Prelude.{
  ℕ, zero, suc, ◌+◌, ◌-◌, Bool, true, false, not, ◌&&◌, List, [], ◌∷◌, ◌++◌, Option, none, some,
  Text, if◌then◌else◌, length, replicate,
}
use subx_core.Matcher.Types.{
  PathBuf, MatchOperation, FileRelocationMode, no_relocation, copy, move, ConflictResolution,
}
use subx_core.Matcher.Plan.{MatchConfig}
use subx_core.Matcher.Batch.{final_target}
use subx_core.Matcher.Conflict.{
  Planned, planned, panics, diverges, create_copy_task, create_rename_task, create_backup_task,
  backup_path_of,
}
use subx_core.Tasks.Disk.{Disk, Faults, TaskResult, success, failed}
use subx_core.Tasks.Operation.{
  ProcessingOperation, copy_to_video_folder, move_to_video_folder, copy_with_rename, rename_file,
  convert_format, sync_subtitle, match_files, validate_format, create_backup, FileProcessingTask,
  execute,
}

pub data JournalOperationType : Type 0 where
  renamed copied moved : JournalOperationType

pub data JournalEntryStatus : Type 0 where
  pending completed : JournalEntryStatus

pub record JournalEntry : Type 0 where
  pub operation_type : JournalOperationType
  pub source : PathBuf
  pub destination : PathBuf
  pub backup_path : Option PathBuf
  pub status : JournalEntryStatus
  pub file_size : ℕ
  pub file_mtime : ℕ

-- Whether an operation was applied, or else whether an error says why not.
pub data OperationOutcome : Type 0 where
  applied error_reported not_run : OperationOutcome

-- The names of the files in the events are left out.
pub data ProgressEvent : Type 0 where
  started : ℕ → ProgressEvent
  advanced ended : ℕ → ℕ → ProgressEvent

pub record Outside : Type 0 where
  pub faults : ℕ → Faults
  pub cancelled : ℕ → Bool
  pub journal_saved : ℕ → Bool
  pub metadata : Disk → PathBuf → Option (ℕ × ℕ)

pub record Run : Type 0 where
  pub disk : Disk
  pub journal : List JournalEntry
  pub outcomes : List OperationOutcome
  pub events : List ProgressEvent

-- How a batch ends: it returns, its journal cannot be saved, or it does not return.
pub data Ending : Type 0 where
  returned save_failed stopped : Run → Ending
  panicked diverged : Ending

unfoldable pub is_copy : FileRelocationMode → Bool
is_copy no_relocation = false
is_copy copy = true
is_copy move = false

unfoldable pub is_move : FileRelocationMode → Bool
is_move no_relocation = false
is_move copy = false
is_move move = true

-- What one operation does before its result is recorded.
pub data Step : Type 0 where
  done : JournalEntry → Disk → Step
  refused : Disk → Step
  step_panics step_diverges : Step

module _ {F : Type 0} (config : MatchConfig F) (fuel : ℕ) (outside : Outside) where
  -- The source, the destination and the kind that the journal records.
  unfoldable pub journal_parts :
      MatchOperation F → ProcessingOperation → PathBuf × PathBuf × JournalOperationType
  unfolding is_move final_target
  journal_parts op operation =
      let other : PathBuf × PathBuf × JournalOperationType =
        (op.subtitle_file.path, final_target op, renamed) in
      elim operation [
        | copy_with_rename source target ↦ (source, target, copied)
        | copy_to_video_folder source target ↦ (source, target, copied)
        | move_to_video_folder source target ↦ (source, target, moved)
        | rename_file source target ↦
            (source, target, if is_move op.relocation_mode then moved else renamed)
        | convert_format from to ↦ other
        | sync_subtitle audio_path ↦ other
        | match_files recursive ↦ other
        | validate_format ↦ other
        | create_backup source backup ↦ other
      ]

  unfoldable pub metadata_or : ℕ × ℕ → Disk → PathBuf → ℕ × ℕ
  metadata_or default disk p = elim (outside.metadata disk p) [ none ↦ default | some m ↦ m ]

  -- The backup of a move, when backups are enabled.
  unfoldable pub backup : ℕ → MatchOperation F → Disk → Option PathBuf × TaskResult
  unfolding is_move create_backup_task execute backup_path_of
  backup i op disk =
      let source = op.subtitle_file.path in
      let extension = op.subtitle_file.extension in
      if is_move op.relocation_mode && config.backup_enabled
      then (
        some (backup_path_of source extension),
        execute (outside.faults i) (create_backup_task source extension) disk,
      )
      else (none, success disk)

  unfoldable pub primary_task : ℕ → MatchOperation F → Disk → Planned FileProcessingTask
  unfolding is_copy create_copy_task create_rename_task
  primary_task i op disk =
      if is_copy op.relocation_mode
      then create_copy_task (outside.faults i) config.conflict_resolution fuel op disk
      else create_rename_task (outside.faults i) config.conflict_resolution fuel op disk

  -- The execution of the primary task and the entry of the journal.
  unfoldable pub run_primary :
      ℕ → MatchOperation F → Option PathBuf → Planned FileProcessingTask → Step
  unfolding journal_parts metadata_or execute
  run_primary i op backup_path panics = step_panics
  run_primary i op backup_path diverges = step_diverges
  run_primary i op backup_path (planned task disk) =
      let (journal_source, journal_destination, journal_kind) = journal_parts op task.operation in
      let before = metadata_or (0, 0) disk journal_source in
      elim (execute (outside.faults i) task disk) [
        | failed disk' ↦ refused disk'
        | success disk' ↦
            let (size, mtime) = metadata_or before disk' journal_destination in
            done
              (record {
                operation_type = journal_kind;
                source = journal_source;
                destination = journal_destination;
                backup_path = backup_path;
                status = completed;
                file_size = size;
                file_mtime = mtime;
              })
              disk'
      ]

  unfoldable pub run_operation : ℕ → MatchOperation F → Disk → Step
  unfolding backup primary_task run_primary
  run_operation i op disk =
      let (backup_path, saved) = backup i op disk in
      elim saved [
        | failed disk' ↦ refused disk'
        | success disk' ↦ run_primary i op backup_path (primary_task i op disk')
      ]

  -- The outcome of an operation, and the event that follows it.
  unfoldable pub push_outcome : ℕ → OperationOutcome → Run → Run
  push_outcome total outcome run = record run {
    outcomes = run.outcomes ++ outcome ∷ [];
    events = run.events ++ advanced (suc (length run.outcomes)) total ∷ [];
  }

  unfoldable pub finish : ℕ → Run → Run
  finish total run = record run { events = run.events ++ ended (length run.outcomes) total ∷ [] }

  -- `resize_with(total, not applied and no error)` after a cancellation.
  unfoldable pub pad : ℕ → Run → Run
  pad total run = record run {
    outcomes = run.outcomes ++ replicate (total - length run.outcomes) not_run;
  }

  unfoldable pub push_entry : JournalEntry → Disk → Run → Run
  push_entry entry disk run = record run { disk = disk; journal = run.journal ++ entry ∷ [] }

  -- The loop of `execute_operations_audit`, from position `i` of `total`.
  unfoldable pub audit_loop : ℕ → ℕ → List (MatchOperation F) → Run → Ending
  unfolding run_operation push_outcome finish pad push_entry
  audit_loop total i [] run = returned (finish total run)
  audit_loop total i (op ∷ operations) run = elim (outside.cancelled i) [
    | true ↦ returned (pad total (finish total run))
    | false ↦ elim (run_operation i op run.disk) [
      | refused disk ↦
          audit_loop total (suc i) operations
            (push_outcome total error_reported (record run { disk = disk }))
      | done entry disk ↦
          let run' = push_entry entry disk run in
          elim (outside.journal_saved i) [
            | true ↦ audit_loop total (suc i) operations (push_outcome total applied run')
            | false ↦ save_failed (finish total run')
          ]
      | step_panics ↦ panicked
      | step_diverges ↦ diverged
    ]
  ]

  unfoldable pub execute_operations_audit : List (MatchOperation F) → Bool → Disk → Ending
  unfolding audit_loop
  execute_operations_audit operations dry_run disk =
      if dry_run
      then returned (record {
        disk = disk;
        journal = [];
        outcomes = replicate (length operations) not_run;
        events = [];
      })
      else audit_loop (length operations) 0 operations (record {
        disk = disk;
        journal = [];
        outcomes = [];
        events = started (length operations) ∷ [];
      })

  -- The loop of `execute_operations`, which ends at the first failure; an outcome stands for a
  -- completed operation.
  unfoldable pub execute_loop : ℕ → ℕ → List (MatchOperation F) → Run → Ending
  unfolding run_operation push_outcome finish push_entry
  execute_loop total i [] run = returned (finish total run)
  execute_loop total i (op ∷ operations) run = elim (run_operation i op run.disk) [
    | refused disk ↦ stopped (finish total (record run { disk = disk }))
    | done entry disk ↦
        let run' = push_entry entry disk run in
        elim (outside.journal_saved i) [
          | true ↦ execute_loop total (suc i) operations (push_outcome total applied run')
          | false ↦ save_failed (finish total run')
        ]
    | step_panics ↦ panicked
    | step_diverges ↦ diverged
  ]

  unfoldable pub execute_operations : List (MatchOperation F) → Bool → Disk → Ending
  unfolding execute_loop
  execute_operations operations dry_run disk =
      if dry_run
      then returned (record { disk = disk; journal = []; outcomes = []; events = [] })
      else execute_loop (length operations) 0 operations (record {
        disk = disk;
        journal = [];
        outcomes = [];
        events = started (length operations) ∷ [];
      })
