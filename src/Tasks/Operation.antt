-- ===== src/Tasks/Operation.antt =====
-- src/core/parallel/task.rs: a file task and its execution. The messages are left out.
use subx_core.Prelude.{Bool, Option, Text}
use subx_core.Matcher.Types.{PathBuf}
use subx_core.Tasks.Disk.{Disk, Faults, TaskResult, success, failed}
use subx_core.Tasks.Files.{
  execute_copy_operation, execute_move_operation, execute_copy_with_rename_operation,
  execute_create_backup_operation, execute_rename_file_operation,
}

pub data ProcessingOperation : Type 0 where
  convert_format : Text → Text → ProcessingOperation
  sync_subtitle : PathBuf → ProcessingOperation
  match_files : Bool → ProcessingOperation
  validate_format : ProcessingOperation
  copy_to_video_folder move_to_video_folder copy_with_rename create_backup rename_file :
      PathBuf → PathBuf → ProcessingOperation

pub record FileProcessingTask : Type 0 where
  pub input_path : PathBuf
  pub output_path : Option PathBuf
  pub operation : ProcessingOperation

-- The stubs of the code touch no file; synchronisation always fails.
unfoldable pub execute : Faults → FileProcessingTask → Disk → TaskResult
unfolding execute_copy_operation execute_move_operation execute_copy_with_rename_operation
    execute_create_backup_operation execute_rename_file_operation
execute faults task disk = elim task.operation [
  | convert_format from to ↦ success disk
  | sync_subtitle audio_path ↦ failed disk
  | match_files recursive ↦ success disk
  | validate_format ↦ success disk
  | copy_to_video_folder source target ↦ execute_copy_operation faults source target disk
  | move_to_video_folder source target ↦ execute_move_operation faults source target disk
  | copy_with_rename source target ↦ execute_copy_with_rename_operation faults source target disk
  | create_backup source backup ↦ execute_create_backup_operation faults source backup disk
  | rename_file source target ↦ execute_rename_file_operation faults source target disk
]
