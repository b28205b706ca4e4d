-- ===== src/Tasks/Files.antt =====
-- src/core/parallel/task.rs: the operations that copy, move and rename files.
use subx_core.Prelude.{ℕ, zero, suc, ◌||◌, [], ◌∷◌, ◌++◌, Option, none, some, Text, if◌then◌else◌}
use subx_core.Std.{is_empty, show_uint}
use subx_core.Matcher.Types.{PathBuf, join}
use subx_core.Matcher.Names.{rsplit_dot}
use subx_core.Tasks.Disk.{Disk, read, exists, erase, write, Faults, TaskResult, success, failed}

-- `Path::file_stem` and `Path::extension` of a file's name.
unfoldable pub stem_and_extension : Text → Text × Text
unfolding rsplit_dot
stem_and_extension name = elim (rsplit_dot name) [
  | none ↦ (name, [])
  | some (head, tail) ↦ if is_empty head then (name, []) else (head, tail)
]

-- The name with the number `i` in front of the extension.
unfoldable pub conflict_name : Text → ℕ → Text
unfolding stem_and_extension
conflict_name name i =
    let (file_stem, extension) = stem_and_extension name in
    if is_empty extension
    then file_stem ++ b'.' ∷ show_uint i
    else file_stem ++ b'.' ∷ show_uint i ++ b'.' ∷ extension

pub data Creation : Type 0 where
  created : Disk → Creation
  already_exists other_error : Creation

module _ (faults : Faults) where
  unfoldable pub atomic_create_file : PathBuf → Disk → Creation
  unfolding exists write
  atomic_create_file p disk =
      if exists p disk
      then already_exists
      else if faults.create_fails p
      then other_error
      else created (write p [] disk)

  -- The loop `for i in 1..1000`, with its remaining rounds.
  unfoldable pub create_numbered : PathBuf → ℕ → ℕ → Disk → Option (PathBuf × Disk)
  unfolding atomic_create_file join conflict_name
  create_numbered target zero i disk = none
  create_numbered target (suc rounds) i disk =
      let new_path = join target.parent (conflict_name target.file_name i) in
      elim (atomic_create_file new_path disk) [
        | created disk' ↦ some (new_path, disk')
        | already_exists ↦ create_numbered target rounds (suc i) disk
        | other_error ↦ none
      ]

  unfoldable pub resolve_filename_conflict : PathBuf → Disk → Option (PathBuf × Disk)
  unfolding create_numbered
  resolve_filename_conflict target disk = elim (atomic_create_file target disk) [
    | created disk' ↦ some (target, disk')
    | already_exists ↦ create_numbered target 999 1 disk
    | other_error ↦ none
  ]

  -- `File::open(source)` and `io::copy` into the open file at `target`.
  unfoldable pub copy_contents : PathBuf → PathBuf → Disk → TaskResult
  unfolding read write
  copy_contents source target disk = elim (read source disk) [
    | none ↦ failed disk
    | some content ↦ elim (faults.copy_stops target) [
      | some partial ↦ failed (write target partial disk)
      | none ↦ success (write target content disk)
    ]
  ]

  -- A copy to a new file, under a name that is free.
  unfoldable pub execute_copy_operation : PathBuf → PathBuf → Disk → TaskResult
  unfolding resolve_filename_conflict copy_contents
  execute_copy_operation source target disk =
      if faults.create_dir_fails target
      then failed disk
      else elim (resolve_filename_conflict target disk) [
        | none ↦ failed disk
        | some (final_target, disk') ↦
            if faults.invalid_target final_target
            then failed disk'
            else copy_contents source final_target disk'
      ]

  unfoldable pub execute_create_backup_operation : PathBuf → PathBuf → Disk → TaskResult
  unfolding execute_copy_operation
  execute_create_backup_operation source backup disk = execute_copy_operation source backup disk

  -- `std::fs::rename`, where it is tried and works.
  unfoldable pub try_rename : PathBuf → PathBuf → Disk → Option Disk
  unfolding read exists write erase
  try_rename source target disk =
      if exists target disk || faults.rename_fails source target
      then none
      else elim (read source disk) [
        | none ↦ none
        | some content ↦ some (write target content (erase source disk))
      ]

  -- `sync_all` and `remove_file` after a complete copy.
  unfoldable pub remove_source : PathBuf → PathBuf → TaskResult → TaskResult
  unfolding erase
  remove_source source final_target (failed disk) = failed disk
  remove_source source final_target (success disk) =
      if faults.sync_fails final_target || faults.remove_fails source
      then failed disk
      else success (erase source disk)

  unfoldable pub execute_rename_file_operation : PathBuf → PathBuf → Disk → TaskResult
  unfolding try_rename resolve_filename_conflict copy_contents remove_source
  execute_rename_file_operation source target disk =
      if faults.create_dir_fails target then failed disk else elim (try_rename source target disk) [
        | some disk' ↦ success disk'
        | none ↦ elim (resolve_filename_conflict target disk) [
          | none ↦ failed disk
          | some (final_target, disk') ↦
              if faults.invalid_target final_target
              then failed disk'
              else remove_source source final_target (copy_contents source final_target disk')
        ]
      ]

  unfoldable pub execute_move_operation : PathBuf → PathBuf → Disk → TaskResult
  unfolding execute_rename_file_operation
  execute_move_operation source target disk = execute_rename_file_operation source target disk

  -- `copy_file_cifs_safe`: the source is opened, then the destination is created or truncated.
  unfoldable pub copy_file_cifs_safe : PathBuf → PathBuf → Disk → TaskResult
  unfolding read write copy_contents
  copy_file_cifs_safe source destination disk = elim (read source disk) [
    | none ↦ failed disk
    | some content ↦
        if faults.create_fails destination
        then failed disk
        else copy_contents source destination (write destination [] disk)
  ]

  unfoldable pub execute_copy_with_rename_operation : PathBuf → PathBuf → Disk → TaskResult
  unfolding copy_file_cifs_safe
  execute_copy_with_rename_operation source target disk =
      if faults.create_dir_fails target then failed disk else copy_file_cifs_safe source target disk
