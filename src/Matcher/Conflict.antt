-- ===== src/Matcher/Conflict.antt =====
-- src/core/matcher/engine.rs: from an operation to the file task that carries it out.
use subx_core.Prelude.{ℕ, zero, suc, true, false, ◌∷◌, ◌++◌, none, some, Text, codes, if◌then◌else◌}
use subx_core.Matcher.Types.{
  PathBuf, join, MatchOperation, ConflictResolution, skip, auto_rename, prompt,
}
use subx_core.Tasks.Disk.{Disk, exists, erase, Faults}
use subx_core.Tasks.Files.{
  created, already_exists, other_error, atomic_create_file, create_numbered, stem_and_extension,
}
use subx_core.Tasks.Operation.{
  ProcessingOperation, copy_with_rename, create_backup, rename_file, FileProcessingTask,
}

-- What a call that may panic or not return gives, with the disk afterwards.
pub data Planned {ℓ} (A : Type ℓ) : Type ℓ where
  planned : A → Disk → Planned A
  panics diverges : Planned A

module _ (faults : Faults) (conflict_resolution : ConflictResolution) where
  -- The file that `atomic_create_file` made is removed again; a failure of that is ignored.
  unfoldable pub remove_placeholder : PathBuf → Disk → Disk
  unfolding erase
  remove_placeholder p disk = if faults.remove_fails p then disk else erase p disk

  -- The result is unwrapped by each caller, so an error is a panic. `fuel` bounds the recursion of
  -- the prompt, which calls itself.
  unfoldable pub resolve_filename_conflict : ℕ → PathBuf → Disk → Planned PathBuf
  unfolding exists atomic_create_file create_numbered remove_placeholder
  resolve_filename_conflict zero target disk = diverges
  resolve_filename_conflict (suc fuel) target disk = elim (exists target disk) [
    | false ↦ planned target disk
    | true ↦ elim conflict_resolution [
      | skip ↦ planned target disk
      | auto_rename ↦ elim (atomic_create_file faults target disk) [
        | created disk' ↦ planned target (remove_placeholder target disk')
        | already_exists ↦ elim (create_numbered faults target 999 1 disk) [
          | some (new_path, disk') ↦ planned new_path (remove_placeholder new_path disk')
          | none ↦ panics
        ]
        | other_error ↦ panics
      ]
      | prompt ↦ resolve_filename_conflict fuel target disk
    ]
  ]

  unfoldable pub new_task :
      (PathBuf → PathBuf → ProcessingOperation)
      → PathBuf
      → Planned PathBuf
      → Planned FileProcessingTask
  new_task operation source (planned target disk) =
      planned
        (record {
          input_path = source;
          output_path = some target;
          operation = operation source target;
        })
        disk
  new_task operation source panics = panics
  new_task operation source diverges = diverges

  module _ {F : Type 0} (fuel : ℕ) where
    -- An operation without a relocation target makes the `unwrap` panic.
    unfoldable pub create_copy_task : MatchOperation F → Disk → Planned FileProcessingTask
    unfolding resolve_filename_conflict new_task
    create_copy_task op disk = elim op.relocation_target_path [
      | none ↦ panics
      | some target_base ↦
          new_task copy_with_rename op.subtitle_file.path
            (resolve_filename_conflict fuel target_base disk)
    ]

    unfoldable pub create_rename_task : MatchOperation F → Disk → Planned FileProcessingTask
    unfolding resolve_filename_conflict new_task join
    create_rename_task op disk =
        let old = op.subtitle_file.path in
        let renamed = planned (join old.parent op.new_subtitle_name) disk in
        new_task rename_file old (
          if op.requires_relocation
          then elim op.relocation_target_path [
            | none ↦ renamed
            | some target_base ↦ resolve_filename_conflict fuel target_base disk
          ]
          else renamed)

-- `with_extension("{ext}.backup")`
unfoldable pub backup_path_of : PathBuf → Text → PathBuf
unfolding join stem_and_extension
backup_path_of source ext =
    join source.parent ((stem_and_extension source.file_name).0 ++ b'.' ∷ ext ++ codes ".backup")

unfoldable pub create_backup_task : PathBuf → Text → FileProcessingTask
unfolding backup_path_of
create_backup_task source ext =
    let backup_path = backup_path_of source ext in
    record {
      input_path = source;
      output_path = some backup_path;
      operation = create_backup source backup_path;
    }
