-- ===== src/Matcher/Tests/Execution.antt =====
-- Runs of the file tasks and of the batches of src/core/matcher/engine.rs.
use subx_core.Prelude.{ℕ, ◌≡◌, ◌≢◌, refl, true, false, [], ◌∷◌, none, some, Text, codes, ◌=ᵗ◌, ◌⊎◌}
use subx_core.Std.{is_empty, show_uint, print_digits}
use subx_core.Matcher.Types.{PathBuf, ◌=ᵖ◌, ◌=ᵈ◌, MatchOperation, copy, skip, prompt}
use subx_core.Matcher.Names.{rsplit_dot}
use subx_core.Matcher.Conflict.{planned, diverges, resolve_filename_conflict}
use subx_core.Matcher.Execute.{Outside, panicked, execute_operations_audit}
use subx_core.Matcher.Execute.Stream.{IsReported, SomeLacksTarget}
use subx_core.Matcher.Execute.Audit.{execute_operations_audit-IsReported}
use subx_core.Matcher.Tests.{rename_to, batch}
use subx_core.Matcher.Tests.Planning.{config}
use subx_core.Tasks.Disk.{Disk, read, exists, Faults, disk_of}
use subx_core.Tasks.Files.{execute_rename_file_operation, execute_copy_with_rename_operation}
use subx_core.Tasks.Moves.{Survives, execute_rename_file_operation-Survives}

abbrev no_faults : Faults
no_faults = record {
  create_dir_fails = λ p. false;
  rename_fails = λ p q. false;
  create_fails = λ p. false;
  invalid_target = λ p. false;
  copy_stops = λ p. none;
  sync_fails = λ p. false;
  remove_fails = λ p. false;
}

abbrev at : Text → PathBuf
at name = record { parent = codes "s" ∷ []; file_name = name }

abbrev two_files : Disk
two_files = (at (codes "a.srt"), codes "A") ∷ (at (codes "m.srt"), codes "B") ∷ []

-- The target exists, so the contents of the source go to a numbered name.
rename_to_taken :
    disk_of
      (execute_rename_file_operation no_faults (at (codes "a.srt")) (at (codes "m.srt")) two_files)
    ≡ (at (codes "m.1.srt"), codes "A") ∷ (at (codes "m.srt"), codes "B") ∷ []
unfolding execute_rename_file_operation disk_of exists read ◌=ᵖ◌ ◌=ᵈ◌ ◌=ᵗ◌ rsplit_dot is_empty
    show_uint print_digits
rename_to_taken = refl

-- A file that is renamed to the name it has moves to a numbered name.
rename_to_itself :
    disk_of
      (execute_rename_file_operation no_faults (at (codes "m.srt")) (at (codes "m.srt")) two_files)
    ≡ (at (codes "m.1.srt"), codes "B") ∷ (at (codes "a.srt"), codes "A") ∷ []
unfolding execute_rename_file_operation disk_of exists read ◌=ᵖ◌ ◌=ᵈ◌ ◌=ᵗ◌ rsplit_dot is_empty
    show_uint print_digits
rename_to_itself = refl

-- The mode `skip` keeps the target that exists, and the copy then overwrites it.
skip_overwrites :
    resolve_filename_conflict no_faults skip 1 (at (codes "m.srt")) two_files
    ≡ planned (at (codes "m.srt")) two_files
unfolding resolve_filename_conflict exists read ◌=ᵖ◌ ◌=ᵈ◌ ◌=ᵗ◌
skip_overwrites = refl

copy_overwrites :
    read (at (codes "m.srt")) (
      disk_of (
        execute_copy_with_rename_operation no_faults
          (at (codes "a.srt"))
          (at (codes "m.srt"))
          two_files))
    ≡ some (codes "A")
unfolding execute_copy_with_rename_operation disk_of read ◌=ᵖ◌ ◌=ᵈ◌ ◌=ᵗ◌
copy_overwrites = refl

prompt_diverges :
    resolve_filename_conflict no_faults prompt 1000 (at (codes "m.srt")) two_files ≡ diverges
unfolding resolve_filename_conflict exists read ◌=ᵖ◌ ◌=ᵈ◌ ◌=ᵗ◌
prompt_diverges = refl

execute_rename_file_operation-Survives_example :
    Survives
      (at (codes "a.srt"))
      two_files
      (disk_of (
        execute_rename_file_operation no_faults
          (at (codes "a.srt"))
          (at (codes "m.srt"))
          two_files))
      (at (codes "a.srt"))
      (codes "A")
unfolding read ◌=ᵖ◌ ◌=ᵈ◌ ◌=ᵗ◌
execute_rename_file_operation-Survives_example =
    execute_rename_file_operation-Survives no_faults (at (codes "a.srt")) (at (codes "m.srt"))
      two_files (at (codes "a.srt")) (codes "A") refl

abbrev outside : Outside
outside = record {
  faults = λ i. no_faults;
  cancelled = λ i. false;
  journal_saved = λ i. true;
  metadata = λ disk p. none;
}

-- An operation that copies and stays in its directory has no target, and panics.
abbrev copy_beside : MatchOperation ℕ
copy_beside = record (rename_to (codes "a.srt") (codes "m.srt")) { relocation_mode = copy }

copy_beside_panics :
    execute_operations_audit config 1 outside (copy_beside ∷ []) false two_files ≡ panicked
unfolding execute_operations_audit
copy_beside_panics = refl

execute_operations_audit-IsReported_example :
    IsReported
      ((config.conflict_resolution ≢ skip) ⊎ SomeLacksTarget batch)
      (config.conflict_resolution ≡ prompt)
      3
      (execute_operations_audit config 1 outside batch false two_files)
execute_operations_audit-IsReported_example =
    execute_operations_audit-IsReported config 0 outside batch two_files
