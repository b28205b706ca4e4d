-- ===== src/Tasks/Disk.antt =====
-- The disk of src/core/parallel/task.rs: the files with their contents. `Faults` says which of the
-- calls to the operating system fail for reasons that are not on the disk.
use subx_core.Prelude.{Bool, true, false, List, [], ◌∷◌, Option, none, some, Text, if◌then◌else◌}
use subx_core.Matcher.Types.{PathBuf, ◌=ᵖ◌}

abbrev pub Disk : Type 0
Disk = List (PathBuf × Text)

unfoldable pub read : PathBuf → Disk → Option Text
read p [] = none
read p ((q, content) ∷ disk) = let rest = read p disk in if q =ᵖ p then some content else rest

unfoldable pub exists : PathBuf → Disk → Bool
unfolding read
exists p disk = elim (read p disk) [ none ↦ false | some content ↦ true ]

unfoldable pub erase : PathBuf → Disk → Disk
erase p [] = []
erase p ((q, content) ∷ disk) =
    let rest = erase p disk in if q =ᵖ p then rest else (q, content) ∷ rest

unfoldable pub write : PathBuf → Text → Disk → Disk
unfolding erase
write p content disk = (p, content) ∷ erase p disk

pub record Faults : Type 0 where
  pub create_dir_fails : PathBuf → Bool
  pub rename_fails : PathBuf → PathBuf → Bool
  pub create_fails : PathBuf → Bool
  pub invalid_target : PathBuf → Bool
  -- What a copy that breaks off has written.
  pub copy_stops : PathBuf → Option Text
  pub sync_fails : PathBuf → Bool
  pub remove_fails : PathBuf → Bool

-- `TaskResult`, without the messages, and the disk afterwards.
pub data TaskResult : Type 0 where
  success failed : Disk → TaskResult

unfoldable pub disk_of : TaskResult → Disk
disk_of (success disk) = disk
disk_of (failed disk) = disk
