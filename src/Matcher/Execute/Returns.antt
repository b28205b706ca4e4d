-- ===== src/Matcher/Execute/Returns.antt =====
-- src/core/matcher/engine.rs: when an operation of a batch panics or does not return.
use subx_core.Prelude.{
  ℕ, zero, suc, ◌≡◌, ◌≢◌, refl, Bool, true, false, Option, none, some, arith, if◌then◌else◌, ◌⊎◌,
  inl, inr,
}
use subx_core.Matcher.Types.{
  PathBuf, join, MatchOperation, ConflictResolution, skip, auto_rename, prompt,
}
use subx_core.Matcher.Plan.{MatchConfig}
use subx_core.Matcher.Conflict.{
  Planned, planned, panics, diverges, remove_placeholder, resolve_filename_conflict, new_task,
  create_copy_task, create_rename_task,
}
use subx_core.Tasks.Disk.{Disk, exists, Faults, TaskResult, success, failed}
use subx_core.Tasks.Files.{
  Creation, created, already_exists, other_error, atomic_create_file, create_numbered,
}
use subx_core.Tasks.Operation.{
  ProcessingOperation, copy_with_rename, rename_file, FileProcessingTask, execute,
}
use subx_core.Matcher.Execute.{
  JournalEntry, is_copy, Outside, Step, done, refused, step_panics, step_diverges, backup,
  primary_task, run_primary, run_operation,
}

-- A call that is not bounded by the fuel, and one that does not panic in the mode `skip`.
unfoldable pub IsBenign {ℓ} : {A : Type ℓ} → ConflictResolution → Type 0 → Planned A → Type 0
IsBenign mode excuse (planned a disk) = Unit
IsBenign mode excuse panics = (mode ≢ skip) ⊎ excuse
IsBenign mode excuse diverges = mode ≡ prompt

auto_rename-differs : auto_rename ≢ skip
auto_rename-differs e = ground (arith, e)

prompt-differs : prompt ≢ skip
prompt-differs e = ground (arith, e)

module _ (faults : Faults) (excuse : Type 0) where
  numbered-IsBenign :
      (x : Option (PathBuf × Disk))
      → IsBenign {A = PathBuf} auto_rename excuse (elim x [
        | some (p, d) ↦ planned p (remove_placeholder faults auto_rename p d)
        | none ↦ panics
      ])
  unfolding IsBenign
  numbered-IsBenign (some (p, d)) = tt
  numbered-IsBenign none = inl auto_rename-differs

  created-IsBenign :
      (target : PathBuf) (o : Creation) (x : Planned PathBuf)
      → IsBenign auto_rename excuse x
      → IsBenign auto_rename excuse (elim o [
        | created d ↦ planned target (remove_placeholder faults auto_rename target d)
        | already_exists ↦ x
        | other_error ↦ panics
      ])
  unfolding IsBenign
  created-IsBenign target (created d) x h = tt
  created-IsBenign target already_exists x h = h
  created-IsBenign target other_error x h = inl auto_rename-differs

  either-IsBenign :
      (mode : ConflictResolution) (b : Bool) (x y : Planned PathBuf)
      → IsBenign mode excuse x
      → IsBenign mode excuse y
      → IsBenign mode excuse (elim b [ false ↦ x | true ↦ y ])
  either-IsBenign mode false x y h k = h
  either-IsBenign mode true x y h k = k

  resolve-IsBenign :
      (mode : ConflictResolution) (fuel : ℕ) (target : PathBuf) (disk : Disk)
      → IsBenign mode excuse (resolve_filename_conflict faults mode (suc fuel) target disk)
  unfolding resolve_filename_conflict IsBenign
  resolve-IsBenign skip fuel target disk =
      either-IsBenign skip (exists target disk) (planned target disk) (planned target disk) tt tt
  resolve-IsBenign auto_rename fuel target disk =
      either-IsBenign auto_rename (exists target disk) (planned target disk) _ tt (
        created-IsBenign target (atomic_create_file faults target disk) _
          (numbered-IsBenign (create_numbered faults target 999 1 disk)))
  resolve-IsBenign prompt zero target disk =
      either-IsBenign prompt (exists target disk) (planned target disk) diverges tt refl
  resolve-IsBenign prompt (suc fuel) target disk =
      either-IsBenign prompt (exists target disk) (planned target disk) _ tt
        (resolve-IsBenign prompt fuel target disk)

  new_task-IsBenign :
      (mode : ConflictResolution) (operation : PathBuf → PathBuf → ProcessingOperation)
      (source : PathBuf) (r : Planned PathBuf)
      → IsBenign mode excuse r
      → IsBenign mode excuse (new_task faults mode operation source r)
  unfolding new_task IsBenign
  new_task-IsBenign mode operation source (planned target disk) h = tt
  new_task-IsBenign mode operation source panics h = h
  new_task-IsBenign mode operation source diverges h = h

-- The operation copies, and has no target to copy to.
unfoldable pub LacksTarget : {F : Type 0} → MatchOperation F → Type 0
LacksTarget op = (is_copy op.relocation_mode ≡ true) × (op.relocation_target_path ≡ none)

module _ {F : Type 0} (config : MatchConfig F) (fuel : ℕ) (outside : Outside) where
  copy-IsBenign :
      (faults : Faults) (op : MatchOperation F) (disk : Disk)
      → is_copy op.relocation_mode ≡ true
      → IsBenign config.conflict_resolution
          (LacksTarget op)
          (create_copy_task faults config.conflict_resolution (suc fuel) op disk)
  unfolding create_copy_task
  copy-IsBenign faults op disk h = by_target op.relocation_target_path refl
    where
      by_target :
          (o : Option PathBuf)
          → op.relocation_target_path ≡ o
          → IsBenign config.conflict_resolution (LacksTarget op) (elim o [
            | none ↦ panics
            | some target_base ↦
                new_task faults config.conflict_resolution copy_with_rename op.subtitle_file.path (
                  resolve_filename_conflict faults config.conflict_resolution
                    (suc fuel)
                    target_base
                    disk)
          ])
      by_target none e = unfold IsBenign LacksTarget in inr (h, e)
      by_target (some t) e =
          new_task-IsBenign faults (LacksTarget op) config.conflict_resolution copy_with_rename
            op.subtitle_file.path _
            (resolve-IsBenign faults (LacksTarget op) config.conflict_resolution fuel t disk)

  rename-IsBenign :
      (faults : Faults) (op : MatchOperation F) (disk : Disk)
      → IsBenign config.conflict_resolution
          (LacksTarget op)
          (create_rename_task faults config.conflict_resolution (suc fuel) op disk)
  unfolding create_rename_task
  rename-IsBenign faults op disk =
      new_task-IsBenign faults (LacksTarget op) config.conflict_resolution rename_file
        op.subtitle_file.path _ (by_target op.requires_relocation op.relocation_target_path)
    where
      renamed : Planned PathBuf
      renamed = planned (join op.subtitle_file.path.parent op.new_subtitle_name) disk

      by_target :
          (b : Bool) (o : Option PathBuf)
          → IsBenign config.conflict_resolution (LacksTarget op) (
              if b
              then elim o [
                | none ↦ renamed
                | some t ↦
                    resolve_filename_conflict faults config.conflict_resolution (suc fuel) t disk
              ]
              else renamed)
      by_target false o = unfold IsBenign in tt
      by_target true none = unfold IsBenign in tt
      by_target true (some t) =
          resolve-IsBenign faults (LacksTarget op) config.conflict_resolution fuel t disk

-- The same of a whole step.
unfoldable pub IsBenignStep : ConflictResolution → Type 0 → Step → Type 0
IsBenignStep mode excuse (done entry disk) = Unit
IsBenignStep mode excuse (refused disk) = Unit
IsBenignStep mode excuse step_panics = (mode ≢ skip) ⊎ excuse
IsBenignStep mode excuse step_diverges = mode ≡ prompt

executed-IsBenign :
    (mode : ConflictResolution) (excuse : Type 0) (t : TaskResult) (entry : Disk → JournalEntry)
    → IsBenignStep mode excuse (elim t [ failed d ↦ refused d | success d ↦ done (entry d) d ])
unfolding IsBenignStep
executed-IsBenign mode excuse (failed d) entry = tt
executed-IsBenign mode excuse (success d) entry = tt

saved-IsBenign :
    (mode : ConflictResolution) (excuse : Type 0) (t : TaskResult) (next : Disk → Step)
    → ((d : Disk) → IsBenignStep mode excuse (next d))
    → IsBenignStep mode excuse (elim t [ failed d ↦ refused d | success d ↦ next d ])
unfolding IsBenignStep
saved-IsBenign mode excuse (failed d) next h = tt
saved-IsBenign mode excuse (success d) next h = h d

module _ {F : Type 0} (config : MatchConfig F) (fuel : ℕ) (outside : Outside) where
  primary_task-IsBenign :
      (i : ℕ) (op : MatchOperation F) (disk : Disk)
      → IsBenign config.conflict_resolution
          (LacksTarget op)
          (primary_task config (suc fuel) outside i op disk)
  unfolding primary_task
  primary_task-IsBenign i op disk = by_mode (is_copy op.relocation_mode) refl
    where
      by_mode :
          (b : Bool)
          → is_copy op.relocation_mode ≡ b
          → IsBenign config.conflict_resolution (LacksTarget op) (
              if b
              then create_copy_task (outside.faults i) config.conflict_resolution (suc fuel) op disk
              else create_rename_task
                  (outside.faults i)
                  config.conflict_resolution
                  (suc fuel)
                  op
                  disk)
      by_mode true e = copy-IsBenign config fuel outside (outside.faults i) op disk e
      by_mode false e = rename-IsBenign config fuel outside (outside.faults i) op disk

  run_primary-IsBenign :
      (i : ℕ) (op : MatchOperation F) (b : Option PathBuf) (r : Planned FileProcessingTask)
      → IsBenign config.conflict_resolution (LacksTarget op) r
      → IsBenignStep config.conflict_resolution
          (LacksTarget op)
          (run_primary config (suc fuel) outside i op b r)
  unfolding run_primary IsBenign IsBenignStep
  run_primary-IsBenign i op b panics h = h
  run_primary-IsBenign i op b diverges h = h
  run_primary-IsBenign i op b (planned task disk) h =
      executed-IsBenign config.conflict_resolution (LacksTarget op)
        (execute (outside.faults i) task disk) _

  -- An operation panics only in another mode than `skip` or without a target to copy to, and it does
  -- not return only in the mode `prompt`.
  pub run_operation-IsBenign :
      (i : ℕ) (op : MatchOperation F) (disk : Disk)
      → IsBenignStep config.conflict_resolution
          (LacksTarget op)
          (run_operation config (suc fuel) outside i op disk)
  unfolding run_operation
  run_operation-IsBenign i op disk =
      saved-IsBenign config.conflict_resolution (LacksTarget op)
        (backup config (suc fuel) outside i op disk).1 _
        (λ d. run_primary-IsBenign i op _ _ (primary_task-IsBenign i op d))
