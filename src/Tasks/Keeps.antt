-- ===== src/Tasks/Keeps.antt =====
-- src/core/parallel/task.rs: no content is lost, whatever call fails.
use mathlib.Core.Option.{some-injective}
use subx_core.Prelude.{
  ℕ, zero, suc, ◌≡◌, ◌≢◌, refl, sym, ap, ◌∙◌, false, ◌||◌, [], Option, none, some, Text, arith,
  Bool-cases, Option-cases, ◌⊎◌, inl, inr, subst,
}
use subx_core.Matcher.Types.{PathBuf, join}
use subx_core.Tasks.Disk.{Disk, read, exists, write, Faults, TaskResult, success, failed, disk_of}
use subx_core.Tasks.Files.{
  conflict_name, Creation, created, already_exists, other_error, atomic_create_file,
  create_numbered, resolve_filename_conflict, copy_contents, remove_source,
}
use subx_core.Tasks.Reads.{read-erase_ne, read-write_self, read-write_ne}

-- A new, empty file at a path where there was none.
unfoldable pub IsNew : Disk → PathBuf → Disk → Type 0
IsNew disk p disk' = (read p disk ≡ none) × (disk' ≡ write p [] disk)

pub exists-read : (p : PathBuf) (disk : Disk) → exists p disk ≡ false → read p disk ≡ none
unfolding exists
exists-read p disk h = ground (arith, h)

pub read-differs :
    (q p : PathBuf) (c : Text) (disk : Disk) → read q disk ≡ none → read p disk ≡ some c → q ≢ p
read-differs q p c disk new h e = absurd (ground (arith, new, h, ap (λ r. read r disk) e))

module _ (faults : Faults) where
  atomic_create_file-IsNew :
      (p : PathBuf) (disk disk' : Disk)
      → atomic_create_file faults p disk ≡ created disk'
      → IsNew disk p disk'
  unfolding atomic_create_file IsNew
  atomic_create_file-IsNew p disk disk' h = ground (arith, h, exists-read p disk)

  creation-IsNew :
      (q p : PathBuf) (disk disk' : Disk) (o : Creation) (rest : Option (PathBuf × Disk))
      → atomic_create_file faults q disk ≡ o
      → (rest ≡ some (p, disk') → IsNew disk p disk')
      → ◌≡◌ {A = Option (PathBuf × Disk)}
          (elim o [ created d ↦ some (q, d) | already_exists ↦ rest | other_error ↦ none ])
          (some (p, disk'))
      → IsNew disk p disk'
  creation-IsNew q p disk disk' (created d) rest e later h =
      subst (λ r. IsNew disk r.0 r.1) (some-injective (q, d) (p, disk') h)
        (atomic_create_file-IsNew q disk d e)
  creation-IsNew q p disk disk' already_exists rest e later h = later h
  creation-IsNew q p disk disk' other_error rest e later h = absurd (ground (arith, h))

  create_numbered-IsNew :
      (target : PathBuf) (rounds i : ℕ) (disk : Disk) (p : PathBuf) (disk' : Disk)
      → create_numbered faults target rounds i disk ≡ some (p, disk')
      → IsNew disk p disk'
  unfolding create_numbered
  create_numbered-IsNew target zero i disk p disk' h = absurd (ground (arith, h))
  create_numbered-IsNew target (suc rounds) i disk p disk' h =
      let new_path = join target.parent (conflict_name target.file_name i) in
      creation-IsNew new_path p disk disk' (atomic_create_file faults new_path disk)
        (create_numbered faults target rounds (suc i) disk) refl
        (create_numbered-IsNew target rounds (suc i) disk p disk') h

  pub resolve_filename_conflict-IsNew :
      (target : PathBuf) (disk : Disk) (p : PathBuf) (disk' : Disk)
      → resolve_filename_conflict faults target disk ≡ some (p, disk')
      → IsNew disk p disk'
  unfolding resolve_filename_conflict
  resolve_filename_conflict-IsNew target disk p disk' h =
      creation-IsNew target p disk disk' (atomic_create_file faults target disk)
        (create_numbered faults target 999 1 disk) refl
        (create_numbered-IsNew target 999 1 disk p disk') h

  -- A copy changes the target only.
  pub copy_contents-other :
      (source target p : PathBuf) (disk : Disk)
      → target ≢ p
      → read p (disk_of (copy_contents faults source target disk)) ≡ read p disk
  unfolding copy_contents disk_of
  copy_contents-other source target p disk d = by_read (read source disk) (faults.copy_stops target)
    where
      by_read :
          (o stops : Option Text)
          → read p (
              disk_of (elim o [
                | none ↦ failed disk
                | some c ↦ elim stops [
                  | some partial ↦ failed (write target partial disk)
                  | none ↦ success (write target c disk)
                ]
              ]))
            ≡ read p disk
      by_read none stops = refl
      by_read (some c) none = read-write_ne target p c disk d
      by_read (some c) (some partial) = read-write_ne target p partial disk d

  -- A copy that succeeds leaves the contents of the source at the target.
  copy_contents-success :
      (source target : PathBuf) (c : Text) (disk disk' : Disk)
      → read source disk ≡ some c
      → copy_contents faults source target disk ≡ success disk'
      → read target disk' ≡ some c
  unfolding copy_contents
  copy_contents-success source target c disk disk' h e =
      elim (Option-cases (faults.copy_stops target)) [
        | inl f ↦ ground (arith, h, e, f, read-write_self target c disk)
        | inr (partial, f) ↦ absurd (ground (arith, h, e, f))
      ]

  -- The end of a move: the copy to the new file `q`, and the removal of the source.
  unfoldable pub finish : PathBuf → PathBuf → Disk → TaskResult
  finish source q disk =
      remove_source faults source q (copy_contents faults source q (write q [] disk))

  remove_source-other :
      (source q p : PathBuf) (r : TaskResult)
      → source ≢ p
      → read p (disk_of (remove_source faults source q r)) ≡ read p (disk_of r)
  unfolding remove_source disk_of
  remove_source-other source q p (failed disk) d = refl
  remove_source-other source q p (success disk) d =
      elim (Bool-cases (faults.sync_fails q || faults.remove_fails source)) [
        | inl e ↦ rw e refl
        | inr e ↦ rw e (read-erase_ne source p disk d)
      ]

  pub finish-other :
      (source q p : PathBuf) (c : Text) (disk : Disk)
      → read q disk ≡ none
      → source ≢ p
      → read p disk ≡ some c
      → read p (disk_of (finish source q disk)) ≡ some c
  unfolding finish
  finish-other source q p c disk new d h =
      let apart = read-differs q p c disk new h in
      remove_source-other source q p (copy_contents faults source q (write q [] disk)) d
      ∙ copy_contents-other source q p (write q [] disk) apart
      ∙ read-write_ne q p [] disk apart
      ∙ h

  -- The source keeps its contents, or they stand at `q`.
  pub finish-source :
      (source q : PathBuf) (c : Text) (disk : Disk)
      → read q disk ≡ none
      → read source disk ≡ some c
      → (read source (disk_of (finish source q disk)) ≡ some c)
        ⊎ (read q (disk_of (finish source q disk)) ≡ some c)
  unfolding finish disk_of remove_source
  finish-source source q c disk new h =
      by_copy (copy_contents faults source q (write q [] disk)) refl
    where
      apart : q ≢ source
      apart = read-differs q source c disk new h

      kept : read source (write q [] disk) ≡ some c
      kept = read-write_ne q source [] disk apart ∙ h

      by_copy :
          (r : TaskResult)
          → copy_contents faults source q (write q [] disk) ≡ r
          → (read source (disk_of (remove_source faults source q r)) ≡ some c)
            ⊎ (read q (disk_of (remove_source faults source q r)) ≡ some c)
      by_copy (failed d) e = inl (
          ap (λ r. read source (disk_of r)) (sym e)
          ∙ copy_contents-other source q source (write q [] disk) apart
          ∙ kept)
      by_copy (success d) e =
          let there = copy_contents-success source q c (write q [] disk) d kept e in
          inr (remove_source-other source q q (success d) (λ s. apart (sym s)) ∙ there)
