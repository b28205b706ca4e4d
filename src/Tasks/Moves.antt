-- ===== src/Tasks/Moves.antt =====
-- src/core/parallel/task.rs: what a rename or a move leaves of the files.
use mathlib.Core.Option.{some-injective}
use subx_core.Prelude.{
  ◌≡◌, ◌≢◌, refl, sym, ap, ◌∙◌, Bool, true, false, ◌||◌, [], Option, none, some, Text, arith,
  if◌then◌else◌, Bool-cases, Option-cases, ◌⊎◌, inl, inr, subst,
}
use subx_core.Matcher.Types.{PathBuf, ◌=ᵖ◌, =ᵖ-sound, =ᵖ-refl}
use subx_core.Tasks.Disk.{Disk, read, exists, erase, write, Faults, success, failed, disk_of}
use subx_core.Tasks.Files.{
  resolve_filename_conflict, copy_contents, try_rename, remove_source,
  execute_rename_file_operation,
}
use subx_core.Tasks.Reads.{read-erase_ne, read-write_self, read-write_ne}
use subx_core.Tasks.Keeps.{
  IsNew, exists-read, read-differs, resolve_filename_conflict-IsNew, finish, finish-other,
  finish-source,
}

-- The contents `c` of `p` are still there: at `p`, or, when `p` is the source of the move, at a path
-- that was free.
unfoldable pub Survives : PathBuf → Disk → Disk → PathBuf → Text → Type 0
Survives source disk disk' p c =
    (q : PathBuf) × (read q disk' ≡ some c) × ((q ≡ p) ⊎ ((p ≡ source) × (read q disk ≡ none)))

path-cases : (p q : PathBuf) → (p ≡ q) ⊎ (p ≢ q)
path-cases p q = elim (Bool-cases (p =ᵖ q)) [
  | inl e ↦ inl (=ᵖ-sound p q e)
  | inr e ↦ inr (λ s. absurd (ground (arith, e, subst (λ r. (p =ᵖ r) ≡ true) s (=ᵖ-refl p))))
]

module _ (faults : Faults) where
  try_rename-renamed :
      (source target : PathBuf) (disk disk' : Disk)
      → try_rename faults source target disk ≡ some disk'
      → (content : Text) × (read target disk ≡ none)
        × (read source disk ≡ some content)
        × (write target content (erase source disk) ≡ disk')
  unfolding try_rename
  try_rename-renamed source target disk disk' e =
      elim (Bool-cases (exists target disk || faults.rename_fails source target)) [
        | inl f ↦ absurd (ground (arith, e, f))
        | inr f ↦ elim (Option-cases (read source disk)) [
          | inl g ↦ absurd (ground (arith, e, f, g))
          | inr (content, g) ↦
              (content, exists-read target disk (ground (arith, f)), g, ground (arith, e, f, g))
        ]
      ]

  try_rename-Survives :
      (source target : PathBuf) (disk disk' : Disk) (p : PathBuf) (c : Text)
      → try_rename faults source target disk ≡ some disk'
      → read p disk ≡ some c
      → Survives source disk disk' p c
  unfolding Survives
  try_rename-Survives source target disk disk' p c e h =
      let (content, free, found, made) = try_rename-renamed source target disk disk' e in
      let at = λ (q : PathBuf). ap (read q) (sym made) in
      elim (path-cases source p) [
        | inl s ↦
            let same = some-injective content c (sym found ∙ (ap (λ r. read r disk) s ∙ h)) in
            (
              target,
              at target ∙ (read-write_self target content (erase source disk) ∙ ap some same),
              inr (sym s, free),
            )
        | inr d ↦ (
          p,
          at p
              ∙ (read-write_ne target p content (erase source disk)
                    (read-differs target p c disk free h)
                  ∙ (read-erase_ne source p disk d ∙ h)),
          inl refl,
        )
      ]

  new-Survives :
      (source q : PathBuf) (disk disk' : Disk) (p : PathBuf) (c : Text)
      → IsNew disk q disk'
      → read p disk ≡ some c
      → Survives source disk disk' p c
  unfolding Survives IsNew
  new-Survives source q disk disk' p c (new, made) h =
      (p, rw made (read-write_ne q p [] disk (read-differs q p c disk new h) ∙ h), inl refl)

  finish-Survives :
      (source q : PathBuf) (disk : Disk) (p : PathBuf) (c : Text)
      → read q disk ≡ none
      → read p disk ≡ some c
      → Survives source disk (disk_of (finish faults source q disk)) p c
  unfolding Survives
  finish-Survives source q disk p c new h = elim (path-cases source p) [
    | inr d ↦ (p, finish-other faults source q p c disk new d h, inl refl)
    | inl s ↦ elim (finish-source faults source q c disk new (ap (λ r. read r disk) s ∙ h)) [
      | inl k ↦ (source, k, inl s)
      | inr k ↦ (q, k, inr (sym s, new))
    ]
  ]

  -- No contents are lost and no file is overwritten, whichever call fails: what a path holds before a
  -- rename it holds afterwards, and what the source holds stays there or stands at a path that was
  -- free.
  pub execute_rename_file_operation-Survives :
      (source target : PathBuf) (disk : Disk) (p : PathBuf) (c : Text)
      → read p disk ≡ some c
      → Survives source disk (disk_of (execute_rename_file_operation faults source target disk)) p c
  unfolding execute_rename_file_operation IsNew finish disk_of
  execute_rename_file_operation-Survives source target disk p c h =
      by_steps (faults.create_dir_fails target) (try_rename faults source target disk) refl
        (resolve_filename_conflict faults target disk) refl
    where
      unchanged : Survives source disk disk p c
      unchanged = unfold Survives in (p, h, inl refl)

      by_target :
          (b : Bool) (q : PathBuf) (d : Disk)
          → read q disk ≡ none
          → d ≡ write q [] disk
          → Survives source disk
              (disk_of (
                if b
                then failed d
                else remove_source faults source q (copy_contents faults source q d)))
              p
              c
      by_target true q d free made = new-Survives source q disk d p c (free, made) h
      by_target false q d free made =
          subst
            (λ d'.
              Survives source disk
                (disk_of (remove_source faults source q (copy_contents faults source q d'))) p c)
            (sym made) (finish-Survives source q disk p c free h)

      by_steps :
          (b : Bool) (t : Option Disk)
          → try_rename faults source target disk ≡ t
          → (o : Option (PathBuf × Disk)) → resolve_filename_conflict faults target disk ≡ o
          → Survives source disk
              (disk_of (
                if b then failed disk else elim t [
                  | some d ↦ success d
                  | none ↦ elim o [
                    | none ↦ failed disk
                    | some (q, d) ↦
                        if faults.invalid_target q
                        then failed d
                        else remove_source faults source q (copy_contents faults source q d)
                  ]
                ]))
              p
              c
      by_steps true t e o f = unchanged
      by_steps false (some d) e o f = try_rename-Survives source target disk d p c e h
      by_steps false none e none f = unchanged
      by_steps false none e (some (q, d)) f =
          let (free, made) = resolve_filename_conflict-IsNew faults target disk q d f in
          by_target (faults.invalid_target q) q d free made
