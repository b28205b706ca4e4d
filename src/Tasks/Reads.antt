-- ===== src/Tasks/Reads.antt =====
-- src/core/parallel/task.rs: reading a disk after a write or a removal.
use subx_core.Prelude.{◌≡◌, ◌≢◌, refl, sym, ◌∙◌, [], ◌∷◌, some, Text, arith, Bool-cases, inl, inr}
use subx_core.Matcher.Types.{PathBuf, ◌=ᵖ◌, =ᵖ-sound, =ᵖ-refl}
use subx_core.Tasks.Disk.{Disk, read, erase, write}

pub read-erase_ne : (p q : PathBuf) (disk : Disk) → p ≢ q → read q (erase p disk) ≡ read q disk
unfolding read erase
read-erase_ne p q [] d = refl
read-erase_ne p q ((r, c) ∷ disk) d = elim (Bool-cases (r =ᵖ p)) [
  | inr e ↦ ground (arith, e, read-erase_ne p q disk d)
  | inl e ↦ elim (Bool-cases (r =ᵖ q)) [
    | inl f ↦ absurd (d (sym (=ᵖ-sound r p e) ∙ =ᵖ-sound r q f))
    | inr f ↦ ground (arith, e, f, read-erase_ne p q disk d)
  ]
]

pub read-write_self : (p : PathBuf) (c : Text) (disk : Disk) → read p (write p c disk) ≡ some c
unfolding read write
read-write_self p c disk = ground (arith, =ᵖ-refl p)

pub read-write_ne :
    (p q : PathBuf) (c : Text) (disk : Disk) → p ≢ q → read q (write p c disk) ≡ read q disk
unfolding read write
read-write_ne p q c disk d = elim (Bool-cases (p =ᵖ q)) [
  | inl e ↦ absurd (d (=ᵖ-sound p q e))
  | inr e ↦ ground (arith, e, read-erase_ne p q disk d)
]
