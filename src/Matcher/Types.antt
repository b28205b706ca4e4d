-- ===== src/Matcher/Types.antt =====
-- src/core/matcher/engine.rs and discovery.rs: files, matches and operations. A path is one that
-- names a file: the components of its directory, and the file's name.
use subx_core.Prelude.{
  ℕ, ◌≡◌, refl, ap₂, Bool, true, false, ◌&&◌, ◌||◌, List, [], ◌∷◌, Option, Text, ◌=ᵗ◌, =ᵗ-sound,
  =ᵗ-refl, arith,
}

pub record PathBuf : Type 0 where
  pub parent : List Text
  pub file_name : Text

-- `dir.join(name)` of a name without separators.
unfoldable pub join : List Text → Text → PathBuf
join dir name = record { parent = dir; file_name = name }

-- Equality of directories, by components.
infix 50 ◌=ᵈ◌
unfoldable pub ◌=ᵈ◌ : List Text → List Text → Bool
[] =ᵈ [] = true
[] =ᵈ (b ∷ t) = false
(a ∷ s) =ᵈ [] = false
(a ∷ s) =ᵈ (b ∷ t) = a =ᵗ b && s =ᵈ t

infix 50 ◌=ᵖ◌
unfoldable pub ◌=ᵖ◌ : PathBuf → PathBuf → Bool
p =ᵖ q = p.parent =ᵈ q.parent && p.file_name =ᵗ q.file_name

-- `HashSet::contains`, and `exists` on the files of the disk.
unfoldable pub has_path : List PathBuf → PathBuf → Bool
has_path [] p = false
has_path (q ∷ rest) p = q =ᵖ p || has_path rest p

pub data MediaFileType : Type 0 where
  video subtitle : MediaFileType

pub record MediaFile : Type 0 where
  pub id : Text
  pub path : PathBuf
  pub file_type : MediaFileType
  pub size : ℕ
  pub name : Text
  pub extension : Text
  pub relative_path : Text

pub data FileRelocationMode : Type 0 where
  no_relocation copy move : FileRelocationMode

pub data ConflictResolution : Type 0 where
  skip auto_rename prompt : ConflictResolution

-- A match that the AI proposes; `F` is `f32`.
pub record FileMatch (F : Type 0) : Type 0 where
  pub video_file_id : Text
  pub subtitle_file_id : Text
  pub confidence : F
  pub match_factors : List Text
  pub language : Option Text
  pub target_filename_suffix : Option Text

pub record MatchOperation (F : Type 0) : Type 0 where
  pub video_file : MediaFile
  pub subtitle_file : MediaFile
  pub new_subtitle_name : Text
  pub confidence : F
  pub reasoning : List Text
  pub relocation_mode : FileRelocationMode
  pub relocation_target_path : Option PathBuf
  pub requires_relocation : Bool

=ᵈ-sound : (s t : List Text) → (s =ᵈ t) ≡ true → s ≡ t
unfolding ◌=ᵈ◌
=ᵈ-sound [] [] h = refl
=ᵈ-sound [] (b ∷ t) h = ground arith
=ᵈ-sound (a ∷ s) [] h = ground arith
=ᵈ-sound (a ∷ s) (b ∷ t) h = ground (arith, =ᵗ-sound a b, =ᵈ-sound s t)

=ᵈ-refl : (s : List Text) → (s =ᵈ s) ≡ true
unfolding ◌=ᵈ◌
=ᵈ-refl [] = refl
=ᵈ-refl (a ∷ s) = ground (arith, =ᵗ-refl a, =ᵈ-refl s)

pub =ᵖ-sound : (p q : PathBuf) → (p =ᵖ q) ≡ true → p ≡ q
unfolding ◌=ᵖ◌ join
=ᵖ-sound p q h =
    ap₂ join (=ᵈ-sound p.parent q.parent (ground arith))
      (=ᵗ-sound p.file_name q.file_name (ground arith))

pub =ᵖ-refl : (p : PathBuf) → (p =ᵖ p) ≡ true
unfolding ◌=ᵖ◌
=ᵖ-refl p = ground (arith, =ᵈ-refl p.parent, =ᵗ-refl p.file_name)
