-- ===== src/Matcher/Batch.antt =====
-- src/core/matcher/engine.rs: `apply_unique_target_paths` on a whole batch, which it changes in
-- place, and `apply_archive_origin_relocation`. Texts compare by code points, as UTF-8 does.
pub mod Order
pub mod Distinct
pub mod Unique
pub mod Stable
use subx_core.Prelude.{
  ℕ, zero, suc, Bool, true, false, not, ◌&&◌, ◌||◌, List, [], ◌∷◌, map, Option, none, some, Text,
  ltb, ◌==◌, if◌then◌else◌, length, get_elem?, set,
}
use subx_core.Matcher.Types.{PathBuf, join, ◌=ᵈ◌, MatchOperation, copy}
use subx_core.Matcher.Targets.{is_taken, resolve}

unfoldable pub text_lt : Text → Text → Bool
text_lt s [] = false
text_lt [] (d ∷ t) = true
text_lt (c ∷ s) (d ∷ t) = ltb c d || (c == d && text_lt s t)

unfoldable pub dir_lt : List Text → List Text → Bool
dir_lt s [] = false
dir_lt [] (b ∷ t) = true
dir_lt (a ∷ s) (b ∷ t) = text_lt a b || (not (text_lt b a) && dir_lt s t)

-- One insertion of a stable sort: before the first element that is not less.
unfoldable pub insert_by {ℓ} : {A : Type ℓ} → (A → A → Bool) → A → List A → List A
insert_by lt x [] = x ∷ []
insert_by lt x (y ∷ ys) = let rest = insert_by lt x ys in if lt y x then y ∷ rest else x ∷ y ∷ ys

unfoldable pub sort_by {ℓ} : {A : Type ℓ} → (A → A → Bool) → List A → List A
unfolding insert_by
sort_by lt [] = []
sort_by lt (x ∷ xs) = insert_by lt x (sort_by lt xs)

-- `(i..i + n).collect()`
unfoldable pub range : ℕ → ℕ → List ℕ
range i zero = []
range i (suc n) = i ∷ range (suc i) n

unfoldable pub target_of : Option PathBuf → List Text → Text → PathBuf
unfolding join
target_of none dir name = join dir name
target_of (some p) dir name = p

-- The write to `relocation_target_path`, which happens only when it is set.
unfoldable pub rewritten : Option PathBuf → PathBuf → Option PathBuf
rewritten none resolved = none
rewritten (some p) resolved = some resolved

module _ {F : Type 0} where
  unfoldable pub final_target : MatchOperation F → PathBuf
  unfolding target_of
  final_target op =
      target_of op.relocation_target_path op.subtitle_file.path.parent op.new_subtitle_name

  -- The comparator: by directory of the target, then by relative path.
  unfoldable pub before : MatchOperation F → MatchOperation F → Bool
  unfolding final_target dir_lt text_lt
  before a b =
      let dir_a = (final_target a).parent in
      let dir_b = (final_target b).parent in
      dir_lt dir_a dir_b
      || (not (dir_lt dir_b dir_a)
          && text_lt a.subtitle_file.relative_path b.subtitle_file.relative_path)

  unfoldable pub index_before : List (MatchOperation F) → ℕ → ℕ → Bool
  unfolding before
  index_before operations i j = elim (get_elem? operations i) [
    | none ↦ false
    | some a ↦ elim (get_elem? operations j) [ none ↦ false | some b ↦ before a b ]
  ]

  unfoldable pub sorted_indices : List (MatchOperation F) → List ℕ
  unfolding sort_by range index_before
  sorted_indices operations = sort_by (index_before operations) (range 0 (length operations))

  unfoldable pub settle : MatchOperation F → PathBuf → MatchOperation F
  unfolding rewritten
  settle op resolved = record op {
    new_subtitle_name = resolved.file_name;
    relocation_target_path = rewritten op.relocation_target_path resolved;
  }

  unfoldable pub resolved_target :
      List PathBuf → List PathBuf → List PathBuf → MatchOperation F → PathBuf
  unfolding final_target is_taken resolve
  resolved_target claimed reserved disk op =
      let candidate = final_target op in
      resolve (is_taken claimed reserved disk candidate op.subtitle_file.path) candidate

  -- The loop over the sorted indices.
  unfoldable pub allocate :
      List PathBuf
      → List PathBuf
      → List ℕ
      → List (MatchOperation F)
      → List PathBuf
      → List (MatchOperation F)
  unfolding settle resolved_target
  allocate disk reserved [] operations claimed = operations
  allocate disk reserved (idx ∷ indices) operations claimed = elim (get_elem? operations idx) [
    | none ↦ allocate disk reserved indices operations claimed
    | some op ↦
        let resolved = resolved_target claimed reserved disk op in
        allocate disk reserved indices (set operations idx (settle op resolved))
          (resolved ∷ claimed)
  ]

  unfoldable pub apply_unique_target_paths :
      List PathBuf → List (MatchOperation F) → List (MatchOperation F)
  unfolding allocate sorted_indices
  apply_unique_target_paths disk operations =
      allocate disk (map final_target operations) (sorted_indices operations) operations []

  -- `archived` is `collected.archive_origin(path).is_some()`.
  unfoldable pub relocate_archived : (PathBuf → Bool) → MatchOperation F → MatchOperation F
  unfolding join
  relocate_archived archived op =
      if archived op.subtitle_file.path && not op.requires_relocation
      then record op {
        relocation_target_path = some (join op.video_file.path.parent op.new_subtitle_name);
        requires_relocation = true;
        relocation_mode = copy;
      }
      else op

  unfoldable pub apply_archive_origin_relocation :
      (PathBuf → Bool) → List (MatchOperation F) → List (MatchOperation F)
  unfolding relocate_archived
  apply_archive_origin_relocation archived = map (relocate_archived archived)
