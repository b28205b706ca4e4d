-- ===== src/Archive.antt =====
-- src/core/archive/common.rs, and the loops of targz.rs and sevenz.rs over the entries of an archive.
-- Sizes are `u64` and wrap, as in a release build; the archive readers give the entries.
pub mod Limits
pub mod Bounded
pub mod Tests
use subx_core.Prelude.{
  ℕ, suc, ◌+◌, ◌*◌, ◌%◌, ◌^◌, Bool, true, false, not, ◌&&◌, ◌||◌, List, [], ◌∷◌, ◌++◌, Option, none,
  some, Text, ◌=ᵗ◌, ltb, if◌then◌else◌, Result, ok, err, ◌>>=◌, or_err,
}

abbrev pub max_expanded_size : ℕ
max_expanded_size = 1024 * 1024 * 1024

abbrev pub max_entry_count : ℕ
max_entry_count = 10000

pub data Component : Type 0 where
  normal : Text → Component
  parent_dir cur_dir : Component

-- The path of an entry: whether it has a root, and its components.
pub record EntryPath : Type 0 where
  pub has_root : Bool
  pub components : List Component

-- What the header says of an entry: files are extracted, directories made, the rest is skipped.
pub data EntryKind : Type 0 where
  regular directory skipped : EntryKind

pub record Entry : Type 0 where
  pub kind : EntryKind
  pub path : EntryPath
  pub size : ℕ

pub record ExtractionLimits : Type 0 where
  pub total_size : ℕ
  pub entry_count : ℕ

pub data ExtractionError : Type 0 where
  too_many_entries too_large unreadable not_written : ExtractionError

unfoldable pub is_parent_dir : Component → Bool
is_parent_dir (normal name) = false
is_parent_dir parent_dir = true
is_parent_dir cur_dir = false

unfoldable pub climbs : List Component → Bool
unfolding is_parent_dir
climbs [] = false
climbs (c ∷ rest) = is_parent_dir c || climbs rest

-- The directory, by its components from the root. `canonical_path` is the path without links of a path
-- that exists, in each round of the loop, and `fails` says that a directory or file cannot be written.
pub record Destination : Type 0 where
  pub dest_dir : List Component
  pub canonical_path : ℕ → List Component → Option (List Component)
  pub fails : List Component → Bool

-- `Path::join`: a path with a root replaces the directory.
unfoldable pub join_entry : List Component → EntryPath → List Component
join_entry dest_dir path = if path.has_root then path.components else dest_dir ++ path.components

unfoldable pub same_component : Component → Component → Bool
same_component (normal a) (normal b) = a =ᵗ b
same_component parent_dir parent_dir = true
same_component cur_dir cur_dir = true
same_component _ _ = false

unfoldable pub path_starts_with : List Component → List Component → Bool
unfolding same_component
path_starts_with path [] = true
path_starts_with [] (d ∷ base) = false
path_starts_with (c ∷ path) (d ∷ base) = same_component c d && path_starts_with path base

unfoldable pub canonical_or : List Component → Option (List Component) → List Component
canonical_or path none = path
canonical_or path (some canonical) = canonical

-- The target exists and its canonical path is not below that of the directory.
unfoldable pub escapes : Destination → ℕ → List Component → Bool
unfolding path_starts_with canonical_or
escapes dest round target = elim (dest.canonical_path round target) [
  | none ↦ false
  | some canonical ↦ not (
      path_starts_with canonical
        (canonical_or dest.dest_dir (dest.canonical_path round dest.dest_dir)))
]

unfoldable pub validate_entry_path : Destination → ℕ → EntryPath → Option (List Component)
unfolding climbs join_entry escapes
validate_entry_path dest round path =
    if path.has_root
    then none
    else if climbs path.components
    then none
    else if escapes dest round (join_entry dest.dest_dir path)
    then none
    else some (join_entry dest.dest_dir path)

-- The limits after one more entry, which are also changed when the entry is refused.
unfoldable pub counted : ℕ → ExtractionLimits → ExtractionLimits
counted uncompressed_size limits = record {
  total_size = (limits.total_size + uncompressed_size) % 2 ^ 64;
  entry_count = suc limits.entry_count;
}

unfoldable pub check_entry : ℕ → ExtractionLimits → Result ExtractionError ExtractionLimits
unfolding counted
check_entry uncompressed_size limits =
    let after = counted uncompressed_size limits in
    if ltb max_entry_count after.entry_count
    then err too_many_entries
    else if ltb max_expanded_size after.total_size
    then err too_large
    else ok after

-- The limits and the extracted paths.
abbrev pub Extracted : Type 0
Extracted = ExtractionLimits × List (List Component)

-- The file is written, unless its path was refused.
unfoldable pub write_file :
    Destination
    → Option (List Component)
    → ExtractionLimits
    → List (List Component)
    → Result ExtractionError Extracted
write_file dest none limits paths = ok (limits, paths)
write_file dest (some target) limits paths =
    if dest.fails target then err not_written else ok (limits, paths ++ target ∷ [])

unfoldable pub make_directory :
    Destination
    → Option (List Component)
    → ExtractionLimits
    → List (List Component)
    → Result ExtractionError Extracted
make_directory dest none limits paths = ok (limits, paths)
make_directory dest (some target) limits paths =
    if dest.fails target then err not_written else ok (limits, paths)

-- One round of the loop.
unfoldable pub extract_kind :
    Destination
    → ℕ
    → EntryKind
    → Entry
    → ExtractionLimits
    → List (List Component)
    → Result ExtractionError Extracted
unfolding check_entry validate_entry_path write_file make_directory
extract_kind dest round skipped entry limits paths = ok (limits, paths)
extract_kind dest round directory entry limits paths =
    make_directory dest (validate_entry_path dest round entry.path) limits paths
extract_kind dest round regular entry limits paths = check_entry entry.size limits >>= λ limits'.
    write_file dest (validate_entry_path dest round entry.path) limits' paths

-- The loop; an entry that cannot be read is `none`.
unfoldable pub extract_entries :
    Destination
    → ℕ
    → List (Option Entry)
    → ExtractionLimits
    → List (List Component)
    → Result ExtractionError (List (List Component))
unfolding extract_kind
extract_entries dest round [] limits paths = ok paths
extract_entries dest round (next ∷ entries) limits paths = or_err next unreadable >>= λ entry.
    extract_kind dest round entry.kind entry limits paths >>= λ state.
    extract_entries dest (suc round) entries state.0 state.1

unfoldable pub extract :
    Destination → List (Option Entry) → Result ExtractionError (List (List Component))
unfolding extract_entries
extract dest entries =
    extract_entries dest 0 entries (record { total_size = 0; entry_count = 0 }) []
