-- ===== src/Archive/Limits.antt =====
-- src/core/archive/common.rs: what `check_entry` and `validate_entry_path` guarantee.
use subx_core.Prelude.{
  ℕ, suc, ◌+◌, ◌^◌, ◌≡◌, refl, sym, ◌∙◌, if◌then◌else◌, ◌≤◌, ◌<◌, false, List, [], ◌∷◌, ◌++◌,
  Option, none, some, ltb, arith, length, ok, Bool-cases, Option-cases, Bool, true, not, ◌⊎◌, inl,
  inr, subst,
}
use subx_core.Archive.{
  max_expanded_size, max_entry_count, Component, EntryPath, EntryKind, regular, directory, skipped,
  Entry, ExtractionLimits, climbs, Destination, path_starts_with, canonical_or, join_entry, escapes,
  validate_entry_path, counted, check_entry,
}

unfoldable pub file_size : EntryKind → ℕ → ℕ
file_size regular size = size
file_size directory size = 0
file_size skipped size = 0

-- The sizes of the files among the entries, and their number.
unfoldable pub file_sizes : List (Option Entry) → ℕ
unfolding file_size
file_sizes [] = 0
file_sizes (none ∷ entries) = file_sizes entries
file_sizes (some entry ∷ entries) = file_size entry.kind entry.size + file_sizes entries

-- No header claims a size within 1 GiB of 2^64.
unfoldable pub HasSizes : List (Option Entry) → Type 0
HasSizes [] = Unit
HasSizes (none ∷ entries) = HasSizes entries
HasSizes (some entry ∷ entries) = (entry.size + max_expanded_size < 2 ^ 64) × HasSizes entries

-- In a round the path is absent, or it is without its links a path below the directory.
unfoldable pub LeadsBelow : Destination → ℕ → List Component → Type 0
LeadsBelow dest round target =
    (dest.canonical_path round target ≡ none)
    ⊎ ((canonical : List Component) × (dest.canonical_path round target ≡ some canonical)
        × (path_starts_with canonical
              (canonical_or dest.dest_dir (dest.canonical_path round dest.dest_dir))
            ≡ true))

-- The target is the directory with components below it of which none is `..`, and in some round it
-- did not exist or led, links followed, below the directory.
unfoldable pub IsBelow : Destination → List Component → Type 0
unfolding LeadsBelow
IsBelow dest target =
    ((rest : List Component) × (target ≡ dest.dest_dir ++ rest) × (climbs rest ≡ false))
    × ((round : ℕ) × LeadsBelow dest round target)

unfoldable pub StayBelow : Destination → List (List Component) → Type 0
unfolding IsBelow
StayBelow dest [] = Unit
StayBelow dest (path ∷ paths) = IsBelow dest path × StayBelow dest paths

not-false : (b : Bool) → not b ≡ false → b ≡ true
not-false true h = refl
not-false false h = absurd (ground (arith, h))

-- A target that does not escape is absent or leads below the directory.
not-escapes :
    (dest : Destination) (round : ℕ) (target : List Component)
    → escapes dest round target ≡ false
    → LeadsBelow dest round target
unfolding escapes LeadsBelow
not-escapes dest round target h = elim (Option-cases (dest.canonical_path round target)) [
  | inl absent ↦ inl absent
  | inr (canonical, there) ↦ inr (canonical, there, inside canonical there h)
]
  where
    inside :
        (canonical : List Component)
        → dest.canonical_path round target ≡ some canonical
        → escapes dest round target ≡ false
        → path_starts_with canonical
            (canonical_or dest.dest_dir (dest.canonical_path round dest.dest_dir))
          ≡ true
    inside canonical there h = not-false _ (ground (arith, there, h))

-- The three tests were passed, and the target is what was left.
all_passed :
    (root up out : Bool) (t target : List Component)
    → (if root then none else if up then none else if out then none else some t) ≡ some target
    → (root ≡ false) × (up ≡ false) × (out ≡ false) × (t ≡ target)
all_passed true up out t target h = absurd (ground (arith, h))
all_passed false true out t target h = absurd (ground (arith, h))
all_passed false false true t target h = absurd (ground (arith, h))
all_passed false false false t target h = (refl, refl, refl, ground (arith, h))

pub validate_entry_path-IsBelow :
    (dest : Destination) (round : ℕ) (path : EntryPath) (target : List Component)
    → validate_entry_path dest round path ≡ some target
    → IsBelow dest target
unfolding validate_entry_path IsBelow
validate_entry_path-IsBelow dest round path target h =
    let (relative, down, inside, same) =
      all_passed path.has_root (climbs path.components)
        (escapes dest round (join_entry dest.dest_dir path)) (join_entry dest.dest_dir path) target
        h in
    (
      (path.components, sym same ∙ joined path relative, down),
      (
        round,
        subst (LeadsBelow dest round) same
            (not-escapes dest round (join_entry dest.dest_dir path) inside),
      ),
    )
  where
    joined :
        (path : EntryPath)
        → path.has_root ≡ false
        → join_entry dest.dest_dir path ≡ dest.dest_dir ++ path.components
    joined path relative = unfold join_entry in rw relative refl

check_entry-passes :
    (size : ℕ) (limits after : ExtractionLimits)
    → check_entry size limits ≡ ok after
    → (counted size limits ≡ after)
      × ((counted size limits).entry_count ≤ max_entry_count)
      × ((counted size limits).total_size ≤ max_expanded_size)
unfolding check_entry
check_entry-passes size limits after h =
    elim (Bool-cases (ltb max_entry_count (counted size limits).entry_count)) [
      | inl c ↦ absurd (ground (arith, c, h))
      | inr c ↦ elim (Bool-cases (ltb max_expanded_size (counted size limits).total_size)) [
        | inl d ↦ absurd (ground (arith, c, d, h))
        | inr d ↦ (ground (arith, c, d, h), ground (arith, c), ground (arith, d))
      ]
    ]

-- What holds after some of the entries, `written` being the sizes of the files among them.
unfoldable pub IsWithin : Destination → ℕ → ExtractionLimits → List (List Component) → Type 0
unfolding StayBelow
IsWithin dest written limits paths =
    (limits.total_size ≡ written)
    × (written ≤ max_expanded_size)
    × (length paths ≤ limits.entry_count)
    × (limits.entry_count ≤ max_entry_count)
    × StayBelow dest paths

counted-IsWithin :
    (dest : Destination) (size written : ℕ) (limits : ExtractionLimits)
    (paths : List (List Component))
    → size + max_expanded_size < 2 ^ 64
    → IsWithin dest written limits paths
    → (counted size limits).entry_count ≤ max_entry_count
    → (counted size limits).total_size ≤ max_expanded_size
    → IsWithin dest (written + size) (counted size limits) paths
      × (suc (length paths) ≤ (counted size limits).entry_count)
unfolding IsWithin counted
counted-IsWithin dest size written limits paths s (a, b, c, d, e) count total =
    ((omega arith, omega arith, omega arith, omega arith, e), omega arith)

pub check_entry-IsWithin :
    (dest : Destination) (size written : ℕ) (limits after : ExtractionLimits)
    (paths : List (List Component))
    → size + max_expanded_size < 2 ^ 64
    → IsWithin dest written limits paths
    → check_entry size limits ≡ ok after
    → IsWithin dest (written + size) after paths × (suc (length paths) ≤ after.entry_count)
check_entry-IsWithin dest size written limits after paths s w h =
    let (same, count, total) = check_entry-passes size limits after h in
    subst (λ l. IsWithin dest (written + size) l paths × (suc (length paths) ≤ l.entry_count)) same
      (counted-IsWithin dest size written limits paths s w count total)

pub StayBelow-append :
    (dest : Destination) (paths : List (List Component)) (target : List Component)
    → StayBelow dest paths
    → IsBelow dest target
    → StayBelow dest (paths ++ target ∷ [])
unfolding StayBelow
StayBelow-append dest [] target s h = (h, tt)
StayBelow-append dest (p ∷ paths) target (b, s) h = (b, StayBelow-append dest paths target s h)
