-- ===== src/Archive/Bounded.antt =====
-- src/core/archive: what a successful extraction has written.
use subx_core.Prelude.{
  ℕ, suc, ◌+◌, ◌^◌, ◌≡◌, ◌≤◌, ◌<◌, refl, Bool, true, false, List, [], ◌∷◌, ◌++◌, Option, none, some,
  arith, length, length-append, if◌then◌else◌, Result, ok, err, ◌>>=◌, subst,
}
use subx_core.Archive.{
  max_expanded_size, max_entry_count, not_written, Component, EntryPath, EntryKind, regular,
  directory, skipped, Entry, ExtractionLimits, ExtractionError, Destination, validate_entry_path,
  check_entry, Extracted, write_file, make_directory, extract_kind, extract_entries, extract,
}
use subx_core.Archive.Limits.{
  file_size, file_sizes, HasSizes, IsBelow, StayBelow, validate_entry_path-IsBelow, IsWithin,
  check_entry-IsWithin, StayBelow-append,
}

ok-injective {ℓ} : {A : Type ℓ} (a b : A) → ◌≡◌ {A = Result ExtractionError A} (ok a) (ok b) → a ≡ b
ok-injective a b h = ground (arith, h)

-- What a round keeps, over its result.
KeepsWithin : Destination → ℕ → Result ExtractionError Extracted → Type 0
KeepsWithin dest written (ok (limits, paths)) = IsWithin dest written limits paths
KeepsWithin dest written (err e) = Unit

written-IsWithin :
    (dest : Destination) (written : ℕ) (limits : ExtractionLimits) (paths : List (List Component))
    (target : List Component)
    → IsWithin dest written limits paths
    → suc (length paths) ≤ limits.entry_count
    → IsBelow dest target
    → IsWithin dest written limits (paths ++ target ∷ [])
unfolding IsWithin
written-IsWithin dest written limits paths target (a, b, c, d, e) room h = (
  a,
  b,
  omega (arith, length-append paths (target ∷ [])),
  d,
  StayBelow-append dest paths target e h,
)

write_file-keeps :
    (dest : Destination) (round : ℕ) (path : EntryPath) (written : ℕ) (limits : ExtractionLimits)
    (paths : List (List Component))
    → IsWithin dest written limits paths
    → suc (length paths) ≤ limits.entry_count
    → KeepsWithin dest written (write_file dest (validate_entry_path dest round path) limits paths)
unfolding write_file KeepsWithin
write_file-keeps dest round path written limits paths w room =
    by_target (validate_entry_path dest round path) refl
  where
    by_target :
        (o : Option (List Component))
        → validate_entry_path dest round path ≡ o
        → KeepsWithin dest written (write_file dest o limits paths)
    by_target none e = w
    by_target (some target) e = by_fault (dest.fails target) (
        written-IsWithin dest written limits paths target w room
          (validate_entry_path-IsBelow dest round path target e))
      where
        by_fault :
            (b : Bool)
            → IsWithin dest written limits (paths ++ target ∷ [])
            → KeepsWithin dest written
                (if b then err not_written else ok (limits, paths ++ target ∷ []))
        by_fault true w' = tt
        by_fault false w' = w'

make_directory-keeps :
    (dest : Destination) (o : Option (List Component)) (written : ℕ) (limits : ExtractionLimits)
    (paths : List (List Component))
    → IsWithin dest written limits paths
    → KeepsWithin dest written (make_directory dest o limits paths)
unfolding make_directory KeepsWithin
make_directory-keeps dest none written limits paths w = w
make_directory-keeps dest (some target) written limits paths w = by_fault (dest.fails target)
  where
    by_fault :
        (b : Bool) → KeepsWithin dest written (if b then err not_written else ok (limits, paths))
    by_fault true = tt
    by_fault false = w

extract_kind-keeps :
    (dest : Destination) (round : ℕ) (kind : EntryKind) (entry : Entry) (written : ℕ)
    (limits : ExtractionLimits) (paths : List (List Component))
    → entry.size + max_expanded_size < 2 ^ 64
    → IsWithin dest written limits paths
    → KeepsWithin dest
        (file_size kind entry.size + written)
        (extract_kind dest round kind entry limits paths)
unfolding extract_kind file_size KeepsWithin
extract_kind-keeps dest round skipped entry written limits paths s w =
    subst (λ n. IsWithin dest n limits paths) {x = written} {y = 0 + written} (omega arith) w
extract_kind-keeps dest round directory entry written limits paths s w =
    make_directory-keeps dest (validate_entry_path dest round entry.path) (0 + written) limits paths
      (subst (λ n. IsWithin dest n limits paths) {x = written} {y = 0 + written} (omega arith) w)
extract_kind-keeps dest round regular entry written limits paths s w =
    by_check (check_entry entry.size limits) refl
  where
    by_check :
        (r : Result ExtractionError ExtractionLimits)
        → check_entry entry.size limits ≡ r
        → KeepsWithin dest
            (entry.size + written)
            (r >>= λ after. write_file dest (validate_entry_path dest round entry.path) after paths)
    by_check (err e) h = tt
    by_check (ok after) h =
        let (w', room) = check_entry-IsWithin dest entry.size written limits after paths s w h in
        write_file-keeps dest round entry.path (entry.size + written) after paths
          (subst (λ n. IsWithin dest n after paths) {x = written + entry.size}
            {y = entry.size + written} (omega arith) w')
          room

-- What a whole extraction keeps: the bounds, with `total` bytes of files in all.
unfoldable pub IsBounded : Destination → ℕ → List (List Component) → Type 0
unfolding StayBelow
IsBounded dest total paths =
    StayBelow dest paths × (length paths ≤ max_entry_count) × (total ≤ max_expanded_size)

within-IsBounded :
    (dest : Destination) (written : ℕ) (limits : ExtractionLimits) (paths : List (List Component))
    → IsWithin dest written limits paths
    → IsBounded dest written paths
unfolding IsWithin IsBounded
within-IsBounded dest written limits paths (a, b, c, d, e) = (e, omega arith, b)

extract_entries-IsBounded :
    (dest : Destination) (round : ℕ) (entries : List (Option Entry)) (written : ℕ)
    (limits : ExtractionLimits) (paths out : List (List Component))
    → HasSizes entries
    → IsWithin dest written limits paths
    → extract_entries dest round entries limits paths ≡ ok out
    → IsBounded dest (file_sizes entries + written) out
unfolding extract_entries HasSizes file_sizes KeepsWithin
extract_entries-IsBounded dest round [] written limits paths out s w h =
    subst (λ o. IsBounded dest (0 + written) o) (ok-injective paths out h)
      (within-IsBounded dest (0 + written) limits paths
        (subst (λ n. IsWithin dest n limits paths) {x = written} {y = 0 + written} (omega arith) w))
extract_entries-IsBounded dest round (none ∷ entries) written limits paths out s w h =
    absurd (ground (arith, h))
extract_entries-IsBounded dest round (some entry ∷ entries) written limits paths out (s, ss) w h =
    by_round (extract_kind dest round entry.kind entry limits paths)
      (extract_kind-keeps dest round entry.kind entry written limits paths s w) h
      (λ l p w' h'.
        extract_entries-IsBounded dest (suc round) entries
          (file_size entry.kind entry.size + written) l p out ss w' h')
  where
    by_round :
        (r : Result ExtractionError Extracted)
        → KeepsWithin dest (file_size entry.kind entry.size + written) r
        → (r >>= λ state. extract_entries dest (suc round) entries state.0 state.1) ≡ ok out
        → ((l : ExtractionLimits) (p : List (List Component))
            → IsWithin dest (file_size entry.kind entry.size + written) l p
            → extract_entries dest (suc round) entries l p ≡ ok out
            → IsBounded dest (file_sizes entries + (file_size entry.kind entry.size + written)) out)
        → IsBounded dest (file_size entry.kind entry.size + file_sizes entries + written) out
    by_round (err e) k h later = absurd (ground (arith, h))
    by_round (ok (l, p)) k h later =
        subst (λ n. IsBounded dest n out)
          {x = file_sizes entries + (file_size entry.kind entry.size + written)}
          {y = file_size entry.kind entry.size + file_sizes entries + written} (omega arith)
          (later l p k h)

-- When no header claims a size within 1 GiB of 2^64, an extraction that succeeds has written at most
-- 10,000 files of at most 1 GiB together by their headers, and the target of each is the destination
-- with components below it of which none is `..`, which did not exist in some round or led, links
-- followed, below the destination.
pub extract-IsBounded :
    (dest : Destination) (entries : List (Option Entry)) (paths : List (List Component))
    → HasSizes entries
    → extract dest entries ≡ ok paths
    → IsBounded dest (file_sizes entries) paths
unfolding extract
extract-IsBounded dest entries paths s h =
    subst (λ n. IsBounded dest n paths) {x = file_sizes entries + 0} {y = file_sizes entries}
      (omega arith)
      (extract_entries-IsBounded dest 0 entries 0 (record { total_size = 0; entry_count = 0 }) []
        paths s empty_IsWithin h)
  where
    empty_IsWithin : IsWithin dest 0 (record { total_size = 0; entry_count = 0 }) []
    empty_IsWithin = unfold IsWithin StayBelow in (refl, omega arith, omega arith, omega arith, tt)
