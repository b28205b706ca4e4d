-- ===== src/Matcher/Targets.antt =====
-- src/core/matcher/engine.rs, `apply_unique_target_paths`: each operation of a batch gets a target
-- of its own. `disk` lists the files that exist.
pub mod Counting
pub mod Probe
use subx_core.Prelude.{
  ℕ, zero, suc, ◌+◌, ◌-◌, Bool, true, false, not, ◌&&◌, ◌||◌, List, [], ◌∷◌, map, Option, none,
  some, Text, ltb, ◌==◌, length, get_elem?, set, ◌=ᵗ◌,
}
use subx_core.Matcher.Types.{PathBuf, join, ◌=ᵈ◌, ◌=ᵖ◌, has_path, MatchOperation}
use subx_core.Matcher.Names.{split_filename, split_numeric_tail, start_counter, probe_name}

unfoldable pub is_taken :
    List PathBuf → List PathBuf → List PathBuf → PathBuf → PathBuf → PathBuf → Bool
is_taken claimed reserved disk candidate source p =
    has_path claimed p
    || (not (p =ᵖ candidate) && has_path reserved p)
    || (not (p =ᵖ source) && has_path disk p)

-- The `loop` over the counters, `taken` being `is_taken`; `none` when it breaks at 9999.
unfoldable pub probe_loop : (PathBuf → Bool) → List Text → (ℕ → Text) → ℕ → ℕ → Option PathBuf
probe_loop taken parent name zero counter = none
probe_loop taken parent name (suc fuel) counter = elim (taken (join parent (name counter))) [
  | false ↦ some (join parent (name counter))
  | true ↦ elim (ltb 9999 (counter + 1)) [
    | true ↦ none
    | false ↦ probe_loop taken parent name fuel (counter + 1)
  ]
]

-- The file name that a counter gives, and the first counter, for a candidate.
unfoldable pub numbered : Text → ℕ → Text
unfolding split_filename split_numeric_tail probe_name
numbered filename =
    let (stem, ext) = split_filename filename in
    let (base_stem, existing_counter) = split_numeric_tail stem in probe_name base_stem ext

unfoldable pub first_counter : Text → ℕ
unfolding split_filename split_numeric_tail
first_counter filename =
    let (stem, ext) = split_filename filename in
    let (base_stem, existing_counter) = split_numeric_tail stem in start_counter existing_counter

-- The probing for one candidate: 9999 - counter + 1 rounds reach the break.
unfoldable pub probe_candidate : (PathBuf → Bool) → PathBuf → Option PathBuf
unfolding probe_loop
probe_candidate taken candidate =
    let filename = candidate.file_name in
    let counter = first_counter filename in
    probe_loop taken candidate.parent (numbered filename) (suc (9999 - counter)) counter

unfoldable pub resolve : (PathBuf → Bool) → PathBuf → PathBuf
unfolding probe_candidate
resolve taken candidate = elim (taken candidate) [
  | false ↦ candidate
  | true ↦ elim (probe_candidate taken candidate) [ none ↦ candidate | some probe ↦ probe ]
]
