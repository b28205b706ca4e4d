-- ===== src/Matcher/Targets/Probe.antt =====
-- src/core/matcher/engine.rs, `apply_unique_target_paths`: what the probing of a candidate finds.
use mathlib.Core.List.{append_cancel_left, append_cancel_right, tail-eq_of_cons-eq}
use subx_core.Prelude.{
  ℕ, zero, suc, ◌+◌, ◌-◌, ◌≡◌, ◌≢◌, ◌≤◌, ◌<◌, ap, Bool, true, false, List, ◌∷◌, ◌++◌, none, some,
  Text, arith, length, length-append, Option-cases, ◌⊎◌, inl, inr,
}
use subx_core.Std.{show_uint}
use subx_core.Std.Decimal.{show_uint-injective}
use subx_core.Matcher.Types.{PathBuf, join, has_path}
use subx_core.Matcher.Names.{split_filename, split_numeric_tail, probe_name}
use subx_core.Matcher.Targets.Counting.{count-le-length, has_path-append}
use subx_core.Matcher.Targets.{
  is_taken, probe_loop, probe_candidate, numbered, first_counter, resolve,
}

probe_name-injective :
    (base ext : Text) (i j : ℕ) → probe_name base ext i ≡ probe_name base ext j → i ≡ j
unfolding probe_name
probe_name-injective base ext i j e = show_uint-injective i j (
    tail-eq_of_cons-eq (
      append_cancel_left base (b'.' ∷ show_uint i) (b'.' ∷ show_uint j)
        (append_cancel_right (base ++ b'.' ∷ show_uint i) (base ++ b'.' ∷ show_uint j) ext e)))

numbered-injective : (filename : Text) (i j : ℕ) → numbered filename i ≡ numbered filename j → i ≡ j
unfolding numbered
numbered-injective filename i j e =
    let stem = split_filename filename in
    probe_name-injective (split_numeric_tail stem.0).0 stem.1 i j e

-- The result of the loop is a probe that is not taken.
probe_loop-free :
    (taken : PathBuf → Bool) (parent : List Text) (name : ℕ → Text) (fuel counter : ℕ) (p : PathBuf)
    → probe_loop taken parent name fuel counter ≡ some p
    → (taken p ≡ false) × (p.parent ≡ parent)
unfolding probe_loop join
probe_loop-free taken parent name zero counter p h = ground arith
probe_loop-free taken parent name (suc fuel) counter p h =
    ground (arith, probe_loop-free taken parent name fuel (counter + 1) p)

-- When the loop breaks, every probe up to 9999 is taken.
probe_loop-breaks :
    (taken : PathBuf → Bool) (parent : List Text) (name : ℕ → Text) (fuel counter i : ℕ)
    → 9999 < counter + fuel
    → counter ≤ i
    → i ≤ 9999
    → probe_loop taken parent name fuel counter ≡ none
    → taken (join parent (name i)) ≡ true
unfolding probe_loop
probe_loop-breaks taken parent name zero counter i f a b h = absurd (omega arith)
probe_loop-breaks taken parent name (suc fuel) counter i f a b h = elim (ℕ_cases counter i a) [
  | inl e ↦ rw (← e) (ground arith)
  | inr e ↦ ground (
    arith,
    probe_loop-breaks taken parent name fuel (counter + 1) i (omega arith) (omega arith) b,
  )
]
  where
    ℕ_cases : (m n : ℕ) → m ≤ n → (m ≡ n) ⊎ (m < n)
    ℕ_cases m n h = ground arith

-- All that can make a path taken.
occupied : List PathBuf → List PathBuf → List PathBuf → List PathBuf
occupied claimed reserved disk = claimed ++ (reserved ++ disk)

is_taken-occupied :
    (claimed reserved disk : List PathBuf) (candidate source p : PathBuf)
    → is_taken claimed reserved disk candidate source p ≡ true
    → has_path (occupied claimed reserved disk) p ≡ true
unfolding is_taken occupied
is_taken-occupied claimed reserved disk candidate source p h =
    ground (arith, has_path-append claimed (reserved ++ disk) p, has_path-append reserved disk p)

length-occupied :
    (claimed reserved disk : List PathBuf)
    → length (occupied claimed reserved disk) ≡ length claimed + length reserved + length disk
unfolding occupied
length-occupied claimed reserved disk =
    omega (arith, length-append claimed (reserved ++ disk), length-append reserved disk)

unfoldable pub HasRoom : List PathBuf → List PathBuf → List PathBuf → PathBuf → Type 0
HasRoom claimed reserved disk candidate =
    first_counter candidate.file_name + length claimed + length reserved + length disk ≤ 9999

probe_candidate-finds :
    (claimed reserved disk : List PathBuf) (candidate source : PathBuf)
    → HasRoom claimed reserved disk candidate
    → probe_candidate (is_taken claimed reserved disk candidate source) candidate ≢ none
unfolding HasRoom probe_candidate join
probe_candidate-finds claimed reserved disk candidate source room h = omega (
  arith,
  length-occupied claimed reserved disk,
  count-le-length (suc (length (occupied claimed reserved disk))) probe
      (occupied claimed reserved disk) distinct all_taken,
)
  where
    c : ℕ
    c = first_counter candidate.file_name

    probe : ℕ → PathBuf
    probe i = join candidate.parent (numbered candidate.file_name (c + i))

    distinct : (i j : ℕ) → i < j → probe i ≢ probe j
    distinct i j l e =
        omega
          (arith, numbered-injective candidate.file_name (c + i) (c + j) (ap (λ p. p.file_name) e))

    all_taken :
        (i : ℕ)
        → i < suc (length (occupied claimed reserved disk))
        → has_path (occupied claimed reserved disk) (probe i) ≡ true
    all_taken i l = is_taken-occupied claimed reserved disk candidate source (probe i) (
        probe_loop-breaks (is_taken claimed reserved disk candidate source) candidate.parent
          (numbered candidate.file_name) (suc (9999 - c)) c (c + i) (omega arith) (omega arith)
          (omega (arith, length-occupied claimed reserved disk)) h)

probe_candidate-free :
    (taken : PathBuf → Bool) (candidate p : PathBuf)
    → probe_candidate taken candidate ≡ some p
    → (taken p ≡ false) × (p.parent ≡ candidate.parent)
unfolding probe_candidate
probe_candidate-free taken candidate p h =
    probe_loop-free taken candidate.parent (numbered candidate.file_name)
      (suc (9999 - first_counter candidate.file_name)) (first_counter candidate.file_name) p h

pub resolve-parent :
    (taken : PathBuf → Bool) (candidate : PathBuf)
    → (resolve taken candidate).parent ≡ candidate.parent
unfolding resolve
resolve-parent taken candidate = elim (Option-cases (probe_candidate taken candidate)) [
  | inl e ↦ ground arith
  | inr (p, e) ↦ ground (arith, probe_candidate-free taken candidate p e)
]

resolve-found :
    (taken : PathBuf → Bool) (candidate : PathBuf)
    → probe_candidate taken candidate ≢ none
    → taken (resolve taken candidate) ≡ false
unfolding resolve
resolve-found taken candidate h = elim (Option-cases (probe_candidate taken candidate)) [
  | inl e ↦ absurd (h e)
  | inr (p, e) ↦ ground (arith, probe_candidate-free taken candidate p e)
]

pub resolve-free :
    (claimed reserved disk : List PathBuf) (candidate source : PathBuf)
    → HasRoom claimed reserved disk candidate
    → is_taken claimed reserved disk candidate source
        (resolve (is_taken claimed reserved disk candidate source) candidate)
      ≡ false
resolve-free claimed reserved disk candidate source room =
    resolve-found (is_taken claimed reserved disk candidate source) candidate
      (probe_candidate-finds claimed reserved disk candidate source room)
