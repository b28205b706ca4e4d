-- ===== src/Matcher/Batch/Stable.antt =====
-- src/core/matcher/engine.rs, `apply_unique_target_paths`: no file of the disk is a target, and a
-- second pass over a batch changes nothing.
use mathlib.Core.Option.{some-injective}
use subx_core.Prelude.{
  ℕ, zero, suc, ◌≡◌, ◌≢◌, refl, sym, ap, ap₂, ◌∙◌, Bool, true, false, not, ◌&&◌, List, [], ◌∷◌, map,
  Option, none, some, Text, arith, length, get_elem?, set, Bool-cases, Option-cases, inl, inr,
  subst,
}
use subx_core.Matcher.Types.{PathBuf, ◌=ᵖ◌, =ᵖ-refl, =ᵖ-sound, has_path, MatchOperation}
use subx_core.Matcher.Targets.{is_taken, resolve}
use subx_core.Matcher.Batch.{
  target_of, rewritten, final_target, sorted_indices, settle, resolved_target, allocate,
  apply_unique_target_paths,
}
use subx_core.Matcher.Batch.Order.{occurs, IsDistinct, sorted_indices-IsDistinct}
use subx_core.Matcher.Batch.Distinct.{
  IsFree, IsSettled, Outcome, allocate-found, allocate-missing, allocate-IsSettled,
}
use subx_core.Matcher.Batch.Unique.{
  IsSmall, HasSlots, slots_at, apply-original, apply_unique_target_paths-distinct,
}

set-same {ℓ} :
    {A : Type ℓ} (xs : List A) (i : ℕ) (a : A) → get_elem? xs i ≡ some a → set xs i a ≡ xs
set-same [] i a h = refl
set-same (x ∷ xs) zero a h = ap (λ y. y ∷ xs) (sym (some-injective x a h))
set-same (x ∷ xs) (suc i) a h = ap (◌∷◌ x) (set-same xs i a h)

rewritten-target_of :
    (o : Option PathBuf) (dir : List Text) (name : Text) → rewritten o (target_of o dir name) ≡ o
unfolding rewritten target_of
rewritten-target_of none dir name = refl
rewritten-target_of (some p) dir name = refl

resolve-free_candidate :
    (taken : PathBuf → Bool) (candidate : PathBuf)
    → taken candidate ≡ false
    → resolve taken candidate ≡ candidate
unfolding resolve
resolve-free_candidate taken candidate h = ground (arith, h)

is_taken-candidate :
    (claimed reserved disk : List PathBuf) (source p : PathBuf)
    → has_path claimed p ≡ false
    → (not (p =ᵖ source) && has_path disk p) ≡ false
    → is_taken claimed reserved disk p source p ≡ false
unfolding is_taken
is_taken-candidate claimed reserved disk source p h k = ground (arith, =ᵖ-refl p, h, k)

occurs-head : (k : ℕ) (xs : List ℕ) → occurs k (k ∷ xs) ≡ true
unfolding occurs
occurs-head k xs = ground arith

occurs-apart : (k i : ℕ) (xs : List ℕ) → occurs k xs ≡ false → occurs i xs ≡ true → k ≢ i
occurs-apart k i xs h m e = absurd (ground (arith, h, m, ap (λ n. occurs n xs) e))

not_claimed :
    (p q : PathBuf) (claimed : List PathBuf)
    → p ≢ q
    → has_path claimed q ≡ false
    → has_path (p ∷ claimed) q ≡ false
unfolding has_path
not_claimed p q claimed d h = elim (Bool-cases (p =ᵖ q)) [
  | inl e ↦ absurd (d (=ᵖ-sound p q e))
  | inr e ↦ ground (arith, e, h)
]

module _ {F : Type 0} where
  -- In a batch small enough for the counters up to 9999, each operation gets a target at which no
  -- file stands but its own source, its new name is the name of that target, and its subtitle file
  -- is the one that it had.
  pub apply_unique_target_paths-IsSettled :
      (disk : List PathBuf) (operations : List (MatchOperation F)) (i : ℕ) (op : MatchOperation F)
      → IsSmall disk operations
      → get_elem? operations i ≡ some op
      → (out : MatchOperation F) × (get_elem? (apply_unique_target_paths disk operations) i
          ≡ some out)
        × IsSettled disk op out
  unfolding apply_unique_target_paths Outcome HasSlots
  apply_unique_target_paths-IsSettled disk operations i op small e =
      let (room, there, l) = slots_at disk operations i op small e in
      let (out, found, settled, free) =
        allocate-IsSettled disk (map final_target operations) (sorted_indices operations) operations
          [] i op (length operations) (sorted_indices-IsDistinct operations) there e l room in
      (out, found, settled)

  settle-target :
      (op : MatchOperation F)
      → op.new_subtitle_name ≡ (final_target op).file_name
      → settle op (final_target op) ≡ op
  unfolding settle final_target
  settle-target op h =
      ap₂ (λ name target. record op { new_subtitle_name = name; relocation_target_path = target })
        (sym h)
        (rewritten-target_of op.relocation_target_path op.subtitle_file.path.parent
          op.new_subtitle_name)

  resolved_target-kept :
      (claimed reserved disk : List PathBuf) (op : MatchOperation F)
      → IsFree disk op
      → has_path claimed (final_target op) ≡ false
      → resolved_target claimed reserved disk op ≡ final_target op
  unfolding resolved_target IsFree
  resolved_target-kept claimed reserved disk op free h =
      let source = op.subtitle_file.path in
      resolve-free_candidate (is_taken claimed reserved disk (final_target op) source)
        (final_target op) (is_taken-candidate claimed reserved disk source (final_target op) h free)

  -- A batch in which every target is free and the target of one operation only.
  IsResolved : List PathBuf → List (MatchOperation F) → Type 0
  IsResolved disk operations =
      ((i : ℕ) (op : MatchOperation F)
        → get_elem? operations i ≡ some op
        → IsFree disk op × (op.new_subtitle_name ≡ (final_target op).file_name))
      × ((i j : ℕ) (op other : MatchOperation F)
          → i ≢ j
          → get_elem? operations i ≡ some op
          → get_elem? operations j ≡ some other
          → final_target op ≢ final_target other)

  allocate-keeps :
      (disk reserved : List PathBuf) (indices : List ℕ) (operations : List (MatchOperation F))
      (claimed : List PathBuf)
      → IsResolved disk operations
      → IsDistinct indices
      → ((i : ℕ) (op : MatchOperation F)
          → occurs i indices ≡ true
          → get_elem? operations i ≡ some op
          → has_path claimed (final_target op) ≡ false)
      → allocate disk reserved indices operations claimed ≡ operations
  unfolding IsResolved IsDistinct occurs has_path
  allocate-keeps disk reserved [] operations claimed r d h = unfold allocate in refl
  allocate-keeps disk reserved (idx ∷ indices) operations claimed r (n, d) h =
      elim (Option-cases (get_elem? operations idx)) [
        | inl o ↦
            allocate-missing disk reserved idx indices operations claimed o
            ∙ allocate-keeps disk reserved indices operations claimed r d
                (λ i op m e. h i op (ground arith) e)
        | inr (op, o) ↦
            let t = final_target op in
            let (free, name) = r.0 idx op o in
            let kept =
              resolved_target-kept claimed reserved disk op free
                (h idx op (occurs-head idx indices) o) in
            let same =
              ap (λ p. set operations idx (settle op p)) kept
              ∙ ap (set operations idx) (settle-target op name)
              ∙ set-same operations idx op o in
            allocate-found disk reserved idx indices operations claimed op o
            ∙ ap₂ (λ ops p. allocate disk reserved indices ops (p ∷ claimed)) same kept
            ∙ allocate-keeps disk reserved indices operations (t ∷ claimed) r d (λ i other m e.
              not_claimed t (final_target other) claimed
                (r.1 idx i op other (occurs-apart idx i indices n m) o e)
                (h i other (ground arith) e))
      ]

  apply-keeps :
      (disk : List PathBuf) (operations : List (MatchOperation F))
      → IsResolved disk operations
      → apply_unique_target_paths disk operations ≡ operations
  unfolding apply_unique_target_paths has_path
  apply-keeps disk operations r =
      allocate-keeps disk (map final_target operations) (sorted_indices operations) operations [] r
        (sorted_indices-IsDistinct operations) (λ i op m e. refl)

  apply-IsResolved :
      (disk : List PathBuf) (operations : List (MatchOperation F))
      → IsSmall disk operations
      → IsResolved disk (apply_unique_target_paths disk operations)
  unfolding IsResolved IsSettled
  apply-IsResolved disk operations small = (
    λ i op e.
        let (before, found) = apply-original disk operations i op e in
        let (out, g, settled) =
          apply_unique_target_paths-IsSettled disk operations i before small found in
        subst (λ o. IsFree disk o × (o.new_subtitle_name ≡ (final_target o).file_name))
          (some-injective out op (sym g ∙ e)) (settled.0, settled.1),
    λ i j op other. apply_unique_target_paths-distinct disk operations i j op other small,
  )

  -- On a batch small enough for the counters up to 9999, a second pass changes nothing.
  pub apply_unique_target_paths-idempotent :
      (disk : List PathBuf) (operations : List (MatchOperation F))
      → IsSmall disk operations
      → apply_unique_target_paths disk (apply_unique_target_paths disk operations)
        ≡ apply_unique_target_paths disk operations
  apply_unique_target_paths-idempotent disk operations small =
      apply-keeps disk (apply_unique_target_paths disk operations)
        (apply-IsResolved disk operations small)
