-- ===== src/Matcher/Batch/Unique.antt =====
-- src/core/matcher/engine.rs, `apply_unique_target_paths`: what the whole batch guarantees.
use mathlib.Core.Option.{some-injective}
use subx_core.Prelude.{
  ℕ, zero, suc, ◌+◌, ◌≡◌, ◌≢◌, ◌≤◌, ◌<◌, refl, sym, ap, ◌∙◌, true, false, List, [], ◌∷◌, map, some,
  ◌==◌, arith, length, get_elem?, set, length-set, get_elem?-set_ne, get_elem?-set_self, Bool-cases,
  Option-cases, inl, inr, lt→ltb, ==_iff, subst,
}
use subx_core.Matcher.Types.{PathBuf, ◌=ᵖ◌, =ᵖ-refl, has_path, MatchOperation}
use subx_core.Matcher.Targets.{first_counter}
use subx_core.Matcher.Batch.{
  final_target, sorted_indices, settle, resolved_target, allocate, apply_unique_target_paths,
}
use subx_core.Matcher.Batch.Order.{
  occurs, IsDistinct, sorted_indices-IsDistinct, occurs-sorted_indices, length-sorted_indices,
}
use subx_core.Matcher.Batch.Distinct.{
  get_elem?-lt-length, Outcome, allocate-found, allocate-missing, allocate-other,
  allocate-IsSettled, settle-resolved_target,
}

get_elem?-below {ℓ} :
    {A : Type ℓ} (xs : List A) (i : ℕ) → i < length xs → (a : A) × (get_elem? xs i ≡ some a)
get_elem?-below [] i h = absurd (omega arith)
get_elem?-below (x ∷ xs) zero h = (x, refl)
get_elem?-below (x ∷ xs) (suc i) h = get_elem?-below xs i (omega arith)

length-map {ℓ κ} :
    {A : Type ℓ} {B : Type κ} (f : A → B) (xs : List A) → length (map f xs) ≡ length xs
length-map f [] = refl
length-map f (x ∷ xs) = ap suc (length-map f xs)

not_claimed : (p q : PathBuf) (claimed : List PathBuf) → has_path (p ∷ claimed) q ≡ false → p ≢ q
unfolding has_path
not_claimed p q claimed h e = absurd (ground (arith, h, subst (λ r. (p =ᵖ r) ≡ true) e (=ᵖ-refl p)))

module _ {F : Type 0} where
  -- Every first counter leaves `limit` counters below 9999.
  unfoldable pub HasCounters : ℕ → List (MatchOperation F) → Type 0
  HasCounters limit [] = Unit
  HasCounters limit (op ∷ operations) =
      (first_counter (final_target op).file_name + limit ≤ 9999) × HasCounters limit operations

  -- A batch is small enough when the counters outnumber the files and twice the operations.
  unfoldable pub IsSmall : List PathBuf → List (MatchOperation F) → Type 0
  unfolding HasCounters
  IsSmall disk operations =
      HasCounters (length operations + length operations + length disk) operations

  counters_at :
      (limit : ℕ) (operations : List (MatchOperation F)) (i : ℕ) (op : MatchOperation F)
      → HasCounters limit operations
      → get_elem? operations i ≡ some op
      → first_counter (final_target op).file_name + limit ≤ 9999
  unfolding HasCounters
  counters_at limit [] i op h e = absurd (ground arith)
  counters_at limit (x ∷ operations) zero op (h, hs) e =
      subst (λ o. first_counter (final_target o).file_name + limit ≤ 9999) (some-injective x op e) h
  counters_at limit (x ∷ operations) (suc i) op (h, hs) e = counters_at limit operations i op hs e

  -- The operation that is processed first takes a path that no later one gets.
  first-apart :
      (disk reserved : List PathBuf) (idx : ℕ) (indices : List ℕ)
      (operations : List (MatchOperation F)) (claimed : List PathBuf) (j bound : ℕ)
      (op other out out' : MatchOperation F)
      → IsDistinct (idx ∷ indices)
      → occurs j indices ≡ true
      → idx ≢ j
      → get_elem? operations idx ≡ some op
      → get_elem? operations j ≡ some other
      → suc (length indices) + length claimed ≤ bound
      → first_counter (final_target other).file_name + bound + length reserved + length disk ≤ 9999
      → get_elem? (allocate disk reserved (idx ∷ indices) operations claimed) idx ≡ some out
      → get_elem? (allocate disk reserved (idx ∷ indices) operations claimed) j ≡ some out'
      → final_target out ≢ final_target out'
  unfolding IsDistinct Outcome
  first-apart disk reserved idx indices operations claimed j bound op other out out' (n, d) m apart
        e e' l room f f' same =
      let p = resolved_target claimed reserved disk op in
      let operations' = set operations idx (settle op p) in
      let found = allocate-found disk reserved idx indices operations claimed op e in
      let (later, g, settled, free) =
        allocate-IsSettled disk reserved indices operations' (p ∷ claimed) j other bound d m
          (get_elem?-set_ne operations (settle op p) apart ∙ e') (omega arith) room in
      let first = some-injective out (settle op p) (
        sym f
        ∙ ap (λ ops. get_elem? ops idx) found
        ∙ allocate-other disk reserved indices operations' (p ∷ claimed) idx n
        ∙ get_elem?-set_self operations idx (settle op p)
            (get_elem?-lt-length operations idx op e)) in
      let second =
        some-injective later out' (sym g ∙ ap (λ ops. get_elem? ops j) (sym found) ∙ f') in
      not_claimed p (final_target later) claimed free (
        sym (settle-resolved_target claimed reserved disk op)
        ∙ ap final_target (sym first)
        ∙ same
        ∙ ap final_target (sym second))

  unfoldable pub HasSlots : List PathBuf → List PathBuf → ℕ → MatchOperation F → Type 0
  HasSlots disk reserved bound op =
      first_counter (final_target op).file_name + bound + length reserved + length disk ≤ 9999

  -- No two indices of the loop end at one target.
  allocate-apart :
      (disk reserved : List PathBuf) (indices : List ℕ) (operations : List (MatchOperation F))
      (claimed : List PathBuf) (i j bound : ℕ) (op other out out' : MatchOperation F)
      → IsDistinct indices
      → occurs i indices ≡ true
      → occurs j indices ≡ true
      → i ≢ j
      → get_elem? operations i ≡ some op
      → get_elem? operations j ≡ some other
      → length indices + length claimed ≤ bound
      → HasSlots disk reserved bound op
      → HasSlots disk reserved bound other
      → get_elem? (allocate disk reserved indices operations claimed) i ≡ some out
      → get_elem? (allocate disk reserved indices operations claimed) j ≡ some out'
      → final_target out ≢ final_target out'
  unfolding IsDistinct occurs HasSlots
  allocate-apart disk reserved [] operations claimed i j bound op other out out' d m m' apart e e' l
        room room' f f' =
      absurd (ground arith)
  allocate-apart disk reserved (idx ∷ indices) operations claimed i j bound op other out out' (n, d)
        m m' apart e e' l room room' f f' =
      let result = allocate disk reserved (idx ∷ indices) operations claimed in
      elim (Bool-cases (idx == i)) [
        | inl q ↦
            let s = (==_iff idx i).0 q in
            first-apart disk reserved idx indices operations claimed j bound op other out out'
              (n, d) (ground arith) (λ r. apart (sym s ∙ r)) (ap (get_elem? operations) s ∙ e) e' l
              room' (ap (get_elem? result) s ∙ f) f'
        | inr q ↦ elim (Bool-cases (idx == j)) [
          | inl r ↦
              let s = (==_iff idx j).0 r in
              λ same.
                first-apart disk reserved idx indices operations claimed i bound other op out' out
                  (n, d) (ground arith) (λ t. apart (sym t ∙ s)) (ap (get_elem? operations) s ∙ e')
                  e l room (ap (get_elem? result) s ∙ f') f (sym same)
          | inr r ↦ elim (Option-cases (get_elem? operations idx)) [
            | inl o ↦
                let skip = allocate-missing disk reserved idx indices operations claimed o in
                allocate-apart disk reserved indices operations claimed i j bound op other out out'
                  d (ground arith) (ground arith) apart e e' (omega arith) room room' (rw skip at f)
                  (rw skip at f')
            | inr (o, k) ↦
                let p = resolved_target claimed reserved disk o in
                let found = allocate-found disk reserved idx indices operations claimed o k in
                allocate-apart disk reserved indices (set operations idx (settle o p)) (p ∷ claimed)
                  i j bound op other out out' d (ground arith) (ground arith) apart
                  (get_elem?-set_ne operations (settle o p) (ground arith) ∙ e)
                  (get_elem?-set_ne operations (settle o p) (ground arith) ∙ e') (omega arith) room
                  room' (rw found at f) (rw found at f')
          ]
        ]
      ]

  length-allocate :
      (disk reserved : List PathBuf) (indices : List ℕ) (operations : List (MatchOperation F))
      (claimed : List PathBuf)
      → length (allocate disk reserved indices operations claimed) ≡ length operations
  length-allocate disk reserved [] operations claimed = unfold allocate in refl
  length-allocate disk reserved (idx ∷ indices) operations claimed =
      elim (Option-cases (get_elem? operations idx)) [
        | inl o ↦
            ap length (allocate-missing disk reserved idx indices operations claimed o)
            ∙ length-allocate disk reserved indices operations claimed
        | inr (op, o) ↦
            let p = resolved_target claimed reserved disk op in
            ap length (allocate-found disk reserved idx indices operations claimed op o)
            ∙ length-allocate disk reserved indices (set operations idx (settle op p)) (p ∷ claimed)
            ∙ length-set operations idx (settle op p)
      ]

  -- An operation of a small batch, in the terms of the loop.
  pub slots_at :
      (disk : List PathBuf) (operations : List (MatchOperation F)) (i : ℕ) (op : MatchOperation F)
      → IsSmall disk operations
      → get_elem? operations i ≡ some op
      → HasSlots disk (map final_target operations) (length operations) op
        × (occurs i (sorted_indices operations) ≡ true)
        × (length (sorted_indices operations) + length {A = PathBuf} [] ≤ length operations)
  unfolding IsSmall HasSlots
  slots_at disk operations i op small e = (
    omega (
      arith,
      counters_at (length operations + length operations + length disk) operations i op small e,
      length-map final_target operations,
    ),
    occurs-sorted_indices operations i
        ∙ lt→ltb i (length operations) (get_elem?-lt-length operations i op e),
    omega (arith, length-sorted_indices operations),
  )

  pub apply-original :
      (disk : List PathBuf) (operations : List (MatchOperation F)) (k : ℕ) (out : MatchOperation F)
      → get_elem? (apply_unique_target_paths disk operations) k ≡ some out
      → (a : MatchOperation F) × (get_elem? operations k ≡ some a)
  unfolding apply_unique_target_paths
  apply-original disk operations k out h = get_elem?-below operations k (
      omega (
        arith,
        length-allocate disk (map final_target operations) (sorted_indices operations) operations
            [],
        get_elem?-lt-length (apply_unique_target_paths disk operations) k out h,
      ))

  -- In a batch small enough for the counters up to 9999, two operations at different places end
  -- with different targets.
  pub apply_unique_target_paths-distinct :
      (disk : List PathBuf) (operations : List (MatchOperation F)) (i j : ℕ)
      (op other : MatchOperation F)
      → IsSmall disk operations
      → i ≢ j
      → get_elem? (apply_unique_target_paths disk operations) i ≡ some op
      → get_elem? (apply_unique_target_paths disk operations) j ≡ some other
      → final_target op ≢ final_target other
  unfolding apply_unique_target_paths
  apply_unique_target_paths-distinct disk operations i j op other small apart e e' =
      let (a, f) = apply-original disk operations i op e in
      let (b, g) = apply-original disk operations j other e' in
      let (room, there, l) = slots_at disk operations i a small f in
      let (room', there', l') = slots_at disk operations j b small g in
      allocate-apart disk (map final_target operations) (sorted_indices operations) operations [] i
        j (length operations) a b op other (sorted_indices-IsDistinct operations) there there' apart
        f g l room room' e e'
