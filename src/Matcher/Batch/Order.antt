-- ===== src/Matcher/Batch/Order.antt =====
-- src/core/matcher/engine.rs, `apply_unique_target_paths`: the order in which a batch is processed
-- names every operation once.
use subx_core.Prelude.{
  ℕ, zero, suc, ◌+◌, ◌≡◌, refl, ap, ◌∙◌, Bool, false, ◌&&◌, ◌||◌, List, [], ◌∷◌, ltb, leb, ◌==◌,
  arith, length,
}
use subx_core.Matcher.Types.{MatchOperation}
use subx_core.Matcher.Batch.{insert_by, sort_by, range, index_before, sorted_indices}

unfoldable pub occurs : ℕ → List ℕ → Bool
occurs k [] = false
occurs k (x ∷ xs) = x == k || occurs k xs

unfoldable pub IsDistinct : List ℕ → Type 0
IsDistinct [] = Unit
IsDistinct (x ∷ xs) = (occurs x xs ≡ false) × IsDistinct xs

occurs-insert_by :
    (lt : ℕ → ℕ → Bool) (k x : ℕ) (xs : List ℕ)
    → occurs k (insert_by lt x xs) ≡ (x == k || occurs k xs)
unfolding occurs insert_by
occurs-insert_by lt k x [] = refl
occurs-insert_by lt k x (y ∷ ys) = ground (arith, occurs-insert_by lt k x ys)

insert_by-IsDistinct :
    (lt : ℕ → ℕ → Bool) (x : ℕ) (xs : List ℕ)
    → occurs x xs ≡ false
    → IsDistinct xs
    → IsDistinct (insert_by lt x xs)
unfolding occurs IsDistinct insert_by
insert_by-IsDistinct lt x [] h d = (refl, tt)
insert_by-IsDistinct lt x (y ∷ ys) h (n, d) =
    ground (arith, insert_by-IsDistinct lt x ys, occurs-insert_by lt y x ys, n, d)

occurs-sort_by : (lt : ℕ → ℕ → Bool) (k : ℕ) (xs : List ℕ) → occurs k (sort_by lt xs) ≡ occurs k xs
unfolding sort_by occurs
occurs-sort_by lt k [] = refl
occurs-sort_by lt k (x ∷ xs) =
    ground (arith, occurs-sort_by lt k xs, occurs-insert_by lt k x (sort_by lt xs))

sort_by-IsDistinct : (lt : ℕ → ℕ → Bool) (xs : List ℕ) → IsDistinct xs → IsDistinct (sort_by lt xs)
unfolding sort_by IsDistinct
sort_by-IsDistinct lt [] d = tt
sort_by-IsDistinct lt (x ∷ xs) (n, d) =
    insert_by-IsDistinct lt x (sort_by lt xs) (occurs-sort_by lt x xs ∙ n)
      (sort_by-IsDistinct lt xs d)

occurs-range : (k i n : ℕ) → occurs k (range i n) ≡ (leb i k && ltb k (i + n))
unfolding occurs range
occurs-range k i zero = ground arith
occurs-range k i (suc n) = ground (arith, occurs-range k (suc i) n)

range-IsDistinct : (i n : ℕ) → IsDistinct (range i n)
unfolding range IsDistinct
range-IsDistinct i zero = tt
range-IsDistinct i (suc n) = (ground (arith, occurs-range i (suc i) n), range-IsDistinct (suc i) n)

length-insert_by :
    (lt : ℕ → ℕ → Bool) (x : ℕ) (xs : List ℕ) → length (insert_by lt x xs) ≡ suc (length xs)
unfolding insert_by
length-insert_by lt x [] = refl
length-insert_by lt x (y ∷ ys) = ground (arith, length-insert_by lt x ys)

length-sort_by : (lt : ℕ → ℕ → Bool) (xs : List ℕ) → length (sort_by lt xs) ≡ length xs
unfolding sort_by
length-sort_by lt [] = refl
length-sort_by lt (x ∷ xs) = length-insert_by lt x (sort_by lt xs) ∙ ap suc (length-sort_by lt xs)

length-range : (i n : ℕ) → length (range i n) ≡ n
unfolding range
length-range i zero = refl
length-range i (suc n) = ap suc (length-range (suc i) n)

module _ {F : Type 0} where
  pub sorted_indices-IsDistinct :
      (operations : List (MatchOperation F)) → IsDistinct (sorted_indices operations)
  unfolding sorted_indices
  sorted_indices-IsDistinct operations =
      sort_by-IsDistinct (index_before operations) (range 0 (length operations))
        (range-IsDistinct 0 (length operations))

  pub occurs-sorted_indices :
      (operations : List (MatchOperation F)) (k : ℕ)
      → occurs k (sorted_indices operations) ≡ ltb k (length operations)
  unfolding sorted_indices
  occurs-sorted_indices operations k = ground (
    arith,
    occurs-sort_by (index_before operations) k (range 0 (length operations)),
    occurs-range k 0 (length operations),
  )

  pub length-sorted_indices :
      (operations : List (MatchOperation F))
      → length (sorted_indices operations) ≡ length operations
  unfolding sorted_indices
  length-sorted_indices operations =
      length-sort_by (index_before operations) (range 0 (length operations))
      ∙ length-range 0 (length operations)
