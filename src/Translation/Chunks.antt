-- ===== src/Translation/Chunks.antt =====
-- src/core/translation/engine.rs: `chunk_ranges`. The loop makes a round for each chunk; `total` rounds
-- are enough when the batch size is positive.
use subx_core.Prelude.{
  ℕ, zero, suc, ◌+◌, ◌-◌, ◌≤◌, ◌<◌, ◌≡◌, refl, arith, ap, sym, ◌∙◌, List, [], ◌∷◌, ◌++◌, Option,
  none, some, false, ltb, if◌then◌else◌, min, length, Bool-cases, inl, inr,
}

-- `(start..start + count).collect()`
unfoldable pub range : ℕ → ℕ → List ℕ
range start zero = []
range start (suc count) = start ∷ range (suc start) count

abbrev pub prepend_chunk : List ℕ → Option (List (List ℕ)) → Option (List (List ℕ))
prepend_chunk c none = none
prepend_chunk c (some cs) = some (c ∷ cs)

-- `none` means that the fuel ran out.
unfoldable pub chunks_from : ℕ → ℕ → ℕ → ℕ → Option (List (List ℕ))
unfolding range
chunks_from zero total batch_size start = if ltb start total then none else some []
chunks_from (suc fuel) total batch_size start =
    let end = min (start + batch_size) total in
    let rest = chunks_from fuel total batch_size end in
    if ltb start total then prepend_chunk (range start (end - start)) rest else some []

unfoldable pub chunk_ranges : ℕ → ℕ → Option (List (List ℕ))
unfolding chunks_from
chunk_ranges total batch_size = chunks_from total total batch_size 0

abbrev pub concat : List (List ℕ) → List ℕ
concat [] = []
concat (c ∷ cs) = c ++ concat cs

-- Every chunk has at least one index and at most `n`.
abbrev pub Sized : ℕ → List (List ℕ) → Type 0
Sized n [] = Unit {0}
Sized n (c ∷ cs) = (0 < length c) × (length c ≤ n) × Sized n cs

length-range : (start count : ℕ) → length (range start count) ≡ count
unfolding range
length-range start zero = refl
length-range start (suc count) = ap suc (length-range (suc start) count)

range-append : (start a b : ℕ) → range start (a + b) ≡ range start a ++ range (start + a) b
unfolding range
range-append start zero b =
    let e : 0 + b ≡ b = omega arith in let f : start + 0 ≡ start = omega arith in rw (e, f)
range-append start (suc a) b =
    let e : suc a + b ≡ suc (a + b) = omega arith in
    let f : start + suc a ≡ suc start + a = omega arith in
    rw (e, f) (ap (◌∷◌ start) (range-append (suc start) a b))

abbrev pub Chunked : ℕ → ℕ → ℕ → Option (List (List ℕ)) → Type 0
Chunked total n start none = ⊥
Chunked total n start (some cs) = (concat cs ≡ range start (total - start)) × Sized n cs

Chunked-prepend :
    (total n start end : ℕ) (o : Option (List (List ℕ)))
    → start < end
    → end ≤ total
    → end ≤ start + n
    → Chunked total n end o
    → Chunked total n start (prepend_chunk (range start (end - start)) o)
Chunked-prepend total n start end none a b c h = h
Chunked-prepend total n start end (some cs) a b c (e, sized) = (
  rw e (joined (end - start) (total - end) (omega arith) (omega arith)),
  (
    omega (arith, length-range start (end - start)),
    omega (arith, length-range start (end - start)),
    sized,
  ),
)
  where
    joined :
        (x y : ℕ)
        → start + x ≡ end
        → x + y ≡ total - start
        → range start x ++ range end y ≡ range start (total - start)
    joined x y f g = rw (← f, ← g) (sym (range-append start x y))

ended-Chunked : (total n start : ℕ) → total ≤ start → Chunked total n start (some [])
unfolding range
ended-Chunked total n start h = let e : total - start ≡ 0 = omega arith in (rw e refl, tt)

chunks_from-Chunked :
    (fuel total n start : ℕ)
    → 0 < n
    → total ≤ start + fuel
    → start ≤ total
    → Chunked total n start (chunks_from fuel total n start)
unfolding chunks_from range
chunks_from-Chunked zero total n start pos enough le =
    let e : ltb start total ≡ false = ground arith in
    rw e (ended-Chunked total n start (omega arith))
chunks_from-Chunked (suc fuel) total n start pos enough le = elim (Bool-cases (ltb start total)) [
  | inl more ↦ rw more (
      Chunked-prepend total n start (min (start + n) total) _ (ground arith) (omega arith)
        (omega arith)
        (chunks_from-Chunked fuel total n (min (start + n) total) pos (ground arith) (omega arith)))
  | inr ended ↦ rw ended (ended-Chunked total n start (ground arith))
]

-- With a positive batch size the chunks are found within the fuel; put together they are the indices
-- 0 to `total - 1` in order, and each has between one and `n` of them.
pub chunk_ranges-partition :
    (total n : ℕ)
    → 0 < n
    → (cs : List (List ℕ)) × (chunk_ranges total n ≡ some cs)
      × (concat cs ≡ range 0 total)
      × Sized n cs
unfolding chunk_ranges
chunk_ranges-partition total n pos =
    shown (chunks_from total total n 0) refl
      (chunks_from-Chunked total total n 0 pos (omega arith) (omega arith))
  where
    shown :
        (o : Option (List (List ℕ)))
        → chunks_from total total n 0 ≡ o
        → Chunked total n 0 o
        → (cs : List (List ℕ)) × (chunks_from total total n 0 ≡ some cs)
          × (concat cs ≡ range 0 total)
          × Sized n cs
    shown none e h = absurd h
    shown (some cs) e (joined, sized) = (cs, e, joined ∙ ap (range 0) (omega arith), sized)
