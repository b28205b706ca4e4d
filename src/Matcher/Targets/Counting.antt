-- ===== src/Matcher/Targets/Counting.antt =====
-- src/core/matcher/engine.rs: distinct paths outnumber a shorter list.
use subx_core.Prelude.{
  ℕ, zero, suc, ◌≡◌, ◌≢◌, ◌≤◌, ◌<◌, refl, sym, true, ◌||◌, List, [], ◌∷◌, ◌++◌, length, arith,
  if◌then◌else◌,
}
use subx_core.Matcher.Types.{PathBuf, ◌=ᵖ◌, has_path, =ᵖ-sound}

pub has_path-append :
    (xs ys : List PathBuf) (p : PathBuf) → has_path (xs ++ ys) p ≡ (has_path xs p || has_path ys p)
unfolding has_path
has_path-append [] ys p = refl
has_path-append (x ∷ xs) ys p = ground (arith, has_path-append xs ys p)

-- The list without the first occurrence.
unfoldable remove_path : List PathBuf → PathBuf → List PathBuf
remove_path [] p = []
remove_path (q ∷ rest) p = if q =ᵖ p then rest else q ∷ remove_path rest p

length-remove_path :
    (l : List PathBuf) (p : PathBuf)
    → has_path l p ≡ true
    → length l ≡ suc (length (remove_path l p))
unfolding has_path remove_path
length-remove_path [] p h = ground arith
length-remove_path (q ∷ l) p h = ground (arith, length-remove_path l p)

has_path-remove_path :
    (l : List PathBuf) (p q : PathBuf)
    → p ≢ q
    → has_path l q ≡ true
    → has_path (remove_path l p) q ≡ true
unfolding has_path remove_path
has_path-remove_path [] p q d h = ground arith
has_path-remove_path (x ∷ l) p q d h =
    ground (arith, has_path-remove_path l p q d, =ᵖ-sound x p, =ᵖ-sound x q)

-- A list that holds `n` distinct paths has at least `n` elements.
pub count-le-length :
    (n : ℕ) (f : ℕ → PathBuf) (l : List PathBuf)
    → ((i j : ℕ) → i < j → f i ≢ f j)
    → ((i : ℕ) → i < n → has_path l (f i) ≡ true)
    → n ≤ length l
count-le-length zero f l d h = omega arith
count-le-length (suc n) f l d h = omega (
  arith,
  length-remove_path l (f n) (h n (omega arith)),
  count-le-length n f (remove_path l (f n)) d others,
)
  where
    others : (i : ℕ) → i < n → has_path (remove_path l (f n)) (f i) ≡ true
    others i k = has_path-remove_path l (f n) (f i) (λ e. d i n k (sym e)) (h i (omega arith))
