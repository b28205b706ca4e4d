-- ===== src/Formats/LineEndings/Normal.antt =====
-- What one token of the text contributes to the normalised text and to its split
-- (src/core/formats/line_endings.rs).
use subx_core.Prelude.{
  ℕ, ◌≡◌, ◌≢◌, refl, inl, inr, Bool, false, [], ◌∷◌, ◌++◌, arith, Text, ◌==◌, take, drop,
  Bool-cases,
}
use subx_core.Formats.LineEndings.{
  lf, contains_cr, replace_crlf, replace_cr, normalize_line_endings, term_len_at, push_front,
  split_blank,
}

unfoldable pub norm : Text → Text
norm s = replace_cr (replace_crlf s)

pub replace_crlf-plain : (s : Text) → contains_cr s ≡ false → replace_crlf s ≡ s
unfolding replace_crlf contains_cr
replace_crlf-plain [] h = refl
replace_crlf-plain (c ∷ []) h = refl
replace_crlf-plain (c ∷ d ∷ s) h = ground (arith, replace_crlf-plain (d ∷ s))

pub replace_cr-plain : (s : Text) → contains_cr s ≡ false → replace_cr s ≡ s
unfolding replace_cr contains_cr
replace_cr-plain [] h = refl
replace_cr-plain (c ∷ s) h = ground (arith, replace_cr-plain s)

pub normalize-norm : (s : Text) → normalize_line_endings s ≡ norm s
unfolding normalize_line_endings norm
normalize-norm s = elim (Bool-cases (contains_cr s)) [
  | inl e ↦ rw e
  | inr e ↦ rw (e, replace_crlf-plain s e, replace_cr-plain s e)
]

-- One token of the normalisation: a plain byte, or a terminator of one or two bytes.
pub norm_plain : (c : ℕ) (s : Text) → term_len_at (c ∷ s) ≡ 0 → norm (c ∷ s) ≡ c ∷ norm s
unfolding norm replace_cr replace_crlf term_len_at
norm_plain c [] h = ground arith
norm_plain c (d ∷ s) h = ground arith

pub norm_term :
    (c : ℕ) (s : Text)
    → term_len_at (c ∷ s) ≢ 0
    → norm (c ∷ s) ≡ lf ∷ norm (drop (term_len_at (c ∷ s)) (c ∷ s))
unfolding norm replace_cr replace_crlf term_len_at
norm_term c [] h = ground arith
norm_term c (d ∷ s) h = ground arith

unfoldable pub starts_lf : Text → Bool
starts_lf [] = false
starts_lf (c ∷ s) = c == lf

pub norm-starts_lf : (s : Text) → term_len_at s ≡ 0 → starts_lf (norm s) ≡ false
unfolding norm replace_cr replace_crlf term_len_at starts_lf
norm-starts_lf [] h = refl
norm-starts_lf (c ∷ []) h = ground arith
norm-starts_lf (c ∷ d ∷ s) h = ground arith

pub split_plain : (c : ℕ) (t : Text) → c ≢ lf → split_blank (c ∷ t) ≡ push_front c (split_blank t)
unfolding split_blank push_front
split_plain c [] h = refl
split_plain c (d ∷ t) h = ground arith

pub split_line :
    (t : Text) → starts_lf t ≡ false → split_blank (lf ∷ t) ≡ push_front lf (split_blank t)
unfolding split_blank push_front starts_lf
split_line [] h = refl
split_line (d ∷ t) h = ground arith

pub split_cut : (u : Text) → split_blank (lf ∷ lf ∷ u) ≡ [] ∷ split_blank u
unfolding split_blank
split_cut u = refl

pub plain-term_len_at : (c : ℕ) (s t : Text) → term_len_at (c ∷ s) ≡ 0 → term_len_at (c ∷ t) ≡ 0
unfolding term_len_at
plain-term_len_at c [] [] h = h
plain-term_len_at c [] (e ∷ t) h = ground arith
plain-term_len_at c (d ∷ s) [] h = ground arith
plain-term_len_at c (d ∷ s) (e ∷ t) h = ground arith

pub plain-ne-lf : (c : ℕ) (s : Text) → term_len_at (c ∷ s) ≡ 0 → c ≢ lf
unfolding term_len_at
plain-ne-lf c [] h = ground arith
plain-ne-lf c (d ∷ s) h = ground arith

-- A terminator in front of a text that a plain byte begins, or nothing.
pub norm_token :
    (c : ℕ) (s pre tail : Text)
    → term_len_at (c ∷ s) ≢ 0
    → drop (term_len_at (c ∷ s)) (c ∷ s) ≡ pre ++ tail
    → term_len_at (drop (term_len_at (c ∷ s)) (c ∷ s)) ≡ 0
    → norm (take (term_len_at (c ∷ s)) (c ∷ s) ++ pre) ≡ lf ∷ norm pre
unfolding norm replace_cr replace_crlf term_len_at
norm_token c [] [] tail h e p = ground arith
norm_token c [] (x ∷ pre) tail h e p = ground arith
norm_token c (d ∷ []) [] tail h e p = ground arith
norm_token c (d ∷ []) (x ∷ pre) tail h e p = ground arith
norm_token c (d ∷ k ∷ s) [] tail h e p = ground arith
norm_token c (d ∷ k ∷ s) (x ∷ pre) tail h e p = ground arith
