-- ===== src/Formats/LineEndings/Blocks.antt =====
-- The raw blocks of src/core/formats/line_endings.rs line up with the normalised split.
use subx_core.Prelude.{
  ℕ, suc, zero, ◌+◌, ◌≤◌, ◌<◌, ◌≡◌, ◌≢◌, refl, sym, ap, subst, ◌∙◌, false, List, [], ◌∷◌, ◌++◌, map,
  Option, none, some, arith, Text, length, take, drop, append_assoc, append-nil, take-append-drop,
  length-drop,
}
use native.Mathlib.Decide.{ℕ_discrete}
use mathlib.Core.Path.{fun_ext}
use subx_core.Formats.LineEndings.{
  lf, replace_crlf, replace_cr, normalize_line_endings, term_len_at, RawBlocks, raw_blocks, Scan,
  found, ended, out_of_fuel, scan, next, prepend, collect, push_front, split_blank,
}
use subx_core.Formats.LineEndings.Normal.{
  norm, normalize-norm, norm_plain, norm_term, norm-starts_lf, split_plain, split_line, split_cut,
  plain-term_len_at, plain-ne-lf, norm_token,
}

-- What a scan of `rest` finds, in terms of the normalised text.
abbrev ScanOk : Text → Text → Scan → Type 0
ScanOk block rest (found b r) =
    (pre : Text) × (tail : Text) × (b ≡ block ++ pre)
    × (rest ≡ pre ++ tail)
    × (split_blank (norm rest) ≡ norm pre ∷ split_blank (norm r))
    × (length r < length rest)
ScanOk block rest ended = split_blank (norm rest) ≡ norm rest ∷ []
ScanOk block rest out_of_fuel = ⊥

plain_step :
    (block : Text) (c : ℕ) (s : Text) (r : Scan)
    → term_len_at (c ∷ s) ≡ 0
    → ScanOk (block ++ c ∷ []) s r
    → ScanOk block (c ∷ s) r
unfolding push_front
plain_step block c s (found b r) h (pre, tail, eb, er, es, hl) = (
  c ∷ pre,
  tail,
  eb ∙ append_assoc block (c ∷ []) pre,
  ap (◌∷◌ c) er,
  rw (
    norm_plain c s h,
    split_plain c (norm s) (plain-ne-lf c s h),
    es,
    norm_plain c pre (plain-term_len_at c s pre h),
  ),
  omega arith,
)
plain_step block c s ended h es =
    rw (norm_plain c s h, split_plain c (norm s) (plain-ne-lf c s h), es)
plain_step block c s out_of_fuel h x = absurd x

length-token :
    (c : ℕ) (s : Text)
    → term_len_at (c ∷ s) ≢ 0
    → length (drop (term_len_at (c ∷ s)) (c ∷ s)) ≤ length s
unfolding term_len_at
length-token c [] h = ground arith
length-token c (d ∷ s) h = ground arith

line_step :
    (block : Text) (c : ℕ) (s : Text) (r : Scan)
    → term_len_at (c ∷ s) ≢ 0
    → term_len_at (drop (term_len_at (c ∷ s)) (c ∷ s)) ≡ 0
    → ScanOk (block ++ take (term_len_at (c ∷ s)) (c ∷ s)) (drop (term_len_at (c ∷ s)) (c ∷ s)) r
    → ScanOk block (c ∷ s) r
unfolding push_front
line_step block c s (found b r) h p (pre, tail, eb, er, es, hl) =
    let n = term_len_at (c ∷ s) in
    (
      take n (c ∷ s) ++ pre,
      tail,
      eb ∙ append_assoc block (take n (c ∷ s)) pre,
      sym (take-append-drop n (c ∷ s))
          ∙ ap (◌++◌ (take n (c ∷ s))) er
          ∙ sym (append_assoc (take n (c ∷ s)) pre tail),
      rw (norm_term c s h, split_line _ (norm-starts_lf _ p), es, norm_token c s pre tail h er p),
      omega (arith, length-token c s h),
    )
line_step block c s ended h p es = rw (norm_term c s h, split_line _ (norm-starts_lf _ p), es)
line_step block c s out_of_fuel h p x = absurd x

cut_step :
    (block : Text) (c : ℕ) (s : Text)
    → term_len_at (c ∷ s) ≢ 0
    → term_len_at (drop (term_len_at (c ∷ s)) (c ∷ s)) ≢ 0
    → ScanOk block (c ∷ s) (
        found block (
          drop
            (term_len_at (drop (term_len_at (c ∷ s)) (c ∷ s)))
            (drop (term_len_at (c ∷ s)) (c ∷ s))))
cut_step block c s h p = (
  [],
  c ∷ s,
  sym (append-nil block),
  refl,
  rw (norm_term c s h) (cut_norm (drop (term_len_at (c ∷ s)) (c ∷ s)) p),
  shorter (drop (term_len_at (c ∷ s)) (c ∷ s)) (length-token c s h),
)
  where
    cut_norm :
        (t : Text)
        → term_len_at t ≢ 0
        → split_blank (lf ∷ norm t) ≡ norm [] ∷ split_blank (norm (drop (term_len_at t) t))
    cut_norm [] q = absurd (q (unfold term_len_at in refl))
    cut_norm (d ∷ t) q =
        rw (norm_term d t q) (split_cut _ ∙ unfold norm replace_cr replace_crlf in refl)

    shorter : (t : Text) → length t ≤ length s → length (drop (term_len_at t) t) < suc (length s)
    shorter t q = omega (arith, length-drop (term_len_at t) t)

module _ (fuel : ℕ) (block : Text) (c : ℕ) (s : Text) where
  abbrev token : ℕ
  token = term_len_at (c ∷ s)

  abbrev after : Text
  after = drop token (c ∷ s)

  scan_plain : token ≡ 0 → scan (suc fuel) block (c ∷ s) ≡ scan fuel (block ++ c ∷ []) s
  unfolding scan
  scan_plain p = ground arith

  scan_line :
      token ≢ 0
      → term_len_at after ≡ 0
      → scan (suc fuel) block (c ∷ s) ≡ scan fuel (block ++ take token (c ∷ s)) after
  unfolding scan
  scan_line p q = ground arith

  scan_cut :
      token ≢ 0
      → term_len_at after ≢ 0
      → scan (suc fuel) block (c ∷ s) ≡ found block (drop (term_len_at after) after)
  unfolding scan
  scan_cut p q = ground arith

-- The fuel suffices, and the scan finds what the normalised split finds.
scan-ScanOk :
    (fuel : ℕ) (rest block : Text) → length rest ≤ fuel → ScanOk block rest (scan fuel block rest)
scan-ScanOk fuel [] block h = unfold scan norm replace_cr replace_crlf split_blank in refl
scan-ScanOk zero (c ∷ s) block h = absurd (omega arith)
scan-ScanOk (suc fuel) (c ∷ s) block h = elim (ℕ_discrete (token fuel block c s) 0) [
  | yes p ↦
      subst (ScanOk block (c ∷ s)) (sym (scan_plain fuel block c s p))
        (plain_step block c s _ p (scan-ScanOk fuel s (block ++ c ∷ []) (omega arith)))
  | no p ↦ elim (ℕ_discrete (term_len_at (after fuel block c s)) 0) [
    | yes q ↦ subst (ScanOk block (c ∷ s)) (sym (scan_line fuel block c s p q)) (
        line_step block c s _ p q (
          scan-ScanOk fuel (after fuel block c s) (block ++ take (token fuel block c s) (c ∷ s))
            (omega (arith, length-token c s p))))
    | no q ↦
        subst (ScanOk block (c ∷ s)) (sym (scan_cut fuel block c s p q)) (cut_step block c s p q)
  ]
]

abbrev Aligned : Text → Option (List Text) → Type 0
Aligned src none = ⊥
Aligned src (some blocks) = map norm blocks ≡ split_blank (norm src)

Aligned-prepend :
    (rest pre s : Text) (o : Option (List Text))
    → split_blank (norm rest) ≡ norm pre ∷ split_blank (norm s)
    → Aligned s o
    → Aligned rest (prepend pre o)
Aligned-prepend rest pre s none es x = x
Aligned-prepend rest pre s (some blocks) es e = ap (◌∷◌ (norm pre)) e ∙ sym es

abbrev unread : Text → RawBlocks
unread s = record { rest = s; done = false }

collect_found :
    (fuel : ℕ) (rest block s : Text)
    → scan (length rest) [] rest ≡ found block s
    → collect (suc fuel) (unread rest) ≡ prepend block (collect fuel (unread s))
unfolding collect next
collect_found fuel rest block s e = rw (e, collect, next)

collect_ended :
    (fuel : ℕ) (rest : Text)
    → scan (length rest) [] rest ≡ ended
    → collect (suc (suc fuel)) (unread rest) ≡ some (rest ∷ [])
unfolding collect next
collect_ended fuel rest e = rw (e, collect, next)

collect-Aligned :
    (fuel : ℕ) (rest : Text) → length rest + 2 ≤ fuel → Aligned rest (collect fuel (unread rest))
collect-Aligned zero rest h = absurd (omega arith)
collect-Aligned (suc zero) rest h = absurd (omega arith)
collect-Aligned (suc (suc fuel)) rest h =
    by_scan (scan (length rest) [] rest) refl (scan-ScanOk (length rest) rest [] (omega arith))
      (λ r. collect-Aligned (suc fuel) r)
  where
    by_scan :
        (r : Scan)
        → scan (length rest) [] rest ≡ r
        → ScanOk [] rest r
        → ((s : Text) → length s + 2 ≤ suc fuel → Aligned s (collect (suc fuel) (unread s)))
        → Aligned rest (collect (suc (suc fuel)) (unread rest))
    by_scan (found b s) e (pre, tail, eb, er, es, hl) ih =
        subst (Aligned rest) (sym (collect_found (suc fuel) rest b s e))
          (rw eb (Aligned-prepend rest pre s _ es (ih s (omega arith))))
    by_scan ended e es ih = subst (Aligned rest) (sym (collect_ended fuel rest e)) (sym es)
    by_scan out_of_fuel e x ih = absurd x

-- The iterator ends within its fuel, and its blocks, normalised one by one, are exactly the blocks
-- that splitting the normalised text on "\n\n" gives, in the same order.
pub raw_blocks-split_blank :
    (content : Text)
    → (blocks : List Text) × (collect (length content + 2) (raw_blocks content) ≡ some blocks)
      × (map normalize_line_endings blocks ≡ split_blank (normalize_line_endings content))
unfolding raw_blocks
raw_blocks-split_blank content =
    shown (collect (length content + 2) (unread content)) refl
      (collect-Aligned (length content + 2) content (omega arith))
  where
    shown :
        (o : Option (List Text))
        → collect (length content + 2) (unread content) ≡ o
        → Aligned content o
        → (blocks : List Text) × (collect (length content + 2) (unread content) ≡ some blocks)
          × (map normalize_line_endings blocks ≡ split_blank (normalize_line_endings content))
    shown none e x = absurd x
    shown (some blocks) e a = (blocks, e, rw (fun_ext normalize-norm) a)
