-- ===== src/Formats/LineEndings.antt =====
-- src/core/formats/line_endings.rs: CR/LF normalisation and the raw block iterator. A text is the
-- list of its bytes; an offset into the buffer is the rest of the buffer from there.
pub mod Normal
pub mod Blocks
pub mod Tests
use subx_core.Prelude.{
  ℕ, suc, zero, ◌+◌, Bool, true, false, List, [], ◌∷◌, ◌++◌, map, ◌&&◌, ◌||◌, Option, none, some,
  Text, ltb, ◌==◌, if◌then◌else◌, length, take, drop,
}

abbrev pub cr : ℕ
cr = b'\r'

abbrev pub lf : ℕ
lf = b'\n'

-- `content.contains('\r')`
unfoldable pub contains_cr : Text → Bool
contains_cr [] = false
contains_cr (c ∷ s) = c == cr || contains_cr s

-- `content.replace("\r\n", "\n")`
unfoldable pub replace_crlf : Text → Text
replace_crlf [] = []
replace_crlf (c ∷ []) = c ∷ []
replace_crlf (c ∷ d ∷ s) =
    let collapsed = lf ∷ replace_crlf s in
    let kept = c ∷ replace_crlf (d ∷ s) in if c == cr && d == lf then collapsed else kept

-- `replace('\r', "\n")`
unfoldable pub replace_cr : Text → Text
replace_cr [] = []
replace_cr (c ∷ s) = (if c == cr then lf else c) ∷ replace_cr s

unfoldable pub normalize_line_endings : Text → Text
normalize_line_endings content =
    if contains_cr content then replace_cr (replace_crlf content) else content

-- The length of the terminator at the head of the buffer; past its end there is none.
unfoldable pub term_len_at : Text → ℕ
term_len_at [] = 0
term_len_at (c ∷ []) = if c == cr then 1 else if c == lf then 1 else 0
term_len_at (c ∷ d ∷ s) = if c == cr then (if d == lf then 2 else 1) else if c == lf then 1 else 0

-- `rest` is `src[pos..]`.
pub record RawBlocks : Type 0 where
  pub rest : Text
  pub done : Bool

unfoldable pub raw_blocks : Text → RawBlocks
raw_blocks content = record { rest = content; done = false }

pub data Scan : Type 0 where
  found : Text → Text → Scan
  ended : Scan
  out_of_fuel : Scan

-- The `while` loop of `next`: `block` is `src[start..i]` and the last argument `src[i..]`.
unfoldable pub scan : ℕ → Text → Text → Scan
scan fuel block [] = ended
scan zero block (c ∷ s) = out_of_fuel
scan (suc fuel) block (c ∷ s) =
    let first_term = term_len_at (c ∷ s) in
    let after_first = drop first_term (c ∷ s) in
    let second_term = term_len_at after_first in
    let one_on = scan fuel (block ++ c ∷ []) s in
    let line_on = scan fuel (block ++ take first_term (c ∷ s)) after_first in
    if first_term == 0
    then one_on
    else if ltb 0 second_term
    then found block (drop second_term after_first)
    else line_on

-- One call of `next`; the loop makes at most one round for each byte of the rest.
unfoldable pub next : RawBlocks → Option (Text × RawBlocks)
next it = if it.done then none else elim (scan (length it.rest) [] it.rest) [
  | found block rest ↦ some (block, record it { rest = rest })
  | ended ↦ some (it.rest, record it { done = true })
  | out_of_fuel ↦ none
]

abbrev pub prepend : Text → Option (List Text) → Option (List Text)
prepend block none = none
prepend block (some blocks) = some (block ∷ blocks)

-- `for block in raw_blocks(content)`, all blocks; `none` means that the fuel ran out.
unfoldable pub collect : ℕ → RawBlocks → Option (List Text)
collect zero it = none
collect (suc fuel) it = elim (next it) [
  | none ↦ some []
  | some (block, it') ↦ prepend block (collect fuel it')
]

-- `content.split("\n\n")`, as both parsers call it on the normalised text.
unfoldable pub push_front : ℕ → List Text → List Text
push_front c [] = (c ∷ []) ∷ []
push_front c (p ∷ ps) = (c ∷ p) ∷ ps

unfoldable pub split_blank : Text → List Text
split_blank [] = [] ∷ []
split_blank (c ∷ []) = (c ∷ []) ∷ []
split_blank (c ∷ d ∷ s) =
    let cut = [] ∷ split_blank s in
    let joined = push_front c (split_blank (d ∷ s)) in if c == lf && d == lf then cut else joined
