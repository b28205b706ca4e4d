-- ===== src/Matcher/Names.antt =====
-- src/core/matcher/engine.rs: the parts of a file's name.
use subx_core.Prelude.{
  ℕ, ◌+◌, ◌%◌, ◌^◌, max, Bool, true, not, ◌&&◌, ◌||◌, [], ◌∷◌, ◌++◌, Option, none, some, Text, ltb,
  leb, ◌==◌, if◌then◌else◌,
}
use subx_core.Std.{is_empty, parse_uint, max_u32, show_uint}

unfoldable pub all : (ℕ → Bool) → Text → Bool
all f [] = true
all f (c ∷ s) = f c && all f s

unfoldable pub is_ascii_digit : ℕ → Bool
is_ascii_digit c = leb b'0' c && leb c b'9'

unfoldable pub is_suffix_char : ℕ → Bool
unfolding is_ascii_digit
is_suffix_char c =
    (leb b'a' c && leb c b'z')
    || (leb b'A' c && leb c b'Z')
    || is_ascii_digit c
    || c == b'_'
    || c == b'-'

-- The bytes of `char::len_utf8`, and of `str::len`.
unfoldable pub len_utf8 : ℕ → ℕ
len_utf8 c = if ltb c 0x80 then 1 else if ltb c 0x800 then 2 else if ltb c 0x10000 then 3 else 4

unfoldable pub len : Text → ℕ
len [] = 0
len (c ∷ s) = len_utf8 c + len s

unfoldable pub sanitize_suffix : Text → Option Text
sanitize_suffix raw =
    if is_empty raw || ltb 16 (len raw)
    then none
    else if all is_suffix_char raw
    then some raw
    else none

-- `rfind('.')`: what stands before the last dot, and what after it.
unfoldable pub rsplit_dot : Text → Option (Text × Text)
rsplit_dot [] = none
rsplit_dot (c ∷ s) = elim (rsplit_dot s) [
  | none ↦ if c == b'.' then some ([], s) else none
  | some (head, tail) ↦ some (c ∷ head, tail)
]

-- (stem, ".ext"); a dot in front of the name does not count.
unfoldable pub split_filename : Text → Text × Text
split_filename name = elim (rsplit_dot name) [
  | none ↦ (name, [])
  | some (head, tail) ↦ if is_empty head then (name, []) else (head, b'.' ∷ tail)
]

unfoldable pub split_numeric_tail : Text → Text × Option ℕ
split_numeric_tail stem = elim (rsplit_dot stem) [
  | none ↦ (stem, none)
  | some (head, tail) ↦
      if not (is_empty tail) && all is_ascii_digit tail
      then elim (parse_uint max_u32 tail) [ none ↦ (stem, none) | some n ↦ (head, some n) ]
      else (stem, none)
]

-- The first counter that is tried; `n + 1` wraps in a release build.
unfoldable pub start_counter : Option ℕ → ℕ
start_counter none = 2
start_counter (some n) = max ((n + 1) % 2 ^ 32) 2

-- `format!("{}.{}{}", base_stem, counter, ext)`
unfoldable pub probe_name : Text → Text → ℕ → Text
probe_name base ext counter = base ++ b'.' ∷ show_uint counter ++ ext
