-- ===== src/Formats/LineEndings/Tests.antt =====
-- Runs of src/core/formats/line_endings.rs on concrete buffers.
use subx_core.Prelude.{◌≡◌, refl, some, [], ◌∷◌, codes, length, List, Text, map, ◌+◌}
use subx_core.Formats.LineEndings.Blocks.{raw_blocks-split_blank}
use subx_core.Formats.LineEndings.{
  normalize_line_endings, contains_cr, replace_cr, replace_crlf, raw_blocks, collect, next, scan,
  term_len_at, split_blank, push_front,
}

mixed_blocks :
    collect 9 (raw_blocks (codes "a\r\n\r\nb\r\rc\n"))
    ≡ some (codes "a" ∷ codes "b" ∷ codes "c\n" ∷ [])
unfolding collect next scan raw_blocks term_len_at
mixed_blocks = refl

mixed_normalized : normalize_line_endings (codes "a\r\n\r\nb\r\rc\n") ≡ codes "a\n\nb\n\nc\n"
unfolding normalize_line_endings contains_cr replace_cr replace_crlf
mixed_normalized = refl

mixed_split : split_blank (codes "a\n\nb\n\nc\n") ≡ codes "a" ∷ codes "b" ∷ codes "c\n" ∷ []
unfolding split_blank push_front
mixed_split = refl

abbrev mixed : Text
mixed = codes "a\r\n\r\nb\r\rc\n"

raw_blocks-split_blank_example :
    (blocks : List Text) × (collect (length mixed + 2) (raw_blocks mixed) ≡ some blocks)
    × (map normalize_line_endings blocks ≡ split_blank (normalize_line_endings mixed))
raw_blocks-split_blank_example = raw_blocks-split_blank mixed
