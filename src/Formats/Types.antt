-- ===== src/Formats/Types.antt =====
-- src/core/formats/types.rs: the entries of a subtitle. A duration is its number of nanoseconds. The
-- styling of an entry is left out, which no operation here reads or writes.
use subx_core.Prelude.{ℕ, ◌-◌, ◌*◌, ◌^◌, Bool, false, ◌||◌, List, [], ◌∷◌, Text, ltb}

pub record SubtitleEntry : Type 0 where
  pub index : ℕ
  pub start_time : ℕ
  pub end_time : ℕ
  pub text : Text

-- `Duration::MAX`: all seconds of a `u64`, and the nanoseconds of one more but one.
abbrev pub max_duration : ℕ
max_duration = 2 ^ 64 * 1000000000 - 1

unfoldable pub is_valid_timing : SubtitleEntry → Bool
is_valid_timing e = ltb e.start_time e.end_time

-- `entries.windows(2)`
unfoldable pub has_overlaps : List SubtitleEntry → Bool
has_overlaps [] = false
has_overlaps (e ∷ []) = false
has_overlaps (e ∷ f ∷ rest) = ltb f.start_time e.end_time || has_overlaps (f ∷ rest)
