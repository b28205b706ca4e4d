-- ===== src/Formats/Time.antt =====
-- The time stamps of src/core/formats: srt/time.rs, vtt/time.rs and ass/time.rs. A duration is its
-- number of milliseconds. A stamp is the list of its four fields, as the capture groups or the split
-- give them.
pub mod RoundTrip
pub mod Tests
use subx_core.Prelude.{
  ℕ, ◌+◌, ◌-◌, ◌*◌, ◌/◌, ◌%◌, ◌^◌, List, [], ◌∷◌, ◌++◌, Option, none, some, Text, Bool, ◌&&◌, ◌==◌,
  leb, if◌then◌else◌, length, replicate, Result, ok, err, ◌>>=◌, or_err,
}
use subx_core.Std.{parse_uint, show_uint, max_u64}

pub data TimeError : Type 0 where
  bad_number wrong_fields overflow : TimeError

-- `{:0w}`
unfoldable pub padded : ℕ → ℕ → Text
padded w n = replicate (w - length (show_uint n)) b'0' ++ show_uint n

-- The fields that `format_duration` and `format_vtt_time` print.
unfoldable pub clock_fields : ℕ → List Text
unfolding padded
clock_fields total_ms =
    padded 2 (total_ms / 3600000)
    ∷ padded 2 (total_ms % 3600000 / 60000)
    ∷ padded 2 (total_ms % 60000 / 1000)
    ∷ padded 3 (total_ms % 1000)
    ∷ []

unfoldable pub ass_fields : ℕ → List Text
unfolding padded
ass_fields total_ms =
    show_uint (total_ms / 3600000)
    ∷ padded 2 (total_ms % 3600000 / 60000)
    ∷ padded 2 (total_ms % 60000 / 1000)
    ∷ padded 2 (total_ms % 1000 / 10)
    ∷ []

-- `format_duration`, with its comma, and `format_vtt_time`, with its point.
unfoldable pub join_clock : ℕ → List Text → Text
join_clock point (h ∷ m ∷ s ∷ ms ∷ []) = h ++ b':' ∷ m ++ b':' ∷ s ++ point ∷ ms
join_clock point fields = []

unfoldable pub format_clock : ℕ → ℕ → Text
unfolding clock_fields join_clock
format_clock point total_ms = join_clock point (clock_fields total_ms)

unfoldable pub parse_field : Text → Result TimeError ℕ
parse_field text = or_err (parse_uint max_u64 text) bad_number

-- The four groups of the patterns of the parsers at the start of a text, two digits three times and
-- then three: `(\d{2}):(\d{2}):(\d{2}),(\d{3})`, or with a point. `digit` is `\d` of the regex crate.
unfoldable pub clock_groups : (ℕ → Bool) → ℕ → Text → Option (List Text)
clock_groups digit point (a ∷ b ∷ c1 ∷ c ∷ d ∷ c2 ∷ e ∷ f ∷ p ∷ x ∷ y ∷ z ∷ rest) =
    if digit a
      && digit b
      && c1 == b':'
      && digit c
      && digit d
      && c2 == b':'
      && digit e
      && digit f
      && p == point
      && digit x
      && digit y
      && digit z
    then some ((a ∷ b ∷ []) ∷ (c ∷ d ∷ []) ∷ (e ∷ f ∷ []) ∷ (x ∷ y ∷ z ∷ []) ∷ [])
    else none
clock_groups digit point _ = none

-- `parse_time` and `parse_vtt_time` on the four groups; the arithmetic wraps around at 64 bits in a release build.
unfoldable pub parse_time : List Text → Result TimeError ℕ
unfolding parse_field
parse_time (h ∷ m ∷ s ∷ ms ∷ []) = do
  hours ← parse_field h
  minutes ← parse_field m
  seconds ← parse_field s
  milliseconds ← parse_field ms
  ok ((hours * 3600000 + minutes * 60000 + seconds * 1000 + milliseconds) % 2 ^ 64)
parse_time fields = err wrong_fields

-- A stamp of a text, where the pattern matches.
unfoldable pub read_clock : (ℕ → Bool) → ℕ → Text → Option (Result TimeError ℕ)
unfolding clock_groups parse_time
read_clock digit point text = elim (clock_groups digit point text) [
  | none ↦ none
  | some groups ↦ some (parse_time groups)
]

unfoldable pub checked : ℕ → Result TimeError ℕ
checked n = if leb n max_u64 then ok n else err overflow

-- `parse_ass_time` after the split, in the order of its checked operations.
unfoldable pub parse_ass_time : List Text → Result TimeError ℕ
unfolding parse_field checked
parse_ass_time (h ∷ m ∷ s ∷ cs ∷ []) = do
  hours ← parse_field h
  minutes ← parse_field m
  seconds ← parse_field s
  centi ← parse_field cs
  a ← checked (hours * 3600000)
  b ← checked (minutes * 60000)
  c ← checked (a + b)
  d ← checked (seconds * 1000)
  e ← checked (c + d)
  f ← checked (centi * 10)
  checked (e + f)
parse_ass_time fields = err wrong_fields
