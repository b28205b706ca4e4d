-- ===== src/Formats/Time/Tests.antt =====
-- Time stamps of src/core/formats at one hour, two minutes, three seconds and 456 milliseconds.
use subx_core.Prelude.{ℕ, ◌-◌, ◌%◌, ◌≡◌, refl, arith, Bool, ◌&&◌, leb, some, none, ok, codes}
use subx_core.Std.{show_uint, print_digits}
use subx_core.Formats.Time.{
  padded, clock_fields, ass_fields, join_clock, format_clock, clock_groups, read_clock,
  parse_ass_time,
}
use subx_core.Formats.Time.RoundTrip.{read_clock-format_clock, parse_ass_time-ass_fields}

srt_stamp : format_clock b',' 3723456 ≡ codes "01:02:03,456"
unfolding format_clock join_clock clock_fields padded show_uint print_digits
srt_stamp = refl

abbrev ascii_digit : ℕ → Bool
ascii_digit c = leb b'0' c && leb c b'9'

read_clock-format_clock_example :
    read_clock ascii_digit b',' (format_clock b',' 3723456) ≡ some (ok 3723456)
read_clock-format_clock_example =
    read_clock-format_clock ascii_digit (λ d h. ground (arith, h)) b',' 3723456 (omega arith)

-- At 100 hours the stamp has three digits of hours, which the pattern does not take.
hundred_hours : clock_groups ascii_digit b',' (format_clock b',' 360000000) ≡ none
unfolding clock_groups format_clock join_clock clock_fields padded show_uint print_digits
hundred_hours = refl

parse_ass_time-ass_fields_example :
    parse_ass_time (ass_fields 3723456) ≡ ok (3723456 - 3723456 % 10)
parse_ass_time-ass_fields_example = parse_ass_time-ass_fields 3723456 (omega arith)
