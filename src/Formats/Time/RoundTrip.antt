-- ===== src/Formats/Time/RoundTrip.antt =====
-- Reading back the printed time stamps of src/core/formats.
use subx_core.Prelude.{
  ℕ, zero, suc, ◌+◌, ◌-◌, ◌*◌, ◌/◌, ◌%◌, ◌≤◌, ◌<◌, ◌≡◌, refl, ap, arith, Bool, true, [], ◌∷◌, some,
  ok, or_err, le→leb, lt→ltb, ==_iff, Bool-cases, inl, inr, ltb,
}
use subx_core.Std.{show_uint, print_digits, max_u64}
use subx_core.Std.Decimal.{parse_uint-show_uint, parse_uint-zeros}
use subx_core.Formats.Time.{
  TimeError, padded, clock_fields, join_clock, format_clock, clock_groups, read_clock, ass_fields,
  parse_field, parse_time, checked, parse_ass_time,
}

parse_field-padded : (w n : ℕ) → n ≤ max_u64 → parse_field (padded w n) ≡ ok n
unfolding parse_field padded
parse_field-padded w n h = ap (λ o. or_err o TimeError.bad_number) (parse_uint-zeros max_u64 _ n h)

parse_field-show_uint : (n : ℕ) → n ≤ max_u64 → parse_field (show_uint n) ≡ ok n
unfolding parse_field
parse_field-show_uint n h =
    ap (λ o. or_err o TimeError.bad_number) (parse_uint-show_uint max_u64 n h)

one_digit : (n : ℕ) → n < 10 → show_uint n ≡ (b'0' + n) ∷ []
unfolding show_uint print_digits
one_digit n h = rw (lt→ltb n 10 h) refl

two_digits :
    (fuel n : ℕ)
    → n < 100
    → 10 ≤ n
    → print_digits (suc (suc fuel)) n [] ≡ (b'0' + n / 10) ∷ (b'0' + n % 10) ∷ []
unfolding print_digits
two_digits fuel n h k = ground (arith, h, k)

three_digits :
    (fuel n : ℕ)
    → n < 1000
    → 100 ≤ n
    → print_digits (suc (suc (suc fuel))) n []
      ≡ (b'0' + n / 100) ∷ (b'0' + n / 10 % 10) ∷ (b'0' + n % 10) ∷ []
unfolding print_digits
three_digits fuel n h k = ground (arith, h, k)

show-two : (n : ℕ) → n < 100 → 10 ≤ n → show_uint n ≡ (b'0' + n / 10) ∷ (b'0' + n % 10) ∷ []
unfolding show_uint
show-two zero h k = absurd (omega arith)
show-two (suc m) h k = two_digits m (suc m) h k

show-three :
    (n : ℕ)
    → n < 1000
    → 100 ≤ n
    → show_uint n ≡ (b'0' + n / 100) ∷ (b'0' + n / 10 % 10) ∷ (b'0' + n % 10) ∷ []
unfolding show_uint
show-three zero h k = absurd (omega arith)
show-three (suc zero) h k = absurd (omega arith)
show-three (suc (suc m)) h k = three_digits m (suc (suc m)) h k

padded-two : (n : ℕ) → n < 100 → padded 2 n ≡ (b'0' + n / 10) ∷ (b'0' + n % 10) ∷ []
unfolding padded
padded-two n h = elim (Bool-cases (ltb n 10)) [
  | inl c ↦ rw (one_digit n (ground (arith, c))) (ground (arith, c))
  | inr c ↦ rw (show-two n h (ground (arith, c))) refl
]

padded-three :
    (n : ℕ) → n < 1000 → padded 3 n ≡ (b'0' + n / 100) ∷ (b'0' + n / 10 % 10) ∷ (b'0' + n % 10) ∷ []
unfolding padded
padded-three n h = elim (Bool-cases (ltb n 10)) [
  | inl c ↦ rw (one_digit n (ground (arith, c))) (ground (arith, c))
  | inr c ↦ elim (Bool-cases (ltb n 100)) [
    | inl d ↦ rw (show-two n (ground (arith, d)) (ground (arith, c))) (ground (arith, c, d))
    | inr d ↦ rw (show-three n h (ground (arith, d))) refl
  ]
]

-- The text of four fields of ten digits, whose digits the pattern takes, gives the four fields.
matched :
    (digit : ℕ → Bool) (point a b c d e f x y z : ℕ)
    → digit a ≡ true
    → digit b ≡ true
    → digit c ≡ true
    → digit d ≡ true
    → digit e ≡ true
    → digit f ≡ true
    → digit x ≡ true
    → digit y ≡ true
    → digit z ≡ true
    → clock_groups digit point
        (join_clock point ((a ∷ b ∷ []) ∷ (c ∷ d ∷ []) ∷ (e ∷ f ∷ []) ∷ (x ∷ y ∷ z ∷ []) ∷ []))
      ≡ some ((a ∷ b ∷ []) ∷ (c ∷ d ∷ []) ∷ (e ∷ f ∷ []) ∷ (x ∷ y ∷ z ∷ []) ∷ [])
unfolding clock_groups join_clock
matched digit point a b c d e f x y z ha hb hc hd he hf hx hy hz =
    rw (ha, hb, hc, hd, he, hf, (==_iff point point).1 refl, hx, hy, hz) refl

parsed_fields :
    (total_ms : ℕ) → total_ms ≤ max_u64 → parse_time (clock_fields total_ms) ≡ ok total_ms
unfolding parse_time clock_fields
parsed_fields t h =
    rw
      (
        parse_field-padded 2 (t / 3600000) (omega arith),
        parse_field-padded 2 (t % 3600000 / 60000) (omega arith),
        parse_field-padded 2 (t % 60000 / 1000) (omega arith),
        parse_field-padded 3 (t % 1000) (omega arith),
      )
      (ap ok (omega arith))

module _ (digit : ℕ → Bool) (digits : (d : ℕ) → d < 10 → digit (b'0' + d) ≡ true) where
  groups-printed :
      (point t : ℕ)
      → t < 360000000
      → clock_groups digit point (join_clock point (clock_fields t)) ≡ some (clock_fields t)
  unfolding clock_fields
  groups-printed point t h =
      rw
        (
          padded-two (t / 3600000) (omega arith),
          padded-two (t % 3600000 / 60000) (omega arith),
          padded-two (t % 60000 / 1000) (omega arith),
          padded-three (t % 1000) (omega arith),
        )
        (matched digit point _ _ _ _ _ _ _ _ _ (digits _ (omega arith)) (digits _ (omega arith))
          (digits _ (omega arith)) (digits _ (omega arith)) (digits _ (omega arith))
          (digits _ (omega arith)) (digits _ (omega arith)) (digits _ (omega arith))
          (digits _ (omega arith)))

  -- Where the ten ASCII digits match the pattern, a duration below 100 hours is read back from its
  -- printed SRT or WebVTT stamp: the pattern takes its four fields, and they parse to the duration.
  pub read_clock-format_clock :
      (point total_ms : ℕ)
      → total_ms < 360000000
      → read_clock digit point (format_clock point total_ms) ≡ some (ok total_ms)
  unfolding read_clock format_clock
  read_clock-format_clock point t h =
      rw (read_clock, groups-printed point t h) (ap some (parsed_fields t (omega arith)))

checked-le : (n : ℕ) → n ≤ max_u64 → checked n ≡ ok n
unfolding checked
checked-le n h = rw (le→leb n max_u64 h)

-- The ASS fields of a duration of at most `u64::MAX` milliseconds are read back as that duration
-- without its last millisecond digit; no checked operation fails.
pub parse_ass_time-ass_fields :
    (total_ms : ℕ)
    → total_ms ≤ max_u64
    → parse_ass_time (ass_fields total_ms) ≡ ok (total_ms - total_ms % 10)
unfolding parse_ass_time ass_fields
parse_ass_time-ass_fields t h =
    rw
      (
        parse_field-show_uint (t / 3600000) (omega arith),
        parse_field-padded 2 (t % 3600000 / 60000) (omega arith),
        parse_field-padded 2 (t % 60000 / 1000) (omega arith),
        parse_field-padded 2 (t % 1000 / 10) (omega arith),
        checked-le (t / 3600000 * 3600000) (omega arith),
        checked-le (t % 3600000 / 60000 * 60000) (omega arith),
        checked-le (t / 3600000 * 3600000 + t % 3600000 / 60000 * 60000) (omega arith),
        checked-le (t % 60000 / 1000 * 1000) (omega arith),
        checked-le (t / 3600000 * 3600000 + t % 3600000 / 60000 * 60000 + t % 60000 / 1000 * 1000)
            (omega arith),
        checked-le (t % 1000 / 10 * 10) (omega arith),
        checked-le
            (t / 3600000 * 3600000
              + t % 3600000 / 60000 * 60000
              + t % 60000 / 1000 * 1000
              + t % 1000 / 10 * 10)
            (omega arith),
      )
      (ap ok (omega arith))
