-- ===== src/Std/Decimal.antt =====
-- `parse` reads back what `to_string` writes.
use subx_core.Prelude.{
  ℕ, zero, suc, ◌+◌, ◌-◌, ◌*◌, ◌/◌, ◌%◌, ◌≤◌, ◌<◌, ◌≡◌, ◌≢◌, refl, [], ◌∷◌, some, Text, arith, ltb,
  Bool-cases, ◌∙◌, ◌++◌, replicate, inl, inr,
}
use subx_core.Std.{scan_digits, digits_from, parse_uint, print_digits, show_uint}

scan_digit :
    (max n d : ℕ) (out : Text)
    → d < 10
    → n * 10 + d ≤ max
    → scan_digits max ((b'0' + d) ∷ out) n ≡ scan_digits max out (n * 10 + d)
unfolding scan_digits
scan_digit max n d out h k = ground arith

scan-print :
    (max fuel n : ℕ) (out : Text)
    → n < fuel
    → n ≤ max
    → scan_digits max (print_digits fuel n out) 0 ≡ scan_digits max out n
unfolding print_digits
scan-print max zero n out h k = absurd (omega arith)
scan-print max (suc fuel) n out h k = ground (
  arith,
  scan_digit max 0 n out,
  scan-print max fuel (n / 10) ((b'0' + n % 10) ∷ out),
  scan_digit max (n / 10) (n % 10) out,
)

IsNumber : Text → Type 0
IsNumber [] = ⊥
IsNumber (c ∷ s) = c ≢ b'+'

print-IsNumber : (fuel n : ℕ) (out : Text) → n < fuel → IsNumber (print_digits fuel n out)
unfolding print_digits IsNumber
print-IsNumber zero n out h = absurd (omega arith)
print-IsNumber (suc fuel) n out h = elim (Bool-cases (ltb n 10)) [
  | inl e ↦ rw e (omega arith)
  | inr e ↦ rw e (print-IsNumber fuel (n / 10) ((b'0' + n % 10) ∷ out) (ground arith))
]

parse-scan : (max : ℕ) (s : Text) → IsNumber s → parse_uint max s ≡ scan_digits max s 0
unfolding IsNumber parse_uint digits_from
parse-scan max [] h = absurd h
parse-scan max (c ∷ s) h = ground arith

-- Every value of the type is read back from its print.
pub parse_uint-show_uint : (max n : ℕ) → n ≤ max → parse_uint max (show_uint n) ≡ some n
unfolding show_uint
parse_uint-show_uint max n h =
    parse-scan max _ (print-IsNumber (suc n) n [] (omega arith))
    ∙ (scan-print max (suc n) n [] (omega arith) h ∙ unfold scan_digits in refl)

scan-le : (max : ℕ) (s : Text) (n m : ℕ) → n ≤ max → scan_digits max s n ≡ some m → m ≤ max
unfolding scan_digits
scan-le max [] n m h e = ground arith
scan-le max (c ∷ s) n m h e = ground (arith, scan-le max s (n * 10 + (c - b'0')) m)

-- What is read is a value of the type.
pub parse_uint-le : (max : ℕ) (s : Text) {n : ℕ} → parse_uint max s ≡ some n → n ≤ max
unfolding parse_uint digits_from
parse_uint-le max [] e = ground arith
parse_uint-le max (c ∷ []) {n} e = ground (arith, scan-le max (c ∷ []) 0 n)
parse_uint-le max (c ∷ d ∷ s) {n} e =
    ground (arith, scan-le max (c ∷ d ∷ s) 0 n, scan-le max (d ∷ s) 0 n)

scan-zeros :
    (max k : ℕ) (s : Text) → scan_digits max (replicate k b'0' ++ s) 0 ≡ scan_digits max s 0
unfolding scan_digits
scan-zeros max zero s = refl
scan-zeros max (suc k) s = ground (arith, scan-zeros max k s)

-- Zeros in front do not change what is read.
pub parse_uint-zeros :
    (max k n : ℕ) → n ≤ max → parse_uint max (replicate k b'0' ++ show_uint n) ≡ some n
unfolding IsNumber
parse_uint-zeros max zero n h = parse_uint-show_uint max n h
parse_uint-zeros max (suc k) n h =
    parse-scan max (replicate (suc k) b'0' ++ show_uint n) (omega arith)
    ∙ (scan-zeros max (suc k) (show_uint n)
        ∙ (unfold show_uint scan_digits in scan-print max (suc n) n [] (omega arith) h))

-- Different numbers have different prints.
pub show_uint-injective : (m n : ℕ) → show_uint m ≡ show_uint n → m ≡ n
show_uint-injective m n e = ground (
  arith,
  parse_uint-show_uint (m + n) m (omega arith),
  parse_uint-show_uint (m + n) n (omega arith),
  e,
)
