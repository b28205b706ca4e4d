-- ===== src/Std.antt =====
-- What the code uses of Rust's standard library on strings and unsigned numbers: `trim`,
-- `to_ascii_lowercase`, `starts_with`, `contains` on slices, `parse` and `to_string`.
pub mod Trim
pub mod Decimal
use subx_core.Prelude.{
  ℕ, zero, suc, ◌+◌, ◌-◌, ◌*◌, ◌/◌, ◌%◌, ◌^◌, Bool, true, false, ◌&&◌, ◌||◌, List, [], ◌∷◌, map,
  Option, none, some, Text, ltb, leb, ◌==◌, if◌then◌else◌, ◌=ᵗ◌,
}

-- `char::is_whitespace`
unfoldable pub is_whitespace : ℕ → Bool
is_whitespace c =
    (leb 9 c && leb c 13)
    || c == 32
    || c == 0x85
    || c == 0xA0
    || c == 0x1680
    || (leb 0x2000 c && leb c 0x200A)
    || c == 0x2028
    || c == 0x2029
    || c == 0x202F
    || c == 0x205F
    || c == 0x3000

unfoldable pub is_empty {ℓ} : {A : Type ℓ} → List A → Bool
is_empty [] = true
is_empty (x ∷ xs) = false

unfoldable pub trim_start : Text → Text
trim_start [] = []
trim_start (c ∷ s) = let rest = trim_start s in if is_whitespace c then rest else c ∷ s

unfoldable pub trim_end : Text → Text
trim_end [] = []
trim_end (c ∷ s) =
    let rest = trim_end s in if is_whitespace c && is_empty rest then [] else c ∷ rest

unfoldable pub trim : Text → Text
trim s = trim_end (trim_start s)

unfoldable pub ascii_lower : ℕ → ℕ
ascii_lower c = if leb b'A' c && leb c b'Z' then c + 32 else c

unfoldable pub to_ascii_lowercase : Text → Text
to_ascii_lowercase = map ascii_lower

unfoldable pub starts_with : Text → Text → Bool
starts_with s [] = true
starts_with [] (p ∷ ps) = false
starts_with (c ∷ s) (p ∷ ps) = c == p && starts_with s ps

-- `allowed.contains(&value)`
unfoldable pub contains : List Text → Text → Bool
contains [] value = false
contains (a ∷ rest) value = a =ᵗ value || contains rest value

-- The digits of an unsigned `parse`, with the overflow check of each step.
unfoldable pub scan_digits : ℕ → Text → ℕ → Option ℕ
scan_digits max [] n = some n
scan_digits max (c ∷ s) n =
    let m = n * 10 + (c - b'0') in
    let rest = scan_digits max s m in
    if ltb c b'0' || ltb b'9' c then none else if ltb max m then none else rest

unfoldable pub digits_from : ℕ → Text → Option ℕ
digits_from max [] = none
digits_from max (c ∷ s) = scan_digits max (c ∷ s) 0

-- `value.parse::<uN>()`, where `max` is the greatest value of the type; one `+` may stand in front.
unfoldable pub parse_uint : ℕ → Text → Option ℕ
parse_uint max [] = none
parse_uint max (c ∷ s) = if c == b'+' then digits_from max s else digits_from max (c ∷ s)

abbrev pub max_u32 : ℕ
max_u32 = 2 ^ 32 - 1

abbrev pub max_u64 : ℕ
max_u64 = 2 ^ 64 - 1

-- The decimal print, a digit for each round; `suc n` rounds are enough for `n`.
unfoldable pub print_digits : ℕ → ℕ → Text → Text
print_digits zero n out = out
print_digits (suc fuel) n out =
    let rest = print_digits fuel (n / 10) ((b'0' + n % 10) ∷ out) in
    if ltb n 10 then (b'0' + n) ∷ out else rest

unfoldable pub show_uint : ℕ → Text
show_uint n = print_digits (suc n) n []
