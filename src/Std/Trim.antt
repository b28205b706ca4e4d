-- ===== src/Std/Trim.antt =====
-- Trimming and lower-casing: each may be repeated, and they commute.
use subx_core.Prelude.{ℕ, ◌≡◌, refl, [], ◌∷◌, map, Text, arith, ◌∙◌, ap}
use subx_core.Std.{
  is_whitespace, is_empty, trim_start, trim_end, trim, ascii_lower, to_ascii_lowercase,
}

trim_end-idempotent : (s : Text) → trim_end (trim_end s) ≡ trim_end s
unfolding trim_end is_empty
trim_end-idempotent [] = refl
trim_end-idempotent (c ∷ s) = ground (arith, trim_end-idempotent s)

trim_start-trim_end : (s : Text) → trim_start (trim_end (trim_start s)) ≡ trim_end (trim_start s)
unfolding trim_start trim_end is_empty
trim_start-trim_end [] = refl
trim_start-trim_end (c ∷ s) = ground (arith, trim_start-trim_end s)

pub trim-idempotent : (s : Text) → trim (trim s) ≡ trim s
unfolding trim
trim-idempotent s = ap trim_end (trim_start-trim_end s) ∙ trim_end-idempotent (trim_start s)

lower-whitespace : (c : ℕ) → is_whitespace (ascii_lower c) ≡ is_whitespace c
unfolding is_whitespace ascii_lower
lower-whitespace c = ground arith

lower-idempotent : (c : ℕ) → ascii_lower (ascii_lower c) ≡ ascii_lower c
unfolding ascii_lower
lower-idempotent c = ground arith

pub to_ascii_lowercase-idempotent :
    (s : Text) → to_ascii_lowercase (to_ascii_lowercase s) ≡ to_ascii_lowercase s
unfolding to_ascii_lowercase
to_ascii_lowercase-idempotent [] = refl
to_ascii_lowercase-idempotent (c ∷ s) = cc (lower-idempotent c, to_ascii_lowercase-idempotent s)

trim_start-lower : (s : Text) → trim_start (map ascii_lower s) ≡ map ascii_lower (trim_start s)
unfolding trim_start
trim_start-lower [] = refl
trim_start-lower (c ∷ s) = ground (arith, lower-whitespace c, trim_start-lower s)

is_empty-map : (s : Text) → is_empty (map ascii_lower s) ≡ is_empty s
unfolding is_empty
is_empty-map [] = refl
is_empty-map (c ∷ s) = refl

trim_end-lower : (s : Text) → trim_end (map ascii_lower s) ≡ map ascii_lower (trim_end s)
unfolding trim_end
trim_end-lower [] = refl
trim_end-lower (c ∷ s) =
    ground (arith, lower-whitespace c, trim_end-lower s, is_empty-map (trim_end s))

pub trim-to_ascii_lowercase : (s : Text) → trim (to_ascii_lowercase s) ≡ to_ascii_lowercase (trim s)
unfolding trim to_ascii_lowercase
trim-to_ascii_lowercase s = rw (trim_start-lower s) (trim_end-lower (trim_start s))
