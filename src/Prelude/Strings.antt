-- ===== src/Prelude/Strings.antt =====
-- Texts as lists of code points, and the tests on them that the code makes through `str`.
use Prim.Native.Nat.{ℕ}
use Prim.Native.Char.{code}
use Prim.Native.String.{String}
use mathlib.Core.Path.{◌≡◌, refl}
use mathlib.Core.Bool.{Bool, true, false, ◌&&◌}
use mathlib.Core.List.{List, [], ◌∷◌}
use mathlib.Core.Logic.{◌↔◌}
use native.Mathlib.Omega.{arith}
use subx_core.Prelude.Tests.{◌==◌}

abbrev pub Text : Type 0
Text = List ℕ

-- The code points of a literal.
abbrev pub codes : String → Text
codes String.[] = []
codes (String.◌∷◌ c s) = code c ∷ codes s

-- `a == b` on strings.
infix 50 ◌=ᵗ◌
unfoldable pub ◌=ᵗ◌ : Text → Text → Bool
[] =ᵗ [] = true
[] =ᵗ (b ∷ t) = false
(a ∷ s) =ᵗ [] = false
(a ∷ s) =ᵗ (b ∷ t) = a == b && s =ᵗ t

pub =ᵗ-sound : (s t : Text) → (s =ᵗ t) ≡ true → s ≡ t
unfolding ◌=ᵗ◌
=ᵗ-sound [] [] h = refl
=ᵗ-sound [] (b ∷ t) h = ground arith
=ᵗ-sound (a ∷ s) [] h = ground arith
=ᵗ-sound (a ∷ s) (b ∷ t) h = ground (arith, =ᵗ-sound s t)

pub =ᵗ-refl : (s : Text) → (s =ᵗ s) ≡ true
unfolding ◌=ᵗ◌
=ᵗ-refl [] = refl
=ᵗ-refl (a ∷ s) = ground (arith, =ᵗ-refl s)

pub =ᵗ_iff : (s t : Text) → ((s =ᵗ t) ≡ true) ↔ (s ≡ t)
=ᵗ_iff s t = (=ᵗ-sound s t, λ e. subst' e)
  where
    subst' : s ≡ t → (s =ᵗ t) ≡ true
    subst' e = rw (← e) (=ᵗ-refl s)

pub =ᵗ-comm : (s t : Text) → (s =ᵗ t) ≡ (t =ᵗ s)
unfolding ◌=ᵗ◌
=ᵗ-comm [] [] = refl
=ᵗ-comm [] (b ∷ t) = refl
=ᵗ-comm (a ∷ s) [] = refl
=ᵗ-comm (a ∷ s) (b ∷ t) = ground (arith, =ᵗ-comm s t)
