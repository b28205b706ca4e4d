-- ===== src/Config/Service/Laws.antt =====
-- The documented behaviour of the platform that writing and reading a value back relies on, and
-- the value that a written text has when it is parsed again.
use subx_core.Prelude.{
  ℕ, Bool, true, false, Option, none, some, Text, codes, ◌≡◌, ◌⊎◌, inl, inr, refl, sym, Bool-cases,
  =ᵗ-sound, =ᵗ-comm, arith, ok, ◌=ᵗ◌,
}
use subx_core.Std.{
  parse_uint, show_uint, contains, is_empty, is_whitespace, trim, trim_start, trim_end, ascii_lower,
  to_ascii_lowercase,
}
use subx_core.Std.Decimal.{parse_uint-show_uint, parse_uint-le}
use subx_core.Std.Trim.{trim-idempotent, to_ascii_lowercase-idempotent, trim-to_ascii_lowercase}
use subx_core.Config.Platform.{Platform, ShowReads}
use subx_core.Config.Types.{OverflowStrategy, block, drop_new, expand}
use subx_core.Config.Setter.{strategy_of}
use subx_core.Config.Values.{parse_bool, validate_enum, true_words, false_words}
use subx_core.Config.Field.{show_bool, normalize_ai_provider, debug_strategy}
use subx_core.Config.Checks.{strategies}

-- `f32`'s print of a parsed number is read as that number, and an ASCII word in lower case stays.
pub record PlatformLaws (p : Platform) : Type 0 where
  pub show_reads : (v : Text) (x : Platform.Float p) → p.parse_float v ≡ some x → ShowReads p x
  pub lower_true : p.to_lowercase (codes "true") ≡ codes "true"
  pub lower_false : p.to_lowercase (codes "false") ≡ codes "false"

pub reparse :
    (max : ℕ) (v : Text)
    → (parse_uint max v ≡ none)
      ⊎ ((n : ℕ) × (parse_uint max v ≡ some n) × (parse_uint max (show_uint n) ≡ some n))
reparse max v = shown (parse_uint max v) refl
  where
    shown :
        (o : Option ℕ)
        → parse_uint max v ≡ o
        → (parse_uint max v ≡ none)
          ⊎ ((n : ℕ) × (parse_uint max v ≡ some n) × (parse_uint max (show_uint n) ≡ some n))
    shown none e = inl e
    shown (some n) e = inr (n, e, parse_uint-show_uint max n (parse_uint-le max v e))

pub refloat :
    (p : Platform)
    → PlatformLaws p
    → (v : Text)
    → (p.parse_float v ≡ none)
      ⊎ ((x : Platform.Float p) × (p.parse_float v ≡ some x)
          × (p.parse_float (p.show_float x) ≡ some x))
refloat p laws v = shown (p.parse_float v) refl
  where
    shown :
        (o : Option (Platform.Float p))
        → p.parse_float v ≡ o
        → (p.parse_float v ≡ none)
          ⊎ ((x : Platform.Float p) × (p.parse_float v ≡ some x)
              × (p.parse_float (p.show_float x) ≡ some x))
    shown none e = inl e
    shown (some x) e = inr (x, e, laws.show_reads v x e)

pub parse_bool-show_bool :
    (p : Platform) → PlatformLaws p → (b : Bool) → parse_bool p (show_bool b) ≡ ok b
unfolding parse_bool show_bool true_words false_words contains ◌=ᵗ◌
parse_bool-show_bool p laws true = rw laws.lower_true refl
parse_bool-show_bool p laws false = rw laws.lower_false refl

local-canonical : normalize_ai_provider (codes "local") ≡ codes "local"
unfolding normalize_ai_provider trim trim_start trim_end is_empty is_whitespace to_ascii_lowercase
    ascii_lower ◌=ᵗ◌
local-canonical = refl

canonical :
    (v : Text)
    → to_ascii_lowercase (trim (to_ascii_lowercase (trim v))) ≡ to_ascii_lowercase (trim v)
canonical v =
    rw (trim-to_ascii_lowercase (trim v), trim-idempotent v)
      (to_ascii_lowercase-idempotent (trim v))

plain-canonical :
    (t : Text)
    → to_ascii_lowercase (trim t) ≡ t
    → (t =ᵗ codes "ollama") ≡ false
    → normalize_ai_provider t ≡ t
unfolding normalize_ai_provider
plain-canonical t e h = rw (e, h)

ollama-canonical :
    (v : Text)
    → (to_ascii_lowercase (trim v) =ᵗ codes "ollama") ≡ true
    → normalize_ai_provider v ≡ codes "local"
unfolding normalize_ai_provider
ollama-canonical v e = rw e

other-canonical :
    (v : Text)
    → (to_ascii_lowercase (trim v) =ᵗ codes "ollama") ≡ false
    → normalize_ai_provider v ≡ to_ascii_lowercase (trim v)
unfolding normalize_ai_provider
other-canonical v e = rw e

-- Normalising the name of a provider a second time changes nothing.
pub normalize_ai_provider-idempotent :
    (v : Text) → normalize_ai_provider (normalize_ai_provider v) ≡ normalize_ai_provider v
normalize_ai_provider-idempotent v =
    elim (Bool-cases (to_ascii_lowercase (trim v) =ᵗ codes "ollama")) [
      | inl e ↦ rw (ollama-canonical v e) local-canonical
      | inr e ↦ rw (other-canonical v e) (plain-canonical _ (canonical v) e)
    ]

-- The strategies that the field validator allows are those that the setter knows, under their names.
pub strategy_text :
    (v : Text)
    → validate_enum v strategies ≡ ok tt
    → (s : OverflowStrategy) × (strategy_of v ≡ ok s) × (debug_strategy s ≡ v)
unfolding validate_enum contains strategy_of debug_strategy
strategy_text v h = elim (Bool-cases (v =ᵗ codes "Block")) [
  | inl e ↦ (block, rw (e, strategy_of), sym (=ᵗ-sound v _ e))
  | inr no_block ↦ elim (Bool-cases (v =ᵗ codes "Drop")) [
    | inl e ↦ (drop_new, ground arith, sym (=ᵗ-sound v _ e))
    | inr no_drop ↦ elim (Bool-cases (v =ᵗ codes "Expand")) [
      | inl e ↦ (expand, ground arith, sym (=ᵗ-sound v _ e))
      | inr no_expand ↦ absurd (
          ground (
            arith,
            =ᵗ-comm (codes "Block") v,
            =ᵗ-comm (codes "Drop") v,
            =ᵗ-comm (codes "Expand") v,
          ))
    ]
  ]
]
