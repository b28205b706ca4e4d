-- ===== src/Matcher/Naming/Safe.antt =====
-- src/core/matcher/engine.rs: what the answer of the AI can put into a name.
use subx_core.Prelude.{
  ℕ, ◌≡◌, refl, ap, Bool, true, false, ◌&&◌, not, List, [], ◌∷◌, ◌++◌, Option, none, some, Text,
  ◌==◌, arith, Bool-cases, Option-cases, ◌⊎◌, inl, inr, ==_iff,
}
use subx_core.Std.{trim, to_ascii_lowercase}
use subx_core.Language.{Detector, language_codes, normalize}
use subx_core.Language.Codes.{AllValues, get_primary_language-AllValues}
use subx_core.Matcher.Types.{MediaFile, FileMatch}
use subx_core.Matcher.Names.{all, is_ascii_digit, is_suffix_char, sanitize_suffix}
use subx_core.Matcher.Naming.{
  strip_suffix, or_else, and_then, normalize_ai_language, video_base_name, language_tag, tagged,
  generate_subtitle_name,
}

all_values : (Text → Bool) → List (Text × Text) → Bool
all_values P [] = true
all_values P ((k, v) ∷ rest) = P v && all_values P rest

all_values-AllValues :
    (P : Text → Bool) (table : List (Text × Text)) → all_values P table ≡ true → AllValues P table
unfolding AllValues all_values
all_values-AllValues P [] h = tt
all_values-AllValues P ((k, v) ∷ rest) h =
    (ground (arith, h), all_values-AllValues P rest (ground (arith, h)))

table-AllValues : AllValues (all is_suffix_char) language_codes
unfolding all_values language_codes all is_suffix_char is_ascii_digit
table-AllValues = all_values-AllValues (all is_suffix_char) language_codes refl

sanitize_suffix-all :
    (raw code : Text) → sanitize_suffix raw ≡ some code → all is_suffix_char code ≡ true
unfolding sanitize_suffix
sanitize_suffix-all raw code h = ground (arith, h)

and_then-all :
    (o : Option Text) (f : Text → Option Text) (code : Text)
    → ((raw out : Text) → f raw ≡ some out → all is_suffix_char out ≡ true)
    → and_then o f ≡ some code
    → all is_suffix_char code ≡ true
unfolding and_then
and_then-all none f code h e = ground (arith, e)
and_then-all (some raw) f code h e = h raw code e

normalize_ai_language-all :
    (d : Detector) (raw code : Text)
    → normalize_ai_language d raw ≡ some code
    → all is_suffix_char code ≡ true
unfolding normalize_ai_language
normalize_ai_language-all d raw code h = ground (
  arith,
  h,
  and_then-all (normalize d (to_ascii_lowercase (trim raw))) sanitize_suffix code
      sanitize_suffix-all,
)

or_else-cases :
    (a b : Option Text) (code : Text) → or_else a b ≡ some code → (a ≡ some code) ⊎ (b ≡ some code)
unfolding or_else
or_else-cases none b code h = inr h
or_else-cases (some a) b code h = inl h

module _ {F : Type 0} where
  language_tag-all :
      (d : Detector) (subtitle : MediaFile) (m : FileMatch F) (code : Text)
      → language_tag d subtitle m ≡ some code
      → all is_suffix_char code ≡ true
  unfolding language_tag
  language_tag-all d subtitle m code h = elim (or_else-cases _ _ code h) [
    | inl ai ↦ elim (or_else-cases _ _ code ai) [
      | inl e ↦ and_then-all m.target_filename_suffix sanitize_suffix code sanitize_suffix-all e
      | inr e ↦
          and_then-all m.language (normalize_ai_language d) code (normalize_ai_language-all d) e
    ]
    | inr e ↦
        get_primary_language-AllValues d (all is_suffix_char) table-AllValues subtitle.path.parent
          subtitle.path.file_name code e
  ]

-- The text is free of the character `s`.
unfoldable pub is_free : ℕ → Text → Bool
is_free s = all (λ c. not (c == s))

is_free-append :
    (s : ℕ) (xs ys : Text) → is_free s xs ≡ true → is_free s ys ≡ true → is_free s (xs ++ ys) ≡ true
unfolding is_free all
is_free-append s [] ys h k = k
is_free-append s (x ∷ xs) ys h k = ground (arith, h, is_free-append s xs ys, k)

suffix_char-differs :
    (c s : ℕ) → is_suffix_char s ≡ false → is_suffix_char c ≡ true → (c == s) ≡ false
suffix_char-differs c s h e = elim (Bool-cases (c == s)) [
  | inr f ↦ f
  | inl f ↦ absurd (ground (arith, h, e, ap is_suffix_char ((==_iff c s).0 f)))
]

is_free-suffix :
    (s : ℕ) (code : Text)
    → is_suffix_char s ≡ false
    → all is_suffix_char code ≡ true
    → is_free s code ≡ true
unfolding is_free all
is_free-suffix s [] h k = refl
is_free-suffix s (c ∷ code) h k =
    ground (arith, h, k, is_free-suffix s code h, suffix_char-differs c s h)

strip_suffix-free :
    (s : ℕ) (name suffix base : Text)
    → is_free s name ≡ true
    → strip_suffix name suffix ≡ some base
    → is_free s base ≡ true
unfolding strip_suffix is_free all
strip_suffix-free s [] suffix base h e = ground (arith, e)
strip_suffix-free s (c ∷ name) suffix base h e = elim (Option-cases (strip_suffix name suffix)) [
  | inl f ↦ ground (arith, h, e, f)
  | inr (b, f) ↦ ground (arith, h, e, f, strip_suffix-free s name suffix b)
]

video_base_name-free :
    (s : ℕ) (video : MediaFile)
    → is_free s video.name ≡ true
    → is_free s (video_base_name video) ≡ true
unfolding video_base_name
video_base_name-free s video h =
    elim (Option-cases (strip_suffix video.name (b'.' ∷ video.extension))) [
      | inl f ↦ ground (arith, h, f)
      | inr (b, f) ↦
          ground (arith, h, f, strip_suffix-free s video.name (b'.' ∷ video.extension) b h f)
    ]

dotted :
    (s : ℕ) (rest : Text)
    → (b'.' == s) ≡ false
    → is_free s rest ≡ true
    → is_free s (b'.' ∷ rest) ≡ true
unfolding is_free all
dotted s rest h k = ground (arith, h, k)

tagged-free :
    (s : ℕ) (base extension : Text) (tag : Option Text)
    → (b'.' == s) ≡ false
    → is_free s base ≡ true
    → is_free s extension ≡ true
    → ((code : Text) → tag ≡ some code → is_free s code ≡ true)
    → is_free s (tagged base extension tag) ≡ true
unfolding tagged
tagged-free s base extension none dot h k t =
    is_free-append s base (b'.' ∷ extension) h (dotted s extension dot k)
tagged-free s base extension (some code) dot h k t =
    is_free-append s (base ++ b'.' ∷ code) (b'.' ∷ extension)
      (is_free-append s base (b'.' ∷ code) h (dotted s code dot (t code refl)))
      (dotted s extension dot k)

-- No character but letters, digits, `_`, `-` and `.` comes into the new name from the AI or from the
-- language: one that neither the video's name nor the subtitle's extension has is not in it.
pub generate_subtitle_name-free :
    {F : Type 0} (d : Detector) (video subtitle : MediaFile) (m : FileMatch F) (s : ℕ)
    → is_suffix_char s ≡ false
    → (b'.' == s) ≡ false
    → is_free s video.name ≡ true
    → is_free s subtitle.extension ≡ true
    → is_free s (generate_subtitle_name d video subtitle m) ≡ true
unfolding generate_subtitle_name
generate_subtitle_name-free d video subtitle m s h dot name ext =
    tagged-free s (video_base_name video) subtitle.extension (language_tag d subtitle m) dot
      (video_base_name-free s video name) ext
      (λ code e. is_free-suffix s code h (language_tag-all d subtitle m code e))
