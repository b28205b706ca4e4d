-- ===== src/Language/Codes.antt =====
-- src/core/language.rs: every code that detection returns is one of the table.
use subx_core.Prelude.{
  ◌≡◌, Bool, true, List, [], ◌∷◌, ◌++◌, Option, none, some, Text, ◌=ᵗ◌, arith, Option-cases, inl,
  inr,
}
use subx_core.Language.{
  LanguageInfo, language_codes, get, Detector, detect_from_directory, detect_from_filename, pushed,
  sort_dedup, detect_all_languages, get_primary_language,
}

-- `P` holds of every value of the table.
unfoldable pub AllValues : (Text → Bool) → List (Text × Text) → Type 0
AllValues P [] = Unit
AllValues P ((k, v) ∷ rest) = (P v ≡ true) × AllValues P rest

get-AllValues :
    (P : Text → Bool) (key code : Text) (table : List (Text × Text))
    → AllValues P table
    → get key table ≡ some code
    → P code ≡ true
unfolding get AllValues
get-AllValues P key code [] h e = ground arith
get-AllValues P key code ((k, v) ∷ rest) (h, hs) e =
    ground (arith, get-AllValues P key code rest hs, h)

-- A detection, if any, whose code satisfies `P`.
DetectsIn : (Text → Bool) → Option LanguageInfo → Type 0
DetectsIn P none = Unit
DetectsIn P (some lang) = P lang.code ≡ true

module _ (d : Detector) (P : Text → Bool) (table : AllValues P language_codes) where
  from_directory : (components : List Text) → DetectsIn P (detect_from_directory d components)
  unfolding detect_from_directory DetectsIn ◌=ᵗ◌
  from_directory [] = tt
  from_directory (c ∷ rest) = elim (Option-cases (get (d.to_lowercase c) language_codes)) [
    | inl e ↦ rw e (from_directory rest)
    | inr (code, e) ↦ rw e (get-AllValues P (d.to_lowercase c) code language_codes table e)
  ]

  from_filename :
      (patterns : List (Text → Option Text)) (name : Text)
      → DetectsIn P (detect_from_filename d patterns name)
  unfolding detect_from_filename DetectsIn
  from_filename [] name = tt
  from_filename (re ∷ rest) name = elim (Option-cases (re name)) [
    | inl e ↦ rw e (from_filename rest name)
    | inr (m, e) ↦ elim (Option-cases (get m language_codes)) [
      | inl f ↦ rw (e, f) (from_filename rest name)
      | inr (code, f) ↦ rw (e, f) (get-AllValues P m code language_codes table f)
    ]
  ]

  -- The head of the list, for one detection or two.
  head_code :
      (a b : Option LanguageInfo) (code : Text)
      → DetectsIn P a
      → DetectsIn P b
      → elim (sort_dedup d (pushed d a ++ pushed d b)) [
        | [] ↦ none
        | (lang ∷ rest) ↦ some lang.code
      ]
        ≡ some code
      → P code ≡ true
  unfolding sort_dedup pushed DetectsIn
  head_code none none code h k e = ground arith
  head_code none (some b) code h k e = ground (arith, k)
  head_code (some a) none code h k e = ground (arith, h)
  head_code (some a) (some b) code h k e = ground (arith, h, k)

  pub get_primary_language-AllValues :
      (dir : List Text) (name code : Text)
      → get_primary_language d dir name ≡ some code
      → P code ≡ true
  unfolding get_primary_language detect_all_languages
  get_primary_language-AllValues dir name code e =
      head_code (detect_from_directory d (dir ++ name ∷ []))
        (detect_from_filename d d.captures name) code (from_directory (dir ++ name ∷ []))
        (from_filename d.captures name) e
