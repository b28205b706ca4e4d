-- ===== src/Language.antt =====
-- src/core/language.rs: language labels of files and of answers. `to_lowercase` is the Unicode
-- one and is a parameter, as are the captures of the three patterns on file names.
pub mod Codes
use subx_core.Prelude.{
  ℕ, Bool, true, false, List, [], ◌∷◌, ◌++◌, Option, none, some, Text, codes, ltb, ◌=ᵗ◌,
  if◌then◌else◌,
}
use subx_core.Std.{is_empty, trim}

pub data LanguageSource : Type 0 where
  directory filename extension : LanguageSource

-- `confidence` in tenths: the code writes 0.9 and 0.8 only.
pub record LanguageInfo : Type 0 where
  pub code : Text
  pub source : LanguageSource
  pub confidence : ℕ

-- The entries of `language_codes`.
unfoldable pub language_codes : List (Text × Text)
language_codes =
    (codes "tc", codes "tc")
    ∷ (codes "繁中", codes "tc")
    ∷ (codes "繁體", codes "tc")
    ∷ (codes "cht", codes "tc")
    ∷ (codes "sc", codes "sc")
    ∷ (codes "简中", codes "sc")
    ∷ (codes "简体", codes "sc")
    ∷ (codes "chs", codes "sc")
    ∷ (codes "traditional-chinese", codes "tc")
    ∷ (codes "traditional_chinese", codes "tc")
    ∷ (codes "zh-hant", codes "tc")
    ∷ (codes "zh_hant", codes "tc")
    ∷ (codes "simplified-chinese", codes "sc")
    ∷ (codes "simplified_chinese", codes "sc")
    ∷ (codes "zh-hans", codes "sc")
    ∷ (codes "zh_hans", codes "sc")
    ∷ (codes "en", codes "en")
    ∷ (codes "英文", codes "en")
    ∷ (codes "english", codes "en")
    ∷ (codes "eng", codes "en")
    ∷ (codes "ja", codes "ja")
    ∷ (codes "jpn", codes "ja")
    ∷ (codes "japanese", codes "ja")
    ∷ (codes "ko", codes "ko")
    ∷ (codes "kor", codes "ko")
    ∷ (codes "korean", codes "ko")
    ∷ (codes "fr", codes "fr")
    ∷ (codes "fra", codes "fr")
    ∷ (codes "fre", codes "fr")
    ∷ (codes "french", codes "fr")
    ∷ (codes "de", codes "de")
    ∷ (codes "deu", codes "de")
    ∷ (codes "ger", codes "de")
    ∷ (codes "german", codes "de")
    ∷ (codes "es", codes "es")
    ∷ (codes "spa", codes "es")
    ∷ (codes "spanish", codes "es")
    ∷ (codes "pt", codes "pt")
    ∷ (codes "por", codes "pt")
    ∷ (codes "portuguese", codes "pt")
    ∷ (codes "ru", codes "ru")
    ∷ (codes "rus", codes "ru")
    ∷ (codes "russian", codes "ru")
    ∷ []

-- `HashMap::get`
unfoldable pub get : Text → List (Text × Text) → Option Text
get key [] = none
get key ((k, v) ∷ rest) = let later = get key rest in if k =ᵗ key then some v else later

-- The outside of the detector: lower-casing, and the first group of each pattern on a name.
pub record Detector : Type 0 where
  pub to_lowercase : Text → Text
  pub captures : List (Text → Option Text)

module _ (d : Detector) where
  unfoldable pub normalize : Text → Option Text
  unfolding language_codes get
  normalize raw =
      let trimmed = trim raw in
      let lower = d.to_lowercase trimmed in
      if is_empty trimmed then none else elim (get lower language_codes) [
        | some code ↦ some code
        | none ↦ elim (get trimmed language_codes) [ some code ↦ some code | none ↦ some lower ]
      ]

  -- The loop over the components of the path.
  unfoldable pub detect_from_directory : List Text → Option LanguageInfo
  unfolding language_codes get
  detect_from_directory [] = none
  detect_from_directory (comp ∷ rest) = elim (get (d.to_lowercase comp) language_codes) [
    | some code ↦ some (record { code = code; source = directory; confidence = 9 })
    | none ↦ detect_from_directory rest
  ]

  -- The loop over the patterns, `name` being the last component.
  unfoldable pub detect_from_filename : List (Text → Option Text) → Text → Option LanguageInfo
  unfolding language_codes get
  detect_from_filename [] name = none
  detect_from_filename (re ∷ rest) name = elim (re name) [
    | none ↦ detect_from_filename rest name
    | some m ↦ elim (get m language_codes) [
      | some code ↦ some (record { code = code; source = filename; confidence = 8 })
      | none ↦ detect_from_filename rest name
    ]
  ]

  unfoldable pub detect_from_path : List Text → Text → Option LanguageInfo
  unfolding detect_from_directory detect_from_filename
  detect_from_path dir name = elim (detect_from_directory (dir ++ name ∷ [])) [
    | some lang ↦ some lang
    | none ↦ elim (detect_from_filename d.captures name) [ some lang ↦ some lang | none ↦ none ]
  ]

  -- The push of an optional detection.
  unfoldable pub pushed : Option LanguageInfo → List LanguageInfo
  pushed none = []
  pushed (some lang) = lang ∷ []

  -- At most two detections: the sort by falling confidence is stable, and the second is dropped
  -- when its code repeats the first.
  unfoldable pub sort_dedup : List LanguageInfo → List LanguageInfo
  sort_dedup [] = []
  sort_dedup (a ∷ []) = a ∷ []
  sort_dedup (a ∷ b ∷ rest) =
      let (x, y) = if ltb a.confidence b.confidence then (b, a) else (a, b) in
      if x.code =ᵗ y.code then x ∷ [] else x ∷ y ∷ []

  unfoldable pub detect_all_languages : List Text → Text → List LanguageInfo
  unfolding detect_from_directory detect_from_filename pushed sort_dedup
  detect_all_languages dir name = sort_dedup (
      pushed (detect_from_directory (dir ++ name ∷ []))
      ++ pushed (detect_from_filename d.captures name))

  unfoldable pub get_primary_language : List Text → Text → Option Text
  unfolding detect_all_languages
  get_primary_language dir name = elim (detect_all_languages dir name) [
    | [] ↦ none
    | (lang ∷ rest) ↦ some lang.code
  ]
