-- ===== src/Config/Values.antt =====
-- src/config/validation.rs: the checks on single values. An error keeps the reason, not its wording.
-- Widths: `usize` is 64 bits. A check that the code makes on `n as f64` against small whole bounds
-- is made on the number, since the conversion is monotone and exact there.
use subx_core.Prelude.{
  ℕ, ◌+◌, Bool, true, false, not, ◌||◌, List, [], ◌∷◌, Text, codes, ltb, leb, if◌then◌else◌, Result,
  ok, err, ◌>>=◌, ◌>>◌, refuse_if, or_err,
}
use subx_core.Std.{is_empty, trim, contains}
use subx_core.Config.Platform.{Platform}

pub data Error : Type 0 where
  not_allowed out_of_range not_a_number not_a_bool not_positive : Error
  empty_value too_short too_long bad_url : Error
  unknown_key : Error
  -- The arms that the code leaves to `unwrap` and `unreachable!`.
  panicked : Error
  bad_key_prefix missing_base_url unsupported_provider needs_https empty_key : Error

abbrev pub Checked : Type 0
Checked = Result Error (Unit {0})

unfoldable pub validate_enum : Text → List Text → Checked
validate_enum value allowed = refuse_if (not (contains allowed value)) not_allowed

unfoldable pub validate_range : ℕ → ℕ → ℕ → Checked
validate_range value lo hi = refuse_if (ltb value lo || ltb hi value) out_of_range

unfoldable pub validate_positive_number : ℕ → Checked
validate_positive_number value = refuse_if (leb value 0) not_positive

-- `str::len` counts bytes: one to four for each code point.
unfoldable pub utf8_width : ℕ → ℕ
utf8_width c = if ltb c 0x80 then 1 else if ltb c 0x800 then 2 else if ltb c 0x10000 then 3 else 4

unfoldable pub byte_len : Text → ℕ
byte_len [] = 0
byte_len (c ∷ s) = utf8_width c + byte_len s

unfoldable pub validate_api_key : Text → Checked
validate_api_key value = do
  refuse_if (is_empty value) empty_value
  refuse_if (ltb (byte_len value) 10) too_short

unfoldable pub validate_non_empty_string : Text → Checked
validate_non_empty_string value = refuse_if (is_empty (trim value)) empty_value

unfoldable pub validate_ai_model : Text → Checked
unfolding validate_non_empty_string
validate_ai_model model = do
  validate_non_empty_string model
  refuse_if (ltb 100 (byte_len model)) too_long

module _ (p : Platform) where
  unfoldable pub validate_float_range : p.Float → p.Float → p.Float → Checked
  validate_float_range value lo hi = refuse_if (p.lt value lo || p.lt hi value) out_of_range

  unfoldable pub validate_temperature : p.Float → Checked
  unfolding validate_float_range
  validate_temperature temperature =
      validate_float_range temperature (p.hundredths 0) (p.hundredths 200)

  unfoldable pub true_words : List Text
  true_words = codes "true" ∷ codes "1" ∷ codes "yes" ∷ codes "on" ∷ codes "enabled" ∷ []

  unfoldable pub false_words : List Text
  false_words = codes "false" ∷ codes "0" ∷ codes "no" ∷ codes "off" ∷ codes "disabled" ∷ []

  unfoldable pub parse_bool : Text → Result Error Bool
  parse_bool value =
      let word = p.to_lowercase value in
      if contains true_words word
      then ok true
      else if contains false_words word
      then ok false
      else err not_a_bool

  unfoldable pub validate_url_format : Text → Checked
  validate_url_format value =
      if is_empty (trim value)
      then ok tt
      else do scheme ← or_err (p.url_scheme value) bad_url; ok tt
