-- ===== src/Config/Defaults/Valid.antt =====
-- When the default configuration passes the strict validation.
use subx_core.Prelude.{ℕ, ◌≤◌, ◌≡◌, ◌↔◌, refl, arith, some, codes, ltb, leb, ok, ◌=ᵗ◌}
use subx_core.Std.{
  is_empty, trim, trim_start, trim_end, is_whitespace, to_ascii_lowercase, ascii_lower, contains,
}
use subx_core.Config.Platform.{Platform}
use subx_core.Config.Values.{
  validate_enum, validate_range, validate_positive_number, utf8_width, byte_len,
  validate_non_empty_string, validate_ai_model, validate_float_range, validate_temperature,
  validate_url_format,
}
use subx_core.Config.Field.{normalize_ai_provider}
use subx_core.Config.Defaults.{
  default_config, default_ai, default_sync, default_general, default_formats, default_translation,
}
use subx_core.Config.Validator.{
  check_openai_key, require_https_for_hosted_provider, check_hosted_url, check_model, check_openai,
  check_provider, check_not_empty, validate_translation_language, validate_ai_config,
  validate_vad_config, validate_sync_config, validate_general_config, validate_formats_config,
  validate_parallel_config, validate_translation_config, validate_config_consistency,
  validate_config,
}

-- The literals of the validators compare as the numbers that they stand for, and the address of the
-- default endpoint has the scheme that it starts with.
pub record LiteralLaws (p : Platform) : Type 0 where
  pub lt_literal :
      (a b : ℕ) → a ≤ 360000 → b ≤ 360000 → p.lt (p.hundredths a) (p.hundredths b) ≡ ltb a b
  pub le_literal :
      (a b : ℕ) → a ≤ 360000 → b ≤ 360000 → p.le (p.hundredths a) (p.hundredths b) ≡ leb a b
  pub endpoint_scheme : p.url_scheme (codes "https://api.openai.com/v1") ≡ some (codes "https")

module _ (p : Platform) (laws : LiteralLaws p) where
  ai_valid : validate_ai_config p (default_ai p) ≡ ok tt
  unfolding validate_ai_config check_provider check_openai check_openai_key check_model
      check_hosted_url require_https_for_hosted_provider validate_url_format validate_temperature
      validate_float_range validate_ai_model validate_non_empty_string byte_len utf8_width
      validate_positive_number validate_range normalize_ai_provider trim trim_start trim_end
      is_whitespace is_empty to_ascii_lowercase ascii_lower ◌=ᵗ◌
  ai_valid =
      rw
        (
          laws.lt_literal 30 0 (omega arith) (omega arith),
          laws.lt_literal 200 30 (omega arith) (omega arith),
          laws.endpoint_scheme,
        )
        refl

  sync_valid : validate_sync_config p (default_sync p) ≡ ok tt
  unfolding validate_sync_config validate_vad_config validate_enum contains ◌=ᵗ◌
  sync_valid =
      rw
        (
          laws.le_literal 6000 0 (omega arith) (omega arith),
          laws.lt_literal 360000 6000 (omega arith) (omega arith),
          laws.le_literal 0 25 (omega arith) (omega arith),
          laws.le_literal 25 100 (omega arith) (omega arith),
        )
        refl

  formats_valid : validate_formats_config p (default_formats p) ≡ ok tt
  unfolding validate_formats_config validate_enum contains validate_non_empty_string
      validate_float_range trim trim_start trim_end is_whitespace is_empty ◌=ᵗ◌
  formats_valid =
      rw
        (
          laws.lt_literal 80 0 (omega arith) (omega arith),
          laws.lt_literal 100 80 (omega arith) (omega arith),
        )
        refl

  general_valid : validate_general_config p (default_general p) ≡ ok tt
  unfolding validate_general_config validate_positive_number validate_range
  general_valid = refl

  translation_valid : validate_translation_config p (default_translation p) ≡ ok tt
  unfolding validate_translation_config validate_translation_language
  translation_valid = refl

  -- When the literals compare as numbers and the URL parser finds the scheme of the default
  -- endpoint, the strict validation accepts the default configuration exactly when the machine has
  -- one to 64 processors: with more, the defaults of the program are refused by its own validation.
  pub validate_config-default :
      (cpus : ℕ) → (validate_config p (default_config p cpus) ≡ ok tt) ↔ ((1 ≤ cpus) × (cpus ≤ 64))
  unfolding validate_config validate_parallel_config validate_positive_number
      validate_config_consistency check_not_empty
  validate_config-default cpus =
      rw (ai_valid, sync_valid, general_valid, formats_valid, translation_valid) (ground arith)
