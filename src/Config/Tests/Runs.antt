-- ===== src/Config/Tests/Runs.antt =====
-- Setting, reading, loading and masking values on the concrete platform (src/config).
use subx_core.Prelude.{
  ℕ, ◌≤◌, ◌≡◌, ◌≢◌, ◌↔◌, refl, inl, none, some, ◌++◌, Text, codes, true, false, ltb, leb, ◌=ᵗ◌, ok,
  err, Option,
}
use subx_core.Std.{
  is_empty, trim, trim_start, trim_end, is_whitespace, to_ascii_lowercase, ascii_lower, starts_with,
  contains, parse_uint, digits_from, scan_digits, show_uint, print_digits,
}
use subx_core.Config.Types.{drop_oldest, Config, VadConfig}
use subx_core.Config.Values.{
  out_of_range, validate_enum, validate_range, validate_positive_number, utf8_width, byte_len,
  validate_api_key, validate_non_empty_string, validate_ai_model, validate_float_range,
  validate_temperature, parse_bool, true_words, false_words, validate_url_format,
}
use subx_core.Config.Field.{
  ai_retry_attempts, ai_temperature, sync_max_offset_seconds, sync_vad_sensitivity,
  formats_encoding_detection_confidence, ai_model, ai_api_version, field_of, lookup_key,
  debug_strategy, show_bool, normalize_ai_provider,
}
use subx_core.Config.Checks.{
  validate_number, validate_float, validate_bool, validate_value, validate_field, field_text,
  check_text, check_fields, validate_all_fields,
}
use subx_core.Config.Validator.{
  check_openai_key, require_https_for_hosted_provider, check_hosted_url, check_model, check_openai,
  check_provider, check_not_empty, validate_translation_language, validate_ai_config,
  validate_vad_config, validate_sync_config, validate_general_config, validate_formats_config,
  validate_parallel_config, validate_translation_config, validate_config_consistency,
  validate_config,
}
use subx_core.Config.Defaults.{default_config, default_vad}
use subx_core.Config.Defaults.Valid.{LiteralLaws, validate_config-default}
use subx_core.Config.Setter.{set_value, set_value_internal}
use subx_core.Config.Reader.{read_config_value_from}
use subx_core.Config.Service.{validate_and_set_value}
use subx_core.Config.Service.Total.{set_value_internal-total}
use subx_core.Config.Service.Repair.{validate_and_set_value-loads, written}
use subx_core.Config.Service.ReadBack.{SameValue, read-validate_and_set_value}
use subx_core.Config.Service.Refusals.{
  with_strategy, validate_all_fields-refuses, validate_value-Unordered,
}
use subx_core.Config.Store.{
  Store, as_stored, load_for_repair, save_config_to_file_with_config, set_config_value,
}
use subx_core.Config.Store.Reload.{set_config_value-reloads}
use subx_core.Config.Masking.{
  has_text, is_sensitive, mask_sensitive_value, mask_sensitive_value-hides,
}
use subx_core.Config.Tests.Machine.{
  read_number, show_number, both, machine, machine_laws, start, target, target_text, disk,
  disk_writes, disk_reads,
}

start_loads : validate_all_fields machine start ≡ ok tt
unfolding validate_all_fields check_fields check_text field_text validate_value validate_number
    validate_float validate_bool validate_enum validate_range validate_positive_number
    validate_api_key validate_non_empty_string validate_ai_model validate_float_range
    validate_temperature parse_bool true_words false_words validate_url_format utf8_width byte_len
    is_empty trim trim_start trim_end is_whitespace to_ascii_lowercase ascii_lower starts_with
    contains parse_uint digits_from scan_digits show_uint print_digits debug_strategy show_bool
    read_number show_number both ◌=ᵗ◌
start_loads = refl

strict_target : validate_config machine target ≡ ok tt
unfolding validate_config validate_ai_config validate_sync_config validate_general_config
    validate_formats_config validate_parallel_config validate_translation_config
    validate_config_consistency validate_vad_config check_provider check_openai check_openai_key
    check_hosted_url check_model check_not_empty require_https_for_hosted_provider
    validate_translation_language normalize_ai_provider validate_enum validate_range
    validate_positive_number validate_non_empty_string validate_ai_model validate_float_range
    validate_temperature validate_url_format utf8_width byte_len is_empty trim trim_start trim_end
    is_whitespace to_ascii_lowercase ascii_lower starts_with contains both ◌=ᵗ◌
strict_target = refl

five_valid : validate_field machine (codes "ai.retry_attempts") (codes "5") ≡ ok tt
unfolding validate_field field_of lookup_key validate_value validate_number validate_range
    parse_uint digits_from scan_digits ◌=ᵗ◌
five_valid = refl

five_set : set_value_internal machine start (codes "ai.retry_attempts") (codes "5") ≡ ok target
unfolding set_value_internal set_value field_of lookup_key parse_uint digits_from scan_digits ◌=ᵗ◌
five_set = refl

five_written :
    validate_and_set_value machine start (codes "ai.retry_attempts") (codes "5") ≡ ok target
unfolding validate_and_set_value ◌=ᵗ◌
five_written = rw (five_valid, five_set, strict_target) refl

abbrev empty_store : Store machine
empty_store = record { file = none; cached_config = none }

abbrev saved_store : Store machine
saved_store = record { file = some target_text; cached_config = some target }

five_stored :
    set_config_value machine disk empty_store (codes "ai.retry_attempts") (codes "5")
    ≡ ok saved_store
unfolding set_config_value load_for_repair save_config_to_file_with_config
five_stored = rw (five_written, disk_writes) refl

set_config_value-reloads_example :
    (c' : Config machine) × (saved_store.cached_config ≡ some c')
    × (load_for_repair machine disk saved_store ≡ ok (as_stored machine c'))
    × (validate_config machine c' ≡ ok tt)
    × (validate_config machine (as_stored machine c') ≡ ok tt)
set_config_value-reloads_example =
    set_config_value-reloads machine disk machine_laws empty_store saved_store
      (codes "ai.retry_attempts") (codes "5") refl disk_reads start_loads five_stored

validate_and_set_value-loads_example :
    (validate_all_fields machine target ≡ ok tt) × (validate_config machine target ≡ ok tt)
validate_and_set_value-loads_example =
    validate_and_set_value-loads machine machine_laws start target (codes "ai.retry_attempts")
      (codes "5") start_loads five_written

retries_field : field_of (codes "ai.retry_attempts") ≡ some ai_retry_attempts
unfolding field_of lookup_key ◌=ᵗ◌
retries_field = refl

model_field : field_of (codes "ai.model") ≡ some ai_model
unfolding field_of lookup_key ◌=ᵗ◌
model_field = refl

read-validate_and_set_value_example :
    (r : Text) × (read_config_value_from machine target (codes "ai.retry_attempts") ≡ ok r)
    × SameValue machine ai_retry_attempts (written (codes "ai.retry_attempts") (codes "5")) r
    × (read_config_value_from machine target (codes "ai.model")
        ≡ read_config_value_from machine start (codes "ai.model"))
read-validate_and_set_value_example =
    read-validate_and_set_value machine machine_laws start target (codes "ai.retry_attempts")
      (codes "5") (codes "ai.model") ai_retry_attempts ai_model retries_field (by_data) model_field
      (by_data') five_written
  where
    by_data : ai_retry_attempts ≢ ai_api_version
    by_data e = cc

    by_data' : ai_model ≢ ai_retry_attempts
    by_data' e = cc

set_value_internal-total_example :
    (c' : Config machine) × (set_value_internal machine start
        (codes "ai.retry_attempts")
        (codes "5")
      ≡ ok c')
set_value_internal-total_example =
    set_value_internal-total machine start (codes "ai.retry_attempts") (codes "5") five_valid

api_key_sensitive : is_sensitive machine (codes "ai.api_key") ≡ true
unfolding is_sensitive has_text starts_with to_ascii_lowercase ascii_lower
api_key_sensitive = refl

mask_sensitive_value-hides_example :
    (mask_sensitive_value machine (codes "ai.api_key") (codes "sk-12" ++ codes "cdef")
      ≡ codes "****" ++ codes "cdef")
    × (mask_sensitive_value machine (codes "ai.api_key") (codes "cdef") ≡ codes "****")
mask_sensitive_value-hides_example =
    mask_sensitive_value-hides machine (codes "ai.api_key") (codes "sk-12") (codes "cdef")
      api_key_sensitive (λ e. cc) refl

machine_literals : LiteralLaws machine
unfolding both starts_with
machine_literals = record {
  lt_literal = λ a b h k. refl;
  le_literal = λ a b h k. refl;
  endpoint_scheme = refl;
}

validate_config-default_example :
    (validate_config machine (default_config machine 128) ≡ ok tt) ↔ ((1 ≤ 128) × (128 ≤ 64))
validate_config-default_example = validate_config-default machine machine_literals 128

validate_all_fields-refuses_example :
    (validate_config machine (with_strategy machine start drop_oldest)
      ≡ validate_config machine start)
    × (validate_all_fields machine (with_strategy machine start drop_oldest) ≢ ok tt)
validate_all_fields-refuses_example =
    validate_all_fields-refuses machine start drop_oldest (inl refl)

reads_nan : read_number (codes "NaN") ≡ some none
unfolding read_number parse_uint digits_from scan_digits ◌=ᵗ◌
reads_nan = refl

abbrev nan_vad : VadConfig machine
nan_vad = record (default_vad machine) { sensitivity = none }

nan_unordered :
    (y : Option ℕ)
    → (both ltb none y ≡ false)
      × (both ltb y none ≡ false)
      × (both leb none y ≡ false)
      × (both leb y none ≡ false)
unfolding both
nan_unordered none = (refl, refl, refl, refl)
nan_unordered (some n) = (refl, refl, refl, refl)

validate_value-Unordered_example :
    (validate_value machine ai_temperature (codes "NaN") ≡ ok tt)
    × (validate_value machine sync_max_offset_seconds (codes "NaN") ≡ ok tt)
    × (validate_value machine formats_encoding_detection_confidence (codes "NaN") ≡ ok tt)
    × (validate_value machine sync_vad_sensitivity (codes "NaN") ≡ ok tt)
    × (validate_vad_config machine nan_vad ≡ err out_of_range)
validate_value-Unordered_example =
    validate_value-Unordered machine (codes "NaN") none nan_vad reads_nan nan_unordered refl
