-- ===== src/Config/Validator.antt =====
-- src/config/validator.rs: the strict validation of whole sections. Log lines are left out.
use subx_core.Prelude.{
  not, ◌&&◌, Option, none, some, Text, codes, ltb, ◌==◌, if◌then◌else◌, ok, err, ◌>>=◌, ◌>>◌,
  refuse_if, or_err, ◌=ᵗ◌,
}
use subx_core.Std.{is_empty, trim, starts_with}
use subx_core.Config.Platform.{Platform}
use subx_core.Config.Types.{
  AiConfig, FormatsConfig, VadConfig, SyncConfig, GeneralConfig, ParallelConfig, TranslationConfig,
  Config,
}
use subx_core.Config.Values.{
  out_of_range, too_long, bad_url, bad_key_prefix, missing_base_url, unsupported_provider,
  needs_https, empty_key, empty_value, not_positive, Checked, validate_enum, validate_range,
  validate_positive_number, validate_api_key, validate_non_empty_string, validate_ai_model,
  validate_float_range, validate_temperature, validate_url_format,
}
use subx_core.Config.Field.{normalize_ai_provider}
use subx_core.Config.Checks.{outputs, encodings, methods}

-- `if let Some(api_key) = .. { if !api_key.is_empty() { validate_api_key(api_key)?; .. } }`
unfoldable pub check_key : Option Text → Checked
check_key none = ok tt
check_key (some key) = if is_empty key then ok tt else validate_api_key key

unfoldable pub check_openai_key : Option Text → Checked
check_openai_key none = ok tt
check_openai_key (some key) =
    if is_empty key
    then ok tt
    else do validate_api_key key; refuse_if (not (starts_with key (codes "sk-"))) bad_key_prefix

unfoldable pub check_version : Option Text → Checked
check_version none = ok tt
check_version (some version) = refuse_if (is_empty (trim version)) empty_value

unfoldable pub validate_translation_language : Option Text → Checked
validate_translation_language none = ok tt
validate_translation_language (some lang) = refuse_if (is_empty (trim lang)) empty_value

unfoldable pub check_not_empty : Option Text → Checked
check_not_empty none = ok tt
check_not_empty (some key) = refuse_if (is_empty key) empty_key

module _ (p : Platform) where
  unfoldable pub require_https_for_hosted_provider : Text → Checked
  require_https_for_hosted_provider base_url = do
    scheme ← or_err (p.url_scheme base_url) bad_url
    refuse_if (not (scheme =ᵗ codes "https")) needs_https

  unfoldable pub check_hosted_url : Text → Checked
  unfolding require_https_for_hosted_provider
  check_hosted_url base_url =
      if is_empty base_url
      then ok tt
      else do validate_url_format p base_url; require_https_for_hosted_provider base_url

  unfoldable pub check_model : AiConfig p → Checked
  check_model ai = do validate_ai_model ai.model; validate_temperature p ai.temperature

  -- The arms of the canonical providers.
  unfoldable pub check_openai : AiConfig p → Checked
  unfolding check_openai_key check_model check_hosted_url
  check_openai ai = do
    check_openai_key ai.api_key
    check_model ai
    validate_positive_number ai.max_tokens
    check_hosted_url ai.base_url

  unfoldable pub check_openrouter : AiConfig p → Checked
  unfolding check_key check_model check_hosted_url
  check_openrouter ai = do
    check_key ai.api_key
    check_model ai
    validate_positive_number ai.max_tokens
    check_hosted_url ai.base_url

  unfoldable pub check_anthropic : AiConfig p → Checked
  unfolding check_key check_model
  check_anthropic ai = do check_key ai.api_key; check_model ai

  unfoldable pub check_azure : AiConfig p → Checked
  unfolding check_key check_model check_version check_hosted_url
  check_azure ai = do
    check_key ai.api_key
    check_model ai
    validate_positive_number ai.max_tokens
    check_version ai.api_version
    check_hosted_url ai.base_url

  unfoldable pub check_local : AiConfig p → Checked
  unfolding check_key check_model
  check_local ai = do
    check_key ai.api_key
    refuse_if (is_empty (trim ai.base_url)) missing_base_url
    validate_url_format p ai.base_url
    check_model ai
    validate_positive_number ai.max_tokens

  unfoldable pub check_provider : Text → AiConfig p → Checked
  unfolding check_openai check_openrouter check_anthropic check_azure check_local
  check_provider canonical ai =
      if canonical =ᵗ codes "openai"
      then check_openai ai
      else if canonical =ᵗ codes "openrouter"
      then check_openrouter ai
      else if canonical =ᵗ codes "anthropic"
      then check_anthropic ai
      else if canonical =ᵗ codes "azure-openai"
      then check_azure ai
      else if canonical =ᵗ codes "local"
      then check_local ai
      else err unsupported_provider

  unfoldable pub validate_ai_config : AiConfig p → Checked
  unfolding check_provider
  validate_ai_config ai = do
    validate_non_empty_string ai.provider
    check_provider (normalize_ai_provider ai.provider) ai
    validate_positive_number ai.retry_attempts
    refuse_if (ltb 10 ai.retry_attempts) too_long
    validate_range ai.request_timeout_seconds 10 600

  unfoldable pub validate_vad_config : VadConfig p → Checked
  validate_vad_config vad = do
    refuse_if
        (not (p.le (p.hundredths 0) vad.sensitivity && p.le vad.sensitivity (p.hundredths 100)))
        out_of_range
    refuse_if (ltb 10 vad.padding_chunks) out_of_range
    refuse_if (ltb 5000 vad.min_speech_duration_ms) out_of_range

  unfoldable pub validate_sync_config : SyncConfig p → Checked
  unfolding validate_vad_config
  validate_sync_config sync = do
    validate_enum sync.default_method methods
    refuse_if (p.le sync.max_offset_seconds (p.hundredths 0)) not_positive
    refuse_if (p.lt (p.hundredths 360000) sync.max_offset_seconds) out_of_range
    validate_vad_config sync.vad

  unfoldable pub validate_general_config : GeneralConfig p → Checked
  validate_general_config general = do
    validate_positive_number general.max_concurrent_jobs
    refuse_if (ltb 64 general.max_concurrent_jobs) out_of_range
    validate_range general.task_timeout_seconds 30 3600
    validate_range general.worker_idle_timeout_seconds 10 3600

  unfoldable pub validate_formats_config : FormatsConfig p → Checked
  validate_formats_config formats = do
    validate_non_empty_string formats.default_output
    validate_enum formats.default_output outputs
    validate_non_empty_string formats.default_encoding
    validate_enum formats.default_encoding encodings
    validate_float_range p formats.encoding_detection_confidence (p.hundredths 0) (p.hundredths 100)

  unfoldable pub validate_parallel_config : ParallelConfig p → Checked
  validate_parallel_config parallel = do
    validate_positive_number parallel.max_workers
    refuse_if (ltb 64 parallel.max_workers) out_of_range
    validate_positive_number parallel.task_queue_size
    refuse_if (ltb parallel.task_queue_size 100) out_of_range

  unfoldable pub validate_translation_config : TranslationConfig p → Checked
  unfolding validate_translation_language
  validate_translation_config translation = do
    refuse_if (translation.batch_size == 0) out_of_range
    refuse_if (ltb 1000 translation.batch_size) out_of_range
    validate_translation_language translation.default_target_language

  unfoldable pub validate_config_consistency : Config p → Checked
  unfolding check_not_empty
  validate_config_consistency c =
      if c.ai.provider =ᵗ codes "openai" then check_not_empty c.ai.api_key else ok tt

  unfoldable pub validate_config : Config p → Checked
  unfolding validate_ai_config validate_sync_config validate_general_config validate_formats_config
      validate_parallel_config validate_translation_config validate_config_consistency
  validate_config c = do
    validate_ai_config c.ai
    validate_sync_config c.sync
    validate_general_config c.general
    validate_formats_config c.formats
    validate_parallel_config c.parallel
    validate_translation_config c.translation
    validate_config_consistency c
