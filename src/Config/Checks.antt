-- ===== src/Config/Checks.antt =====
-- src/config/field_validator.rs: the check of a value for each key, and of all fields of a
-- configuration.
use subx_core.Prelude.{
  ℕ, List, [], ◌∷◌, Option, none, some, Text, codes, if◌then◌else◌, ok, err, ◌>>=◌, ◌>>◌, or_err,
}
use subx_core.Std.{is_empty, parse_uint, show_uint, max_u32, max_u64}
use subx_core.Config.Platform.{Platform}
use subx_core.Config.Types.{Config}
use subx_core.Config.Values.{
  not_a_number, unknown_key, Checked, validate_enum, validate_range, validate_positive_number,
  validate_api_key, validate_non_empty_string, validate_ai_model, validate_float_range,
  validate_temperature, parse_bool, validate_url_format,
}
use subx_core.Config.Field.{
  Field, ai_provider, ai_model, ai_api_key, ai_base_url, ai_temperature, ai_max_tokens,
  ai_max_sample_length, ai_retry_attempts, ai_retry_delay_ms, ai_request_timeout_seconds,
  ai_api_version, sync_default_method, sync_max_offset_seconds, sync_vad_enabled,
  sync_vad_sensitivity, sync_vad_padding_chunks, sync_vad_min_speech_duration_ms,
  formats_default_output, formats_preserve_styling, formats_default_encoding,
  formats_encoding_detection_confidence, general_backup_enabled, general_max_concurrent_jobs,
  general_task_timeout_seconds, general_enable_progress_bar, general_worker_idle_timeout_seconds,
  general_max_subtitle_bytes, general_max_audio_bytes, parallel_max_workers,
  parallel_task_queue_size, parallel_enable_task_priorities, parallel_auto_balance_workers,
  parallel_overflow_strategy, translation_batch_size, translation_default_target_language,
  key_table, field_of, debug_strategy, show_bool,
}

-- `value.parse().map_err(..)?` followed by `validate_range`.
unfoldable pub validate_number : ℕ → Text → ℕ → ℕ → Checked
validate_number max value lo hi = do
  n ← or_err (parse_uint max value) not_a_number
  validate_range n lo hi

abbrev pub providers : List Text
providers =
    codes "openai"
    ∷ codes "anthropic"
    ∷ codes "local"
    ∷ codes "ollama"
    ∷ codes "openrouter"
    ∷ codes "azure-openai"
    ∷ []

abbrev pub methods : List Text
methods = codes "auto" ∷ codes "vad" ∷ codes "manual" ∷ []

abbrev pub outputs : List Text
outputs = codes "srt" ∷ codes "ass" ∷ codes "vtt" ∷ codes "webvtt" ∷ []

abbrev pub encodings : List Text
encodings = codes "utf-8" ∷ codes "gbk" ∷ codes "big5" ∷ codes "shift_jis" ∷ []

abbrev pub strategies : List Text
strategies = codes "Block" ∷ codes "Drop" ∷ codes "Expand" ∷ []

module _ (p : Platform) where
  -- `value.parse::<f32>().map_err(..)?` followed by `validate_range`.
  unfoldable pub validate_float : Text → p.Float → p.Float → Checked
  validate_float value lo hi = do
    x ← or_err (p.parse_float value) not_a_number
    validate_float_range p x lo hi

  unfoldable pub validate_bool : Text → Checked
  validate_bool value = do b ← parse_bool p value; ok tt

  -- The arms of `validate_field`.
  unfoldable pub validate_value : Field → Text → Checked
  unfolding validate_number validate_float validate_bool
  validate_value ai_provider value = do
    validate_non_empty_string value
    validate_enum value providers
  validate_value ai_model value = validate_ai_model value
  validate_value ai_api_key value = if is_empty value then ok tt else validate_api_key value
  validate_value ai_base_url value = validate_url_format p value
  validate_value ai_temperature value = do
    x ← or_err (p.parse_float value) not_a_number
    validate_temperature p x
  validate_value ai_max_tokens value = do
    n ← or_err (parse_uint max_u32 value) not_a_number
    validate_positive_number n
  validate_value ai_max_sample_length value = validate_number max_u64 value 100 10000
  validate_value ai_retry_attempts value = validate_number max_u32 value 1 10
  validate_value ai_retry_delay_ms value = validate_number max_u64 value 100 30000
  validate_value ai_request_timeout_seconds value = validate_number max_u64 value 10 600
  validate_value ai_api_version value = validate_non_empty_string value
  validate_value sync_default_method value = validate_enum value methods
  validate_value sync_max_offset_seconds value =
      validate_float value (p.hundredths 10) (p.hundredths 360000)
  validate_value sync_vad_enabled value = validate_bool value
  validate_value sync_vad_sensitivity value =
      validate_float value (p.hundredths 0) (p.hundredths 100)
  validate_value sync_vad_padding_chunks value = validate_number max_u32 value 0 10
  validate_value sync_vad_min_speech_duration_ms value = do
    n ← or_err (parse_uint max_u32 value) not_a_number
    ok tt
  validate_value formats_default_output value = validate_enum value outputs
  validate_value formats_preserve_styling value = validate_bool value
  validate_value formats_default_encoding value = validate_enum value encodings
  validate_value formats_encoding_detection_confidence value =
      validate_float value (p.hundredths 0) (p.hundredths 100)
  validate_value general_backup_enabled value = validate_bool value
  validate_value general_max_concurrent_jobs value = validate_number max_u64 value 1 64
  validate_value general_task_timeout_seconds value = validate_number max_u64 value 30 3600
  validate_value general_enable_progress_bar value = validate_bool value
  validate_value general_worker_idle_timeout_seconds value = validate_number max_u64 value 10 3600
  validate_value general_max_subtitle_bytes value = validate_number max_u64 value 1024 1073741824
  validate_value general_max_audio_bytes value = validate_number max_u64 value 1024 10737418240
  validate_value parallel_max_workers value = validate_number max_u64 value 1 64
  validate_value parallel_task_queue_size value = validate_number max_u64 value 100 10000
  validate_value parallel_enable_task_priorities value = validate_bool value
  validate_value parallel_auto_balance_workers value = validate_bool value
  validate_value parallel_overflow_strategy value = validate_enum value strategies
  validate_value translation_batch_size value = validate_number max_u64 value 1 1000
  validate_value translation_default_target_language value =
      if is_empty value then ok tt else validate_non_empty_string value

  unfoldable pub validate_field : Text → Text → Checked
  unfolding field_of validate_value
  validate_field key value = elim (field_of key) [
    | none ↦ err unknown_key
    | some field ↦ validate_value field value
  ]

  -- The text that `validate_all_fields` hands to the check of a field; an absent option has none.
  unfoldable pub field_text : Config p → Field → Option Text
  field_text c ai_provider = some c.ai.provider
  field_text c ai_model = some c.ai.model
  field_text c ai_api_key = c.ai.api_key
  field_text c ai_base_url = some c.ai.base_url
  field_text c ai_temperature = some (p.show_float c.ai.temperature)
  field_text c ai_max_tokens = some (show_uint c.ai.max_tokens)
  field_text c ai_max_sample_length = some (show_uint c.ai.max_sample_length)
  field_text c ai_retry_attempts = some (show_uint c.ai.retry_attempts)
  field_text c ai_retry_delay_ms = some (show_uint c.ai.retry_delay_ms)
  field_text c ai_request_timeout_seconds = some (show_uint c.ai.request_timeout_seconds)
  field_text c ai_api_version = c.ai.api_version
  field_text c sync_default_method = some c.sync.default_method
  field_text c sync_max_offset_seconds = some (p.show_float c.sync.max_offset_seconds)
  field_text c sync_vad_enabled = some (show_bool c.sync.vad.enabled)
  field_text c sync_vad_sensitivity = some (p.show_float c.sync.vad.sensitivity)
  field_text c sync_vad_padding_chunks = some (show_uint c.sync.vad.padding_chunks)
  field_text c sync_vad_min_speech_duration_ms = some (show_uint c.sync.vad.min_speech_duration_ms)
  field_text c formats_default_output = some c.formats.default_output
  field_text c formats_preserve_styling = some (show_bool c.formats.preserve_styling)
  field_text c formats_default_encoding = some c.formats.default_encoding
  field_text c formats_encoding_detection_confidence =
      some (p.show_float c.formats.encoding_detection_confidence)
  field_text c general_backup_enabled = some (show_bool c.general.backup_enabled)
  field_text c general_max_concurrent_jobs = some (show_uint c.general.max_concurrent_jobs)
  field_text c general_task_timeout_seconds = some (show_uint c.general.task_timeout_seconds)
  field_text c general_enable_progress_bar = some (show_bool c.general.enable_progress_bar)
  field_text c general_worker_idle_timeout_seconds =
      some (show_uint c.general.worker_idle_timeout_seconds)
  field_text c general_max_subtitle_bytes = some (show_uint c.general.max_subtitle_bytes)
  field_text c general_max_audio_bytes = some (show_uint c.general.max_audio_bytes)
  field_text c parallel_max_workers = some (show_uint c.parallel.max_workers)
  field_text c parallel_task_queue_size = some (show_uint c.parallel.task_queue_size)
  field_text c parallel_enable_task_priorities = some (show_bool c.parallel.enable_task_priorities)
  field_text c parallel_auto_balance_workers = some (show_bool c.parallel.auto_balance_workers)
  field_text c parallel_overflow_strategy = some (debug_strategy c.parallel.overflow_strategy)
  field_text c translation_batch_size = some (show_uint c.translation.batch_size)
  field_text c translation_default_target_language = c.translation.default_target_language

  unfoldable pub check_text : Field → Option Text → Checked
  check_text field none = ok tt
  check_text field (some value) = validate_value field value

  unfoldable pub check_fields : List (Text × Field) → Config p → Checked
  unfolding check_text
  check_fields [] c = ok tt
  check_fields ((name, field) ∷ rest) c = do
    check_text field (field_text c field)
    check_fields rest c

  -- `validate_all_fields`: the fields in the order of the code, which is the order of the table.
  unfoldable pub validate_all_fields : Config p → Checked
  unfolding check_fields
  validate_all_fields c = check_fields key_table c
