-- ===== src/Config/Reader.antt =====
-- src/config/service.rs: reading one value by its key; `ai.api_version` has no arm.
use subx_core.Prelude.{Option, none, some, Text, [], Result, ok, err}
use subx_core.Std.{show_uint}
use subx_core.Config.Platform.{Platform}
use subx_core.Config.Types.{Config}
use subx_core.Config.Values.{Error, unknown_key}
use subx_core.Config.Field.{
  Field, ai_provider, ai_model, ai_api_key, ai_base_url, ai_temperature, ai_max_tokens,
  ai_max_sample_length, ai_retry_attempts, ai_retry_delay_ms, ai_request_timeout_seconds,
  ai_api_version, sync_default_method, sync_max_offset_seconds, sync_vad_enabled,
  sync_vad_sensitivity, sync_vad_padding_chunks, sync_vad_min_speech_duration_ms,
  formats_default_output, formats_preserve_styling, formats_default_encoding,
  formats_encoding_detection_confidence, general_backup_enabled, general_max_concurrent_jobs,
  general_task_timeout_seconds, general_enable_progress_bar, general_worker_idle_timeout_seconds,
  general_max_subtitle_bytes, general_max_audio_bytes, parallel_max_workers,
  parallel_task_queue_size, parallel_enable_task_priorities, parallel_auto_balance_workers,
  parallel_overflow_strategy, translation_batch_size, translation_default_target_language, field_of,
  show_bool, debug_strategy,
}

unfoldable pub or_default : Option Text → Text
or_default none = []
or_default (some value) = value

module _ (p : Platform) where
  -- The arms of `read_config_value_from`.
  unfoldable pub read_value : Config p → Field → Result Error Text
  unfolding or_default
  read_value c ai_provider = ok c.ai.provider
  read_value c ai_api_key = ok (or_default c.ai.api_key)
  read_value c ai_model = ok c.ai.model
  read_value c ai_base_url = ok c.ai.base_url
  read_value c ai_max_sample_length = ok (show_uint c.ai.max_sample_length)
  read_value c ai_temperature = ok (p.show_float c.ai.temperature)
  read_value c ai_max_tokens = ok (show_uint c.ai.max_tokens)
  read_value c ai_retry_attempts = ok (show_uint c.ai.retry_attempts)
  read_value c ai_retry_delay_ms = ok (show_uint c.ai.retry_delay_ms)
  read_value c ai_request_timeout_seconds = ok (show_uint c.ai.request_timeout_seconds)
  read_value c ai_api_version = err unknown_key
  read_value c formats_default_output = ok c.formats.default_output
  read_value c formats_preserve_styling = ok (show_bool c.formats.preserve_styling)
  read_value c formats_default_encoding = ok c.formats.default_encoding
  read_value c formats_encoding_detection_confidence =
      ok (p.show_float c.formats.encoding_detection_confidence)
  read_value c sync_max_offset_seconds = ok (p.show_float c.sync.max_offset_seconds)
  read_value c sync_default_method = ok c.sync.default_method
  read_value c sync_vad_enabled = ok (show_bool c.sync.vad.enabled)
  read_value c sync_vad_sensitivity = ok (p.show_float c.sync.vad.sensitivity)
  read_value c sync_vad_padding_chunks = ok (show_uint c.sync.vad.padding_chunks)
  read_value c sync_vad_min_speech_duration_ms = ok (show_uint c.sync.vad.min_speech_duration_ms)
  read_value c general_backup_enabled = ok (show_bool c.general.backup_enabled)
  read_value c general_max_concurrent_jobs = ok (show_uint c.general.max_concurrent_jobs)
  read_value c general_task_timeout_seconds = ok (show_uint c.general.task_timeout_seconds)
  read_value c general_enable_progress_bar = ok (show_bool c.general.enable_progress_bar)
  read_value c general_worker_idle_timeout_seconds =
      ok (show_uint c.general.worker_idle_timeout_seconds)
  read_value c general_max_subtitle_bytes = ok (show_uint c.general.max_subtitle_bytes)
  read_value c general_max_audio_bytes = ok (show_uint c.general.max_audio_bytes)
  read_value c parallel_max_workers = ok (show_uint c.parallel.max_workers)
  read_value c parallel_task_queue_size = ok (show_uint c.parallel.task_queue_size)
  read_value c parallel_enable_task_priorities = ok (show_bool c.parallel.enable_task_priorities)
  read_value c parallel_auto_balance_workers = ok (show_bool c.parallel.auto_balance_workers)
  read_value c parallel_overflow_strategy = ok (debug_strategy c.parallel.overflow_strategy)
  read_value c translation_batch_size = ok (show_uint c.translation.batch_size)
  read_value c translation_default_target_language =
      ok (or_default c.translation.default_target_language)

  unfoldable pub read_config_value_from : Config p → Text → Result Error Text
  unfolding read_value field_of
  read_config_value_from c key = elim (field_of key) [
    | none ↦ err unknown_key
    | some field ↦ read_value c field
  ]
