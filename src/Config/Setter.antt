-- ===== src/Config/Setter.antt =====
-- src/config/service.rs: setting one value by its key. The slice patterns over `key.split('.')` name
-- the same keys as the table of `Config.Field`.
use subx_core.Prelude.{
  Option, none, some, Text, codes, if◌then◌else◌, Result, ok, err, ◌>>=◌, or_err, ◌=ᵗ◌,
}
use subx_core.Std.{is_empty, parse_uint, max_u32, max_u64}
use subx_core.Config.Platform.{Platform}
use subx_core.Config.Types.{OverflowStrategy, block, drop_new, expand, Config}
use subx_core.Config.Values.{Error, panicked, unknown_key, parse_bool}
use subx_core.Config.Field.{
  Field, ai_provider, ai_model, ai_api_key, ai_base_url, ai_temperature, ai_max_tokens,
  ai_max_sample_length, ai_retry_attempts, ai_retry_delay_ms, ai_request_timeout_seconds,
  ai_api_version, sync_default_method, sync_max_offset_seconds, sync_vad_enabled,
  sync_vad_sensitivity, sync_vad_padding_chunks, sync_vad_min_speech_duration_ms,
  formats_default_output, formats_preserve_styling, formats_default_encoding,
  formats_encoding_detection_confidence, general_backup_enabled, general_max_concurrent_jobs,
  general_task_timeout_seconds, general_enable_progress_bar, general_worker_idle_timeout_seconds,
  general_max_subtitle_bytes, general_max_audio_bytes, parallel_max_workers,
  parallel_task_queue_size, parallel_enable_task_priorities, parallel_auto_balance_workers,
  parallel_overflow_strategy, translation_batch_size, translation_default_target_language, field_of,
  normalize_ai_provider,
}

unfoldable pub present : Text → Option Text
present value = if is_empty value then none else some value

unfoldable pub strategy_of : Text → Result Error OverflowStrategy
strategy_of value =
    if value =ᵗ codes "Block"
    then ok block
    else if value =ᵗ codes "Drop"
    then ok drop_new
    else if value =ᵗ codes "Expand"
    then ok expand
    else err panicked

module _ (p : Platform) where
  -- The arms of `set_value_internal`; `unwrap` on a failed `parse` is a panic.
  unfoldable pub set_value : Config p → Field → Text → Result Error (Config p)
  unfolding present strategy_of
  set_value c ai_provider value =
      ok (record c { ai = record (c.ai) { provider = normalize_ai_provider value } })
  set_value c ai_api_key value = ok (record c { ai = record (c.ai) { api_key = present value } })
  set_value c ai_model value = ok (record c { ai = record (c.ai) { model = value } })
  set_value c ai_base_url value = ok (record c { ai = record (c.ai) { base_url = value } })
  set_value c ai_max_sample_length value = do
    v ← or_err (parse_uint max_u64 value) panicked
    ok (record c { ai = record (c.ai) { max_sample_length = v } })
  set_value c ai_temperature value = do
    v ← or_err (p.parse_float value) panicked
    ok (record c { ai = record (c.ai) { temperature = v } })
  set_value c ai_max_tokens value = do
    v ← or_err (parse_uint max_u32 value) panicked
    ok (record c { ai = record (c.ai) { max_tokens = v } })
  set_value c ai_retry_attempts value = do
    v ← or_err (parse_uint max_u32 value) panicked
    ok (record c { ai = record (c.ai) { retry_attempts = v } })
  set_value c ai_retry_delay_ms value = do
    v ← or_err (parse_uint max_u64 value) panicked
    ok (record c { ai = record (c.ai) { retry_delay_ms = v } })
  set_value c ai_request_timeout_seconds value = do
    v ← or_err (parse_uint max_u64 value) panicked
    ok (record c { ai = record (c.ai) { request_timeout_seconds = v } })
  set_value c ai_api_version value =
      ok (record c { ai = record (c.ai) { api_version = present value } })
  set_value c formats_default_output value =
      ok (record c { formats = record (c.formats) { default_output = value } })
  set_value c formats_preserve_styling value = do
    v ← parse_bool p value
    ok (record c { formats = record (c.formats) { preserve_styling = v } })
  set_value c formats_default_encoding value =
      ok (record c { formats = record (c.formats) { default_encoding = value } })
  set_value c formats_encoding_detection_confidence value = do
    v ← or_err (p.parse_float value) panicked
    ok (record c { formats = record (c.formats) { encoding_detection_confidence = v } })
  set_value c sync_max_offset_seconds value = do
    v ← or_err (p.parse_float value) panicked
    ok (record c { sync = record (c.sync) { max_offset_seconds = v } })
  set_value c sync_default_method value =
      ok (record c { sync = record (c.sync) { default_method = value } })
  set_value c sync_vad_enabled value = do
    v ← parse_bool p value
    ok (record c { sync = record (c.sync) { vad = record (c.sync.vad) { enabled = v } } })
  set_value c sync_vad_sensitivity value = do
    v ← or_err (p.parse_float value) panicked
    ok (record c { sync = record (c.sync) { vad = record (c.sync.vad) { sensitivity = v } } })
  set_value c sync_vad_padding_chunks value = do
    v ← or_err (parse_uint max_u32 value) panicked
    ok (record c { sync = record (c.sync) { vad = record (c.sync.vad) { padding_chunks = v } } })
  set_value c sync_vad_min_speech_duration_ms value = do
    v ← or_err (parse_uint max_u32 value) panicked
    ok (record c {
      sync = record (c.sync) { vad = record (c.sync.vad) { min_speech_duration_ms = v } };
    })
  set_value c general_backup_enabled value = do
    v ← parse_bool p value
    ok (record c { general = record (c.general) { backup_enabled = v } })
  set_value c general_max_concurrent_jobs value = do
    v ← or_err (parse_uint max_u64 value) panicked
    ok (record c { general = record (c.general) { max_concurrent_jobs = v } })
  set_value c general_task_timeout_seconds value = do
    v ← or_err (parse_uint max_u64 value) panicked
    ok (record c { general = record (c.general) { task_timeout_seconds = v } })
  set_value c general_enable_progress_bar value = do
    v ← parse_bool p value
    ok (record c { general = record (c.general) { enable_progress_bar = v } })
  set_value c general_worker_idle_timeout_seconds value = do
    v ← or_err (parse_uint max_u64 value) panicked
    ok (record c { general = record (c.general) { worker_idle_timeout_seconds = v } })
  set_value c general_max_subtitle_bytes value = do
    v ← or_err (parse_uint max_u64 value) panicked
    ok (record c { general = record (c.general) { max_subtitle_bytes = v } })
  set_value c general_max_audio_bytes value = do
    v ← or_err (parse_uint max_u64 value) panicked
    ok (record c { general = record (c.general) { max_audio_bytes = v } })
  set_value c parallel_max_workers value = do
    v ← or_err (parse_uint max_u64 value) panicked
    ok (record c { parallel = record (c.parallel) { max_workers = v } })
  set_value c parallel_task_queue_size value = do
    v ← or_err (parse_uint max_u64 value) panicked
    ok (record c { parallel = record (c.parallel) { task_queue_size = v } })
  set_value c parallel_enable_task_priorities value = do
    v ← parse_bool p value
    ok (record c { parallel = record (c.parallel) { enable_task_priorities = v } })
  set_value c parallel_auto_balance_workers value = do
    v ← parse_bool p value
    ok (record c { parallel = record (c.parallel) { auto_balance_workers = v } })
  set_value c parallel_overflow_strategy value = do
    v ← strategy_of value
    ok (record c { parallel = record (c.parallel) { overflow_strategy = v } })
  set_value c translation_batch_size value = do
    v ← or_err (parse_uint max_u64 value) panicked
    ok (record c { translation = record (c.translation) { batch_size = v } })
  set_value c translation_default_target_language value = ok (record c {
    translation = record (c.translation) { default_target_language = present value };
  })

  unfoldable pub set_value_internal : Config p → Text → Text → Result Error (Config p)
  unfolding set_value field_of
  set_value_internal c key value = elim (field_of key) [
    | none ↦ err unknown_key
    | some field ↦ set_value c field value
  ]
