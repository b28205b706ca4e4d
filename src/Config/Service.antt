-- ===== src/Config/Service.antt =====
-- src/config/service.rs: validating, setting and validating again.
pub mod Total
pub mod Frame
pub mod Laws
pub mod Repair
pub mod ReadBack
pub mod Refusals
use subx_core.Prelude.{
  ℕ, Bool, true, false, Option, none, some, Text, codes, if◌then◌else◌, [], ◌∷◌, Result, ok, err,
  ◌>>=◌, ◌>>◌, or_err, ◌=ᵗ◌,
}
use subx_core.Std.{is_empty, parse_uint, show_uint, max_u32, max_u64}
use subx_core.Config.Platform.{Platform}
use subx_core.Config.Types.{
  OverflowStrategy, block, drop_new, expand, AiConfig, VadConfig, SyncConfig, Config,
}
use subx_core.Config.Values.{Error, panicked, unknown_key, Checked, parse_bool}
use subx_core.Config.Field.{
  Field, ai_provider, ai_model, ai_api_key, ai_base_url, ai_temperature, ai_max_tokens,
  ai_max_sample_length, ai_retry_attempts, ai_retry_delay_ms, ai_request_timeout_seconds,
  ai_api_version, sync_default_method, sync_max_offset_seconds, sync_vad_enabled,
  sync_vad_sensitivity, sync_vad_padding_chunks, sync_vad_min_speech_duration_ms,
  formats_default_output, formats_preserve_styling, formats_default_encoding,
  formats_encoding_detection_confidence, general_backup_enabled, general_max_concurrent_jobs,
  general_task_timeout_seconds, general_enable_progress_bar, general_worker_idle_timeout_seconds,
  general_max_subtitle_bytes, general_max_audio_bytes, parallel_max_workers,
  parallel_task_queue_size, parallel_enable_task_priorities, parallel_auto_balance_workers,
  parallel_overflow_strategy, translation_batch_size, translation_default_target_language, field_of,
  normalize_ai_provider, show_bool, debug_strategy,
}
use subx_core.Config.Checks.{validate_field}
use subx_core.Config.Validator.{validate_config}
use subx_core.Config.Setter.{set_value_internal}

module _ (p : Platform) where
  unfoldable pub validate_and_set_value : Config p → Text → Text → Result Error (Config p)
  validate_and_set_value c key value =
      let value' : Text =
        if key =ᵗ codes "ai.provider" then normalize_ai_provider value else value in
      do
        validate_field p key value'
        c' ← set_value_internal p c key value'
        validate_config p c'
        ok c'
