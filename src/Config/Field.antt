-- ===== src/Config/Field.antt =====
-- src/config/field_validator.rs: the keys and the check of a value for each. The string patterns of
-- the `match key` of the code are one table; its arms are clauses over the table's entries.
use subx_core.Prelude.{
  Bool, true, false, List, [], ◌∷◌, Option, none, some, Text, codes, if◌then◌else◌, ◌=ᵗ◌,
}
use subx_core.Std.{trim, to_ascii_lowercase}
use subx_core.Config.Types.{OverflowStrategy, block, drop_new, expand, drop_oldest, reject}

pub data Field : Type 0 where
  ai_provider ai_model ai_api_key ai_base_url ai_temperature ai_max_tokens : Field
  ai_max_sample_length ai_retry_attempts ai_retry_delay_ms ai_request_timeout_seconds : Field
  ai_api_version : Field
  sync_default_method sync_max_offset_seconds : Field
  sync_vad_enabled sync_vad_sensitivity sync_vad_padding_chunks : Field
  sync_vad_min_speech_duration_ms : Field
  formats_default_output formats_preserve_styling formats_default_encoding : Field
  formats_encoding_detection_confidence : Field
  general_backup_enabled general_max_concurrent_jobs general_task_timeout_seconds : Field
  general_enable_progress_bar general_worker_idle_timeout_seconds : Field
  general_max_subtitle_bytes general_max_audio_bytes : Field
  parallel_max_workers parallel_task_queue_size parallel_enable_task_priorities : Field
  parallel_auto_balance_workers parallel_overflow_strategy : Field
  translation_batch_size translation_default_target_language : Field

abbrev pub key_table : List (Text × Field)
key_table =
    (codes "ai.provider", ai_provider)
    ∷ (codes "ai.model", ai_model)
    ∷ (codes "ai.api_key", ai_api_key)
    ∷ (codes "ai.base_url", ai_base_url)
    ∷ (codes "ai.temperature", ai_temperature)
    ∷ (codes "ai.max_tokens", ai_max_tokens)
    ∷ (codes "ai.max_sample_length", ai_max_sample_length)
    ∷ (codes "ai.retry_attempts", ai_retry_attempts)
    ∷ (codes "ai.retry_delay_ms", ai_retry_delay_ms)
    ∷ (codes "ai.request_timeout_seconds", ai_request_timeout_seconds)
    ∷ (codes "ai.api_version", ai_api_version)
    ∷ (codes "sync.default_method", sync_default_method)
    ∷ (codes "sync.max_offset_seconds", sync_max_offset_seconds)
    ∷ (codes "sync.vad.enabled", sync_vad_enabled)
    ∷ (codes "sync.vad.sensitivity", sync_vad_sensitivity)
    ∷ (codes "sync.vad.padding_chunks", sync_vad_padding_chunks)
    ∷ (codes "sync.vad.min_speech_duration_ms", sync_vad_min_speech_duration_ms)
    ∷ (codes "formats.default_output", formats_default_output)
    ∷ (codes "formats.preserve_styling", formats_preserve_styling)
    ∷ (codes "formats.default_encoding", formats_default_encoding)
    ∷ (codes "formats.encoding_detection_confidence", formats_encoding_detection_confidence)
    ∷ (codes "general.backup_enabled", general_backup_enabled)
    ∷ (codes "general.max_concurrent_jobs", general_max_concurrent_jobs)
    ∷ (codes "general.task_timeout_seconds", general_task_timeout_seconds)
    ∷ (codes "general.enable_progress_bar", general_enable_progress_bar)
    ∷ (codes "general.worker_idle_timeout_seconds", general_worker_idle_timeout_seconds)
    ∷ (codes "general.max_subtitle_bytes", general_max_subtitle_bytes)
    ∷ (codes "general.max_audio_bytes", general_max_audio_bytes)
    ∷ (codes "parallel.max_workers", parallel_max_workers)
    ∷ (codes "parallel.task_queue_size", parallel_task_queue_size)
    ∷ (codes "parallel.enable_task_priorities", parallel_enable_task_priorities)
    ∷ (codes "parallel.auto_balance_workers", parallel_auto_balance_workers)
    ∷ (codes "parallel.overflow_strategy", parallel_overflow_strategy)
    ∷ (codes "translation.batch_size", translation_batch_size)
    ∷ (codes "translation.default_target_language", translation_default_target_language)
    ∷ []

unfoldable pub lookup_key : Text → List (Text × Field) → Option Field
lookup_key key [] = none
lookup_key key ((name, field) ∷ rest) = if name =ᵗ key then some field else lookup_key key rest

unfoldable pub field_of : Text → Option Field
unfolding lookup_key
field_of key = lookup_key key key_table

unfoldable pub normalize_ai_provider : Text → Text
normalize_ai_provider value =
    let trimmed = to_ascii_lowercase (trim value) in
    if trimmed =ᵗ codes "ollama" then codes "local" else trimmed

-- `{:?}` of the enum.
unfoldable pub debug_strategy : OverflowStrategy → Text
debug_strategy block = codes "Block"
debug_strategy drop_new = codes "Drop"
debug_strategy expand = codes "Expand"
debug_strategy drop_oldest = codes "DropOldest"
debug_strategy reject = codes "Reject"

unfoldable pub show_bool : Bool → Text
show_bool true = codes "true"
show_bool false = codes "false"
