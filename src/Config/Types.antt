-- ===== src/Config/Types.antt =====
-- src/config/mod.rs: the sections of the configuration.
use subx_core.Prelude.{ℕ, Bool, Option, Text}
use subx_core.Config.Platform.{Platform}

pub data OverflowStrategy : Type 0 where
  block drop_new expand drop_oldest reject : OverflowStrategy

module _ (p : Platform) where
  pub record AiConfig : Type 0 where
    pub provider : Text
    pub api_key : Option Text
    pub model : Text
    pub base_url : Text
    pub max_sample_length : ℕ
    pub temperature : p.Float
    pub max_tokens : ℕ
    pub retry_attempts : ℕ
    pub retry_delay_ms : ℕ
    pub request_timeout_seconds : ℕ
    pub api_version : Option Text

  pub record FormatsConfig : Type 0 where
    pub default_output : Text
    pub preserve_styling : Bool
    pub default_encoding : Text
    pub encoding_detection_confidence : p.Float

  pub record VadConfig : Type 0 where
    pub enabled : Bool
    pub sensitivity : p.Float
    pub padding_chunks : ℕ
    pub min_speech_duration_ms : ℕ

  pub record SyncConfig : Type 0 where
    pub default_method : Text
    pub max_offset_seconds : p.Float
    pub vad : VadConfig
    pub correlation_threshold : p.Float
    pub dialogue_detection_threshold : p.Float
    pub min_dialogue_duration_ms : ℕ
    pub dialogue_merge_gap_ms : ℕ
    pub enable_dialogue_detection : Bool
    pub audio_sample_rate : ℕ
    pub auto_detect_sample_rate : Bool

  pub record GeneralConfig : Type 0 where
    pub backup_enabled : Bool
    pub max_concurrent_jobs : ℕ
    pub task_timeout_seconds : ℕ
    pub workspace : Text
    pub enable_progress_bar : Bool
    pub worker_idle_timeout_seconds : ℕ
    pub max_subtitle_bytes : ℕ
    pub max_audio_bytes : ℕ

  pub record ParallelConfig : Type 0 where
    pub max_workers : ℕ
    pub overflow_strategy : OverflowStrategy
    pub task_queue_size : ℕ
    pub enable_task_priorities : Bool
    pub auto_balance_workers : Bool

  pub record TranslationConfig : Type 0 where
    pub batch_size : ℕ
    pub default_target_language : Option Text

  pub record Config : Type 0 where
    pub ai : AiConfig
    pub formats : FormatsConfig
    pub sync : SyncConfig
    pub general : GeneralConfig
    pub parallel : ParallelConfig
    pub translation : TranslationConfig
    pub loaded_from : Option Text
