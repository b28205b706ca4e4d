-- ===== src/Config/Defaults.antt =====
-- src/config/mod.rs: the `Default` of every section. `cpus` is what `num_cpus::get()` returns.
pub mod Valid
use subx_core.Prelude.{ℕ, true, false, none, codes}
use subx_core.Config.Platform.{Platform}
use subx_core.Config.Types.{
  block, AiConfig, FormatsConfig, VadConfig, SyncConfig, GeneralConfig, ParallelConfig,
  TranslationConfig, Config,
}

module _ (p : Platform) where
  abbrev pub default_general : GeneralConfig p
  default_general = record {
    backup_enabled = false;
    max_concurrent_jobs = 4;
    task_timeout_seconds = 300;
    workspace = codes ".";
    enable_progress_bar = true;
    worker_idle_timeout_seconds = 60;
    max_subtitle_bytes = 52428800;
    max_audio_bytes = 2147483648;
  }

  abbrev pub default_parallel : ℕ → ParallelConfig p
  default_parallel cpus = record {
    max_workers = cpus;
    overflow_strategy = block;
    task_queue_size = 1000;
    enable_task_priorities = false;
    auto_balance_workers = true;
  }

  abbrev pub default_translation : TranslationConfig p
  default_translation = record { batch_size = 40; default_target_language = none }

  abbrev pub default_ai : AiConfig p
  default_ai = record {
    provider = codes "openai";
    api_key = none;
    model = codes "gpt-4.1-mini";
    base_url = codes "https://api.openai.com/v1";
    max_sample_length = 3000;
    temperature = p.hundredths 30;
    max_tokens = 10000;
    retry_attempts = 3;
    retry_delay_ms = 1000;
    request_timeout_seconds = 120;
    api_version = none;
  }

  abbrev pub default_formats : FormatsConfig p
  default_formats = record {
    default_output = codes "srt";
    preserve_styling = false;
    default_encoding = codes "utf-8";
    encoding_detection_confidence = p.hundredths 80;
  }

  abbrev pub default_vad : VadConfig p
  default_vad = record {
    enabled = true;
    sensitivity = p.hundredths 25;
    padding_chunks = 3;
    min_speech_duration_ms = 300;
  }

  abbrev pub default_sync : SyncConfig p
  default_sync = record {
    default_method = codes "auto";
    max_offset_seconds = p.hundredths 6000;
    vad = default_vad;
    correlation_threshold = p.hundredths 80;
    dialogue_detection_threshold = p.hundredths 60;
    min_dialogue_duration_ms = 500;
    dialogue_merge_gap_ms = 200;
    enable_dialogue_detection = true;
    audio_sample_rate = 44100;
    auto_detect_sample_rate = true;
  }

  abbrev pub default_config : ℕ → Config p
  default_config cpus = record {
    ai = default_ai;
    formats = default_formats;
    sync = default_sync;
    general = default_general;
    parallel = default_parallel cpus;
    translation = default_translation;
    loaded_from = none;
  }
