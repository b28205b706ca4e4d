-- ===== src/Config/Service/ReadBack.antt =====
-- Reading a value after `config set`, for the key that was set and for every other key.
use subx_core.Prelude.{true, false, some, Text, [], ◌∷◌, ◌≡◌, ◌≢◌, refl, arith, ok, subst}
use subx_core.Std.{is_empty, parse_uint, max_u32, max_u64}
use subx_core.Config.Platform.{Platform}
use subx_core.Config.Types.{Config}
use subx_core.Config.Values.{parse_bool}
use subx_core.Config.Field.{
  Field, ai_provider, ai_api_key, ai_temperature, ai_max_tokens, ai_max_sample_length,
  ai_retry_attempts, ai_retry_delay_ms, ai_request_timeout_seconds, ai_api_version,
  sync_max_offset_seconds, sync_vad_enabled, sync_vad_sensitivity, sync_vad_padding_chunks,
  sync_vad_min_speech_duration_ms, formats_preserve_styling, formats_encoding_detection_confidence,
  general_backup_enabled, general_max_concurrent_jobs, general_task_timeout_seconds,
  general_enable_progress_bar, general_worker_idle_timeout_seconds, general_max_subtitle_bytes,
  general_max_audio_bytes, parallel_max_workers, parallel_task_queue_size,
  parallel_enable_task_priorities, parallel_auto_balance_workers, parallel_overflow_strategy,
  translation_batch_size, field_of, normalize_ai_provider, show_bool,
}
use subx_core.Config.Checks.{
  validate_value, validate_number, validate_float, validate_bool, field_text,
}
use subx_core.Config.Setter.{present, set_value}
use subx_core.Config.Reader.{or_default, read_value, read_config_value_from}
use subx_core.Config.Service.{validate_and_set_value}
use subx_core.Config.Validator.{validate_config}
use subx_core.Config.Service.Frame.{field_text-set_value}
use subx_core.Config.Service.Repair.{written, written-Canonical, set_steps-field, Canonical}
use subx_core.Config.Service.Laws.{
  PlatformLaws, reparse, refloat, parse_bool-show_bool, strategy_text,
}

-- The text `r` that is read stands for the same value as the text `v` that was set: equal numbers,
-- equal switches, the canonical provider, and elsewhere the same text.
abbrev pub SameValue : (p : Platform) → Field → Text → Text → Type 0
SameValue p ai_max_tokens v r = parse_uint max_u32 r ≡ parse_uint max_u32 v
SameValue p ai_retry_attempts v r = parse_uint max_u32 r ≡ parse_uint max_u32 v
SameValue p sync_vad_padding_chunks v r = parse_uint max_u32 r ≡ parse_uint max_u32 v
SameValue p sync_vad_min_speech_duration_ms v r = parse_uint max_u32 r ≡ parse_uint max_u32 v
SameValue p ai_max_sample_length v r = parse_uint max_u64 r ≡ parse_uint max_u64 v
SameValue p ai_retry_delay_ms v r = parse_uint max_u64 r ≡ parse_uint max_u64 v
SameValue p ai_request_timeout_seconds v r = parse_uint max_u64 r ≡ parse_uint max_u64 v
SameValue p general_max_concurrent_jobs v r = parse_uint max_u64 r ≡ parse_uint max_u64 v
SameValue p general_task_timeout_seconds v r = parse_uint max_u64 r ≡ parse_uint max_u64 v
SameValue p general_worker_idle_timeout_seconds v r = parse_uint max_u64 r ≡ parse_uint max_u64 v
SameValue p general_max_subtitle_bytes v r = parse_uint max_u64 r ≡ parse_uint max_u64 v
SameValue p general_max_audio_bytes v r = parse_uint max_u64 r ≡ parse_uint max_u64 v
SameValue p parallel_max_workers v r = parse_uint max_u64 r ≡ parse_uint max_u64 v
SameValue p parallel_task_queue_size v r = parse_uint max_u64 r ≡ parse_uint max_u64 v
SameValue p translation_batch_size v r = parse_uint max_u64 r ≡ parse_uint max_u64 v
SameValue p ai_temperature v r = p.parse_float r ≡ p.parse_float v
SameValue p sync_max_offset_seconds v r = p.parse_float r ≡ p.parse_float v
SameValue p sync_vad_sensitivity v r = p.parse_float r ≡ p.parse_float v
SameValue p formats_encoding_detection_confidence v r = p.parse_float r ≡ p.parse_float v
SameValue p sync_vad_enabled v r = parse_bool p r ≡ parse_bool p v
SameValue p formats_preserve_styling v r = parse_bool p r ≡ parse_bool p v
SameValue p general_backup_enabled v r = parse_bool p r ≡ parse_bool p v
SameValue p general_enable_progress_bar v r = parse_bool p r ≡ parse_bool p v
SameValue p parallel_enable_task_priorities v r = parse_bool p r ≡ parse_bool p v
SameValue p parallel_auto_balance_workers v r = parse_bool p r ≡ parse_bool p v
SameValue p ai_provider v r = r ≡ normalize_ai_provider v
SameValue p _ v r = r ≡ v

read_value-field_text :
    (p : Platform) (c : Config p) (f : Field)
    → f ≢ ai_api_version
    → read_value p c f ≡ ok (or_default (field_text p c f))
unfolding read_value field_text
read_value-field_text p c ai_api_version n = absurd (n refl)
read_value-field_text p c _ n = refl

module _ (p : Platform) (laws : PlatformLaws p) where
  SameValue-set_value :
      (f : Field) (c c' : Config p) (v : Text)
      → validate_value p f v ≡ ok tt
      → Canonical f v
      → set_value p c f v ≡ ok c'
      → SameValue p f v (or_default (field_text p c' f))
  unfolding set_value validate_value validate_number validate_float validate_bool field_text
      show_bool or_default present is_empty
  SameValue-set_value ai_provider c c' v h n e = ground arith
  SameValue-set_value ai_api_key c c' [] h n e = ground arith
  SameValue-set_value ai_api_key c c' (x ∷ v) h n e = ground arith
  SameValue-set_value parallel_overflow_strategy c c' v h n e = ground (arith, strategy_text v)
  SameValue-set_value _ c c' v h n e = ground (
    arith,
    reparse max_u32 v,
    reparse max_u64 v,
    refloat p laws v,
    parse_bool-show_bool p laws true,
    parse_bool-show_bool p laws false,
  )

  -- On a platform with `PlatformLaws`, after a successful `config set` of any key but
  -- `ai.api_version`, reading that key gives a text for the value that was set, and a key of any
  -- other field reads as it did before.
  pub read-validate_and_set_value :
      (c c' : Config p) (key v other : Text) (f g : Field)
      → field_of key ≡ some f
      → f ≢ ai_api_version
      → field_of other ≡ some g
      → g ≢ f
      → validate_and_set_value p c key v ≡ ok c'
      → (r : Text) × (read_config_value_from p c' key ≡ ok r)
        × SameValue p f (written key v) r
        × (read_config_value_from p c' other ≡ read_config_value_from p c other)
  unfolding read_config_value_from
  read-validate_and_set_value c c' key v other f g e n eg ne h =
      shown f g e n eg ne (set_steps-field p c c' key v h)
    where
      same_read :
          (f g : Field)
          → set_value p c f (written key v) ≡ ok c'
          → g ≢ f
          → read_value p c' g ≡ read_value p c g
      same_read f ai_api_version set ne = unfold read_value in refl
      same_read f g set ne = ground (
        arith,
        read_value-field_text p c g,
        read_value-field_text p c' g,
        field_text-set_value p f g c c' (written key v) set ne,
      )

      shown :
          (f g : Field)
          → field_of key ≡ some f
          → f ≢ ai_api_version
          → field_of other ≡ some g
          → g ≢ f
          → ((f' : Field) × (field_of key ≡ some f')
              × (validate_value p f' (written key v) ≡ ok tt)
              × (set_value p c f' (written key v) ≡ ok c')
              × (validate_config p c' ≡ ok tt))
          → (r : Text) × (read_config_value_from p c' key ≡ ok r)
            × SameValue p f (written key v) r
            × (read_config_value_from p c' other ≡ read_config_value_from p c other)
      shown f g e n eg ne (f', e', checked, set, strict) =
          let same : f' ≡ f = cc in
          let checked_f = subst (λ h. validate_value p h (written key v) ≡ ok tt) same checked in
          let set_f = subst (λ h. set_value p c h (written key v) ≡ ok c') same set in
          (
            or_default (field_text p c' f),
            rw (e, read_config_value_from) (read_value-field_text p c' f n),
            SameValue-set_value f c c' (written key v) checked_f (written-Canonical f key v e)
                set_f,
            rw (eg, read_config_value_from) (same_read f g set_f ne),
          )
