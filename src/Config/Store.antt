-- ===== src/Config/Store.antt =====
-- src/config/service.rs: the service's file and cache, `load_for_repair` and `set_config_value`.
pub mod Reload
use subx_core.Prelude.{
  ℕ, Bool, true, false, Option, none, some, Text, Result, ok, err, ◌>>=◌, ◌>>◌, or_err,
  if◌then◌else◌,
}
use subx_core.Config.Platform.{Platform}
use subx_core.Config.Types.{Config}
use subx_core.Config.Values.{Error, panicked}
use subx_core.Config.Field.{normalize_ai_provider}
use subx_core.Config.Checks.{validate_all_fields}
use subx_core.Config.Defaults.{default_config}
use subx_core.Config.Service.{validate_and_set_value}

-- What the service takes from elsewhere: the `toml` crate with the derived (de)serialisers, the
-- number of processors, and whether the file has a path, can be read and can be written.
pub record System (p : Platform) : Type 0 where
  pub to_toml : Config p → Option Text
  pub from_toml : Text → Option (Config p)
  pub cpus : ℕ
  pub has_config_path : Bool
  pub readable : Bool
  pub writable : Bool

-- A call of the service fails in the validation, in the (de)serialiser, or at the file.
pub data Failure : Type 0 where
  invalid : Error → Failure
  not_toml not_serialised : Failure
  no_path not_read not_written : Failure

pub record Store (p : Platform) : Type 0 where
  pub file : Option Text
  pub cached_config : Option (Config p)

abbrev pub lift_error {ℓ} : {A : Type ℓ} → Result Error A → Result Failure A
lift_error (ok a) = ok a
lift_error (err e) = err (invalid e)

-- What a file holds of a configuration: the fields under `serde(skip)` are read as the defaults of
-- their types.
unfoldable pub as_stored : (p : Platform) → Config p → Config p
as_stored p c = record c {
  sync = record (c.sync) {
    correlation_threshold = p.hundredths 0;
    dialogue_detection_threshold = p.hundredths 0;
    min_dialogue_duration_ms = 0;
    dialogue_merge_gap_ms = 0;
    enable_dialogue_detection = false;
    audio_sample_rate = 0;
    auto_detect_sample_rate = false;
  };
}

module _ (p : Platform) (sys : System p) where
  abbrev pub canonicalize : Config p → Config p
  canonicalize c = record c {
    ai = record (c.ai) { provider = normalize_ai_provider c.ai.provider };
  }

  -- A file that is there: parsed, its provider made canonical, and every field checked.
  unfoldable pub load_content : Text → Result Failure (Config p)
  load_content content = do
    c ← or_err (sys.from_toml content) not_toml
    lift_error (validate_all_fields p (canonicalize c))
    ok (canonicalize c)

  unfoldable pub load_for_repair : Store p → Result Failure (Config p)
  unfolding load_content
  load_for_repair s =
      if sys.has_config_path
      then (elim s.file [
        | none ↦ ok (default_config p sys.cpus)
        | some content ↦ if sys.readable then load_content content else err not_read
      ])
      else err no_path

  unfoldable pub save_config_to_file_with_config : Store p → Config p → Result Failure (Store p)
  save_config_to_file_with_config s c = do
    content ← or_err (sys.to_toml c) not_serialised
    if sys.writable then ok (record s { file = some content }) else err not_written

  unfoldable pub set_config_value : Store p → Text → Text → Result Failure (Store p)
  unfolding load_for_repair save_config_to_file_with_config
  set_config_value s key value = do
    c ← load_for_repair s
    c' ← lift_error (validate_and_set_value p c key value)
    s' ← save_config_to_file_with_config s c'
    ok (record s' { cached_config = some c' })
