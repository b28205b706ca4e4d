-- ===== src/Matcher/Replay.antt =====
-- src/core/matcher/engine.rs and cache.rs: a plan that is saved, and the operations rebuilt from it.
-- `Files` is what a rebuild asks of the disk, the generator of identifiers, the case tables and the
-- conversions of paths; `Json` is serde_json on the cache.
pub mod Same
use subx_core.Prelude.{
  ℕ, suc, ◌+◌, Bool, true, false, not, ◌&&◌, ◌||◌, List, [], ◌∷◌, map, Option, none, some, Text,
  codes, ◌=ᵗ◌, if◌then◌else◌, Result, ok, err, ◌>>=◌, or_err,
}
use subx_core.Matcher.Types.{
  PathBuf, join, MediaFile, MediaFileType, video, subtitle, MatchOperation, FileRelocationMode,
}
use subx_core.Language.{Detector}
use subx_core.Matcher.Plan.{MatchConfig, relocation_of}
use subx_core.Tasks.Files.{stem_and_extension}

pub record OpItem (F : Type 0) : Type 0 where
  pub video_file : Text
  pub subtitle_file : Text
  pub new_subtitle_name : Text
  pub confidence : F
  pub reasoning : List Text

-- The fields that a later run reads.
pub record CacheData (F : Type 0) : Type 0 where
  pub cache_version : Text
  pub directory : Text
  pub match_operations : List (OpItem F)

pub data CacheError : Type 0 where
  no_metadata : CacheError

pub record Files : Type 0 where
  pub exists : PathBuf → Bool
  pub metadata : PathBuf → Option ℕ
  pub file_id : ℕ → Text
  pub to_lowercase : Text → Text
  pub to_string_lossy : PathBuf → Text
  pub path_from : Text → PathBuf

pub record Json (F : Type 0) : Type 0 where
  pub to_json : CacheData F → Text
  pub from_json : Text → Option (CacheData F)

unfoldable pub load : {F : Type 0} → Json F → Option Text → Option (CacheData F)
load json none = none
load json (some content) = json.from_json content

unfoldable pub current_cache_version : Text
current_cache_version = codes "2.0"

unfoldable pub is_cache_version_current : Text → Bool
unfolding current_cache_version
is_cache_version_current version = version =ᵗ current_cache_version

module _ (files : Files) {F : Type 0} where
  unfoldable pub item_of : MatchOperation F → OpItem F
  item_of op = record {
    video_file = files.to_string_lossy op.video_file.path;
    subtitle_file = files.to_string_lossy op.subtitle_file.path;
    new_subtitle_name = op.new_subtitle_name;
    confidence = op.confidence;
    reasoning = op.reasoning;
  }

  -- What `save_file_list_cache` writes under a key.
  unfoldable pub saved : Text → List (MatchOperation F) → CacheData F
  unfolding item_of current_cache_version
  saved cache_key operations = record {
    cache_version = current_cache_version;
    directory = cache_key;
    match_operations = map item_of operations;
  }

module _ (files : Files) where
  unfoldable pub rebuilt_file : MediaFileType → ℕ → ℕ → PathBuf → MediaFile
  unfolding stem_and_extension
  rebuilt_file file_type i size path = record {
    id = files.file_id i;
    path = path;
    file_type = file_type;
    size = size;
    name = path.file_name;
    extension = files.to_lowercase (stem_and_extension path.file_name).1;
    relative_path = path.file_name;
  }

  module _ {F : Type 0} (config : MatchConfig F) where
    unfoldable pub rebuilt_operation : OpItem F → MediaFile → MediaFile → MatchOperation F
    unfolding relocation_of
    rebuilt_operation item v s =
        let requires_relocation = relocation_of config.relocation_mode v.path s.path in
        record {
          video_file = v;
          subtitle_file = s;
          new_subtitle_name = item.new_subtitle_name;
          confidence = item.confidence;
          reasoning = item.reasoning;
          relocation_mode = config.relocation_mode;
          relocation_target_path =
              if requires_relocation
              then some (join v.path.parent item.new_subtitle_name)
              else none;
          requires_relocation = requires_relocation;
        }

    -- The loop over the items, where `i` identifiers have been given out.
    unfoldable pub rebuild_items : ℕ → List (OpItem F) → Result CacheError (List (MatchOperation F))
    unfolding rebuilt_file rebuilt_operation
    rebuild_items i [] = ok []
    rebuild_items i (item ∷ items) =
        let video_path = files.path_from item.video_file in
        let subtitle_path = files.path_from item.subtitle_file in
        elim (files.exists video_path && files.exists subtitle_path) [
          | false ↦ rebuild_items i items
          | true ↦ or_err (files.metadata video_path) no_metadata >>= λ video_size.
              or_err (files.metadata subtitle_path) no_metadata >>= λ subtitle_size.
              rebuild_items (suc (suc i)) items >>= λ rest. ok (
                rebuilt_operation item (rebuilt_file video i video_size video_path)
                  (rebuilt_file subtitle (suc i) subtitle_size subtitle_path)
                ∷ rest)
        ]

    -- On the data of the cache file, when it can be loaded.
    unfoldable pub check_cache_data :
        Text → Option (CacheData F) → Result CacheError (Option (List (MatchOperation F)))
    unfolding is_cache_version_current rebuild_items
    check_cache_data cache_key none = ok none
    check_cache_data cache_key (some cache_data) =
        if not (is_cache_version_current cache_data.cache_version)
        then ok none
        else if not (cache_data.directory =ᵗ cache_key)
        then ok none
        else rebuild_items 0 cache_data.match_operations >>= λ ops. ok (some ops)

    -- On the text of the cache file, when there is one that can be read.
    unfoldable pub check_file_list_cache :
        Json F → Text → Option Text → Result CacheError (Option (List (MatchOperation F)))
    unfolding check_cache_data load
    check_file_list_cache json cache_key content = check_cache_data cache_key (load json content)

    unfoldable pub reconstruct_operations_from_cache :
        CacheData F → Result CacheError (List (MatchOperation F))
    unfolding rebuild_items
    reconstruct_operations_from_cache cache = rebuild_items 0 cache.match_operations
