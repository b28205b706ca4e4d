-- ===== src/Matcher/Tests/Cached.antt =====
-- A plan of src/core/matcher/engine.rs that is saved and rebuilt.
use subx_core.Prelude.{ℕ, ◌≡◌, refl, true, Text, List, [], ◌∷◌, ◌++◌, none, some, codes, ok, ◌=ᵗ◌}
use subx_core.Std.{to_ascii_lowercase}
use subx_core.Matcher.Types.{PathBuf, MatchOperation}
use subx_core.Matcher.Replay.{
  Files, Json, saved, check_cache_data, check_file_list_cache, is_cache_version_current,
  current_cache_version,
}
use subx_core.Matcher.Replay.Same.{
  IsReplayable, IsConsistent, HavePlanOf, check_file_list_cache-saved,
}
use subx_core.Matcher.Plan.{relocation_of}
use subx_core.Matcher.Tests.{batch}
use subx_core.Matcher.Tests.Planning.{config}

-- The paths of the plan have one directory; their text is that with the name.
unfoldable slashed : List Text → Text
slashed [] = []
slashed (d ∷ ds) = d

abbrev text_of : PathBuf → Text
text_of p = slashed p.parent ++ p.file_name

-- Its directories have names of one letter.
abbrev path_of_text : Text → PathBuf
path_of_text t = elim t [
  | [] ↦ record { parent = []; file_name = [] }
  | c ∷ name ↦ record { parent = (c ∷ []) ∷ []; file_name = name }
]

abbrev files : Files
files = record {
  exists = λ p. true;
  metadata = λ p. some 1;
  file_id = λ i. codes "id";
  to_lowercase = to_ascii_lowercase;
  to_string_lossy = text_of;
  path_from = path_of_text;
}

-- A reader that knows the one plan.
abbrev json : Json ℕ
json = record { to_json = λ d. codes "plan"; from_json = λ t. some (saved files (codes "k") batch) }

batch-IsReplayable : IsReplayable files config batch
unfolding IsReplayable IsConsistent relocation_of slashed
batch-IsReplayable = (
  refl,
  refl,
  refl,
  (1, refl),
  (1, refl),
  (refl, refl, refl),
  (
    refl,
    refl,
    refl,
    (1, refl),
    (1, refl),
    (refl, refl, refl),
    (refl, refl, refl, (1, refl), (1, refl), (refl, refl, refl), tt),
  ),
)

-- Another version of the cache is not read.
old_version :
    check_cache_data files config
      (codes "k")
      (some (record (saved files (codes "k") batch) { cache_version = codes "1.0" }))
    ≡ ok none
unfolding check_cache_data is_cache_version_current current_cache_version ◌=ᵗ◌
old_version = refl

check_file_list_cache-saved_example :
    (out : List (MatchOperation ℕ)) × (check_file_list_cache files config json
        (codes "k")
        (some (json.to_json (saved files (codes "k") batch)))
      ≡ ok (some out))
    × HavePlanOf batch out
check_file_list_cache-saved_example =
    check_file_list_cache-saved files config json (codes "k") batch refl batch-IsReplayable
