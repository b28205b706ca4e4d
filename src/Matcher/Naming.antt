-- ===== src/Matcher/Naming.antt =====
-- src/core/matcher/engine.rs: the new name of a subtitle, from the video and the answer of the AI.
pub mod Safe
use subx_core.Prelude.{
  Bool, true, false, ◌||◌, List, [], ◌∷◌, ◌++◌, Option, none, some, Text, codes, ◌=ᵗ◌,
  if◌then◌else◌,
}
use subx_core.Std.{is_empty, trim, to_ascii_lowercase}
use subx_core.Language.{Detector, normalize, get_primary_language}
use subx_core.Matcher.Types.{MediaFile, FileMatch}
use subx_core.Matcher.Names.{sanitize_suffix}

unfoldable pub strip_suffix : Text → Text → Option Text
strip_suffix [] suffix = if suffix =ᵗ [] then some [] else none
strip_suffix (c ∷ s) suffix =
    let rest = strip_suffix s suffix in
    if (c ∷ s) =ᵗ suffix then some [] else elim rest [ none ↦ none | some base ↦ some (c ∷ base) ]

-- `Option::or_else` and `Option::and_then`.
unfoldable pub or_else {ℓ} : {A : Type ℓ} → Option A → Option A → Option A
or_else none other = other
or_else (some a) other = some a

unfoldable pub and_then {ℓ κ} : {A : Type ℓ} {B : Type κ} → Option A → (A → Option B) → Option B
and_then none f = none
and_then (some a) f = f a

unfoldable pub normalize_ai_language : Detector → Text → Option Text
unfolding and_then normalize sanitize_suffix
normalize_ai_language detector raw =
    let trimmed = trim raw in
    if is_empty trimmed || to_ascii_lowercase trimmed =ᵗ codes "und"
    then none
    else and_then (normalize detector (to_ascii_lowercase trimmed)) sanitize_suffix

unfoldable pub video_base_name : MediaFile → Text
unfolding strip_suffix
video_base_name video =
    if is_empty video.extension
    then video.name
    else elim (strip_suffix video.name (b'.' ∷ video.extension)) [
      | some base ↦ base
      | none ↦ video.name
    ]

-- The language tag, by precedence: the answer's suffix, its language, the subtitle's path.
unfoldable pub language_tag : {F : Type 0} → Detector → MediaFile → FileMatch F → Option Text
unfolding or_else and_then sanitize_suffix normalize_ai_language get_primary_language
language_tag detector subtitle ai_match =
    let ai_tag =
      or_else (and_then ai_match.target_filename_suffix sanitize_suffix)
        (and_then ai_match.language (normalize_ai_language detector)) in
    or_else ai_tag (get_primary_language detector subtitle.path.parent subtitle.path.file_name)

unfoldable pub tagged : Text → Text → Option Text → Text
tagged base extension (some code) = base ++ b'.' ∷ code ++ b'.' ∷ extension
tagged base extension none = base ++ b'.' ∷ extension

unfoldable pub generate_subtitle_name :
    {F : Type 0} → Detector → MediaFile → MediaFile → FileMatch F → Text
unfolding tagged video_base_name language_tag
generate_subtitle_name detector video subtitle ai_match =
    tagged (video_base_name video) subtitle.extension (language_tag detector subtitle ai_match)
