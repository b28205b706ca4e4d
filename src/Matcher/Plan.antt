-- ===== src/Matcher/Plan.antt =====
-- src/core/matcher/engine.rs, `match_file_list_with_audit`: from the files and the answer of the AI
-- to operations and rejections. What the disk, the cache and the AI give is an `Environment`.
pub mod Accounts
use subx_core.Prelude.{
  ℕ, Bool, true, false, not, ◌&&◌, ◌||◌, List, [], ◌∷◌, map, Option, none, some, Text, ◌=ᵗ◌,
  if◌then◌else◌, Result, ok, err, ◌>>=◌, ◌>>◌, codes,
}
use subx_core.Std.{is_empty}
use subx_core.Language.{Detector}
use subx_core.Matcher.Types.{
  PathBuf, join, ◌=ᵈ◌, MediaFile, video, subtitle, FileMatch, MatchOperation, FileRelocationMode,
  no_relocation, copy, move, ConflictResolution,
}
use subx_core.Matcher.Naming.{generate_subtitle_name}
use subx_core.Matcher.Batch.{apply_unique_target_paths}

pub record MatchConfig (F : Type 0) : Type 0 where
  pub confidence_threshold : F
  pub max_sample_length : ℕ
  pub enable_content_analysis : Bool
  pub backup_enabled : Bool
  pub relocation_mode : FileRelocationMode
  pub conflict_resolution : ConflictResolution
  pub ai_model : Text
  pub max_subtitle_bytes : ℕ

pub data RejectionReason : Type 0 where
  below_threshold id_not_found : RejectionReason

-- The paths are empty strings in the code where a file is not resolved.
pub record RejectedCandidate (F : Type 0) : Type 0 where
  pub video_path : Option PathBuf
  pub subtitle_path : Option PathBuf
  pub confidence : F
  pub reason : RejectionReason

pub record MatchAudit (F : Type 0) : Type 0 where
  pub operations : List (MatchOperation F)
  pub rejected : List (RejectedCandidate F)

-- `find` by one of the texts of a file.
unfoldable pub find_file : (MediaFile → Text) → List MediaFile → Text → Option MediaFile
find_file field [] value = none
find_file field (f ∷ files) value =
    let rest = find_file field files value in if field f =ᵗ value then some f else rest

unfoldable pub find_media_file_by_id_or_path :
    List MediaFile → Text → Option Text → Option MediaFile
unfolding find_file
find_media_file_by_id_or_path files file_id fallback_path =
    elim (find_file (λ f. f.id) files file_id) [
      | some f ↦ some f
      | none ↦ elim fallback_path [
        | none ↦ none
        | some path ↦ elim (find_file (λ f. f.relative_path) files path) [
          | some f ↦ some f
          | none ↦ find_file (λ f. f.name) files path
        ]
      ]
    ]

unfoldable pub path_of : Option MediaFile → Option PathBuf
path_of none = none
path_of (some f) = some f.path

unfoldable pub relocates : FileRelocationMode → Bool
relocates no_relocation = false
relocates copy = true
relocates move = true

unfoldable pub is_video : MediaFile → Bool
is_video f = elim f.file_type [ video ↦ true | subtitle ↦ false ]

unfoldable pub filter {ℓ} : {A : Type ℓ} → (A → Bool) → List A → List A
filter f [] = []
filter f (x ∷ xs) = let rest = filter f xs in if f x then x ∷ rest else rest

-- The test of the mode and of the directories of a video and a subtitle.
unfoldable pub relocation_of : FileRelocationMode → PathBuf → PathBuf → Bool
unfolding relocates
relocation_of mode v s = relocates mode && not (s.parent =ᵈ v.parent)

module _ {F : Type 0} (less : F → F → Bool) (detector : Detector) (config : MatchConfig F) where
  unfoldable pub requires_relocation_of : MediaFile → MediaFile → Bool
  unfolding relocation_of
  requires_relocation_of v s = relocation_of config.relocation_mode v.path s.path

  unfoldable pub accept : MediaFile → MediaFile → FileMatch F → MatchOperation F
  unfolding requires_relocation_of join generate_subtitle_name
  accept v s ai_match =
      let new_name = generate_subtitle_name detector v s ai_match in
      let requires_relocation = requires_relocation_of v s in
      record {
        video_file = v;
        subtitle_file = s;
        new_subtitle_name = new_name;
        confidence = ai_match.confidence;
        reasoning = ai_match.match_factors;
        relocation_mode = config.relocation_mode;
        relocation_target_path =
            if requires_relocation then some (join v.path.parent new_name) else none;
        requires_relocation = requires_relocation;
      }

  unfoldable pub reject :
      Option MediaFile → Option MediaFile → FileMatch F → RejectionReason → RejectedCandidate F
  unfolding path_of
  reject v s ai_match reason = record {
    video_path = path_of v;
    subtitle_path = path_of s;
    confidence = ai_match.confidence;
    reason = reason;
  }

  unfoldable pub push_operation : MatchOperation F → MatchAudit F → MatchAudit F
  push_operation op audit = record audit { operations = op ∷ audit.operations }

  unfoldable pub push_rejected : RejectedCandidate F → MatchAudit F → MatchAudit F
  push_rejected r audit = record audit { rejected = r ∷ audit.rejected }

  -- One round of the loop over the matches, in front of what the later rounds push.
  unfoldable pub plan_match :
      List MediaFile → List MediaFile → FileMatch F → MatchAudit F → MatchAudit F
  unfolding find_media_file_by_id_or_path accept reject push_operation push_rejected
  plan_match videos subtitles ai_match audit =
      let video_match = find_media_file_by_id_or_path videos ai_match.video_file_id none in
      let subtitle_match = find_media_file_by_id_or_path subtitles ai_match.subtitle_file_id none in
      if less ai_match.confidence config.confidence_threshold
      then push_rejected (reject video_match subtitle_match ai_match below_threshold) audit
      else elim video_match [
        | none ↦ push_rejected (reject none subtitle_match ai_match id_not_found) audit
        | some v ↦ elim subtitle_match [
          | none ↦ push_rejected (reject (some v) none ai_match id_not_found) audit
          | some s ↦ push_operation (accept v s ai_match) audit
        ]
      ]

  unfoldable pub plan_matches : List MediaFile → List MediaFile → List (FileMatch F) → MatchAudit F
  unfolding plan_match
  plan_matches videos subtitles [] = record { operations = []; rejected = [] }
  plan_matches videos subtitles (m ∷ matches) =
      plan_match videos subtitles m (plan_matches videos subtitles matches)

-- What the calls outside the planning return, with errors of a type `E`.
pub record Environment (F E : Type 0) : Type 0 where
  pub scan_file_list : Result E (List MediaFile)
  pub check_file_list_cache : Result E (Option (List (MatchOperation F)))
  pub extract_content_samples : List MediaFile → Result E (List Text)
  pub analyze_content : List MediaFile → List MediaFile → List Text → Result E (List (FileMatch F))
  pub save_file_list_cache : List (MatchOperation F) → Result E (Unit {0})
  pub disk : List PathBuf

unfoldable pub match_file_list_with_audit :
    {F E : Type 0}
    → (F → F → Bool)
    → Detector
    → MatchConfig F
    → Environment F E
    → Result E (MatchAudit F)
unfolding filter is_video plan_matches apply_unique_target_paths
match_file_list_with_audit less detector config env = env.scan_file_list >>= λ files.
    let videos = filter is_video files in
    let subtitles = filter (λ f. not (is_video f)) files in
    if is_empty videos || is_empty subtitles
    then ok (record { operations = []; rejected = [] })
    else env.check_file_list_cache >>= λ cached. elim cached [
      | some ops ↦ ok (record { operations = ops; rejected = [] })
      | none ↦
          (if config.enable_content_analysis then env.extract_content_samples subtitles else ok [])
          >>= λ samples. env.analyze_content videos subtitles samples >>= λ matches.
              let planned = plan_matches less detector config videos subtitles matches in
              let operations = apply_unique_target_paths env.disk planned.operations in
              env.save_file_list_cache operations
              >> ok (record { operations = operations; rejected = planned.rejected })
    ]
