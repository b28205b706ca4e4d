-- ===== src/Matcher/Plan/Accounts.antt =====
-- src/core/matcher/engine.rs: what the planning makes of each match that the AI proposes.
use subx_core.Prelude.{◌≡◌, Bool, true, false, List, [], ◌∷◌, none, some, ◌⊎◌}
use subx_core.Language.{Detector}
use subx_core.Matcher.Types.{
  join, ◌=ᵈ◌, MediaFile, FileMatch, MatchOperation, FileRelocationMode, no_relocation, copy, move,
}
use subx_core.Matcher.Naming.{generate_subtitle_name}
use subx_core.Matcher.Plan.{
  MatchConfig, RejectedCandidate, below_threshold, id_not_found, path_of,
  find_media_file_by_id_or_path,
}

-- The target is absent, or stands in the directory of the video.
unfoldable pub Stays : {F : Type 0} → MatchOperation F → Type 0
Stays op = (op.requires_relocation ≡ false) × (op.relocation_target_path ≡ none)

unfoldable pub LeavesUnless : {F : Type 0} → Bool → MatchOperation F → Type 0
unfolding Stays
LeavesUnless true op = Stays op
LeavesUnless false op =
    (op.requires_relocation ≡ true)
    × (op.relocation_target_path ≡ some (join op.video_file.path.parent op.new_subtitle_name))

-- Only a mode that moves or copies asks for a target, for a subtitle in another directory.
unfoldable pub IsRelocated : {F : Type 0} → FileRelocationMode → MatchOperation F → Type 0
unfolding Stays LeavesUnless
IsRelocated no_relocation op = Stays op
IsRelocated copy op = LeavesUnless (op.subtitle_file.path.parent =ᵈ op.video_file.path.parent) op
IsRelocated move op = LeavesUnless (op.subtitle_file.path.parent =ᵈ op.video_file.path.parent) op

module _ {F : Type 0} (less : F → F → Bool) (config : MatchConfig F) (detector : Detector)
    (videos subtitles : List MediaFile) where
  -- The operation is that of the match: it reaches the threshold, its files are those that the two ids
  -- of the match name, and its name, confidence and reasons are of the match.
  unfoldable pub IsPlanned : FileMatch F → MatchOperation F → Type 0
  unfolding IsRelocated
  IsPlanned m op =
      (less m.confidence config.confidence_threshold ≡ false)
      × (find_media_file_by_id_or_path videos m.video_file_id none ≡ some op.video_file)
      × (find_media_file_by_id_or_path subtitles m.subtitle_file_id none ≡ some op.subtitle_file)
      × (op.new_subtitle_name ≡ generate_subtitle_name detector op.video_file op.subtitle_file m)
      × (op.confidence ≡ m.confidence)
      × (op.reasoning ≡ m.match_factors)
      × (op.relocation_mode ≡ config.relocation_mode)
      × IsRelocated config.relocation_mode op

  unfoldable pub IsReason : FileMatch F → RejectedCandidate F → Type 0
  IsReason m r =
      ((r.reason ≡ below_threshold) × (less m.confidence config.confidence_threshold ≡ true))
      ⊎ ((r.reason ≡ id_not_found)
          × (less m.confidence config.confidence_threshold ≡ false)
          × ((r.video_path ≡ none) ⊎ (r.subtitle_path ≡ none)))

  -- The candidate has the confidence of the match and the paths of those of its two files that were
  -- found, and it is below the threshold, or reaches it and lacks a file.
  unfoldable pub IsRefused : FileMatch F → RejectedCandidate F → Type 0
  unfolding IsReason
  IsRefused m r =
      (r.confidence ≡ m.confidence)
      × (r.video_path ≡ path_of (find_media_file_by_id_or_path videos m.video_file_id none))
      × (r.subtitle_path
          ≡ path_of (find_media_file_by_id_or_path subtitles m.subtitle_file_id none))
      × IsReason m r

  -- The operations and the rejections, each in the order of their matches.
  pub data Accounts
      : List (FileMatch F) → List (MatchOperation F) → List (RejectedCandidate F) → Type 0 where
    nothing : Accounts [] [] []
    planned :
        {m : FileMatch F} {ms : List (FileMatch F)} {op : MatchOperation F}
        {ops : List (MatchOperation F)} {rs : List (RejectedCandidate F)}
        → IsPlanned m op
        → Accounts ms ops rs
        → Accounts (m ∷ ms) (op ∷ ops) rs
    refused :
        {m : FileMatch F} {ms : List (FileMatch F)} {r : RejectedCandidate F}
        {ops : List (MatchOperation F)} {rs : List (RejectedCandidate F)}
        → IsRefused m r
        → Accounts ms ops rs
        → Accounts (m ∷ ms) ops (r ∷ rs)
