-- ===== src/Matcher/Tests.antt =====
-- Runs of src/core/matcher on small batches.
pub mod Planning
pub mod Execution
pub mod Cached
use subx_core.Prelude.{
  ℕ, ◌≡◌, ◌≢◌, refl, Bool, true, false, List, [], ◌∷◌, map, Option, none, some, Text, codes, ◌=ᵗ◌,
  arith, get_elem?,
}
use subx_core.Matcher.Types.{
  PathBuf, join, MediaFile, video, subtitle, MatchOperation, no_relocation, copy, has_path, ◌=ᵖ◌,
  ◌=ᵈ◌,
}
use subx_core.Std.{is_empty, show_uint, print_digits, parse_uint, digits_from, scan_digits}
use subx_core.Matcher.Names.{rsplit_dot, start_counter, all, is_ascii_digit}
use subx_core.Matcher.Targets.{first_counter, numbered}
use subx_core.Matcher.Batch.{final_target, apply_unique_target_paths}
use subx_core.Matcher.Batch.Distinct.{IsSettled}
use subx_core.Matcher.Batch.Unique.{HasCounters, IsSmall, apply_unique_target_paths-distinct}
use subx_core.Matcher.Batch.Stable.{
  apply_unique_target_paths-IsSettled, apply_unique_target_paths-idempotent,
}

abbrev pub file : Text → Text → Text → MediaFile
file dir name ext = record {
  id = name;
  path = record { parent = dir ∷ []; file_name = name };
  file_type = subtitle;
  size = 1;
  name = name;
  extension = ext;
  relative_path = name;
}

abbrev pub rename_to : Text → Text → MatchOperation ℕ
rename_to name new_name = record {
  video_file = file (codes "v") (codes "m.mkv") (codes "mkv");
  subtitle_file = file (codes "s") name (codes "srt");
  new_subtitle_name = new_name;
  confidence = 90;
  reasoning = [];
  relocation_mode = no_relocation;
  relocation_target_path = none;
  requires_relocation = false;
}

-- Two subtitles of one film, and a third that already holds the second name.
abbrev pub batch : List (MatchOperation ℕ)
batch =
    rename_to (codes "b.srt") (codes "m.srt")
    ∷ rename_to (codes "a.srt") (codes "m.srt")
    ∷ rename_to (codes "c.srt") (codes "m.2.srt")
    ∷ []

abbrev disk : List PathBuf
disk = map (λ op. op.subtitle_file.path) batch

targets_of_batch :
    map (λ op. op.new_subtitle_name) (apply_unique_target_paths disk batch)
    ≡ codes "m.3.srt" ∷ codes "m.srt" ∷ codes "m.2.srt" ∷ []
unfolding apply_unique_target_paths has_path ◌=ᵖ◌ ◌=ᵈ◌ ◌=ᵗ◌ numbered rsplit_dot is_empty show_uint
    print_digits first_counter start_counter
targets_of_batch = refl

batch-IsSmall : IsSmall disk batch
unfolding IsSmall final_target first_counter rsplit_dot is_empty start_counter all is_ascii_digit
    parse_uint digits_from scan_digits
batch-IsSmall = (omega arith, (omega arith, (omega arith, tt)))

apply_unique_target_paths-distinct_example :
    final_target (rename_to (codes "b.srt") (codes "m.3.srt"))
    ≢ final_target (rename_to (codes "a.srt") (codes "m.srt"))
unfolding apply_unique_target_paths has_path ◌=ᵖ◌ ◌=ᵈ◌ ◌=ᵗ◌ numbered rsplit_dot is_empty show_uint
    print_digits first_counter start_counter
apply_unique_target_paths-distinct_example =
    apply_unique_target_paths-distinct disk batch 0 1 (rename_to (codes "b.srt") (codes "m.3.srt"))
      (rename_to (codes "a.srt") (codes "m.srt")) batch-IsSmall (omega arith) refl refl

apply_unique_target_paths-IsSettled_example :
    (out : MatchOperation ℕ) × (get_elem? (apply_unique_target_paths disk batch) 0 ≡ some out)
    × IsSettled disk (rename_to (codes "b.srt") (codes "m.srt")) out
apply_unique_target_paths-IsSettled_example =
    apply_unique_target_paths-IsSettled disk batch 0 (rename_to (codes "b.srt") (codes "m.srt"))
      batch-IsSmall refl

apply_unique_target_paths-idempotent_example :
    apply_unique_target_paths disk (apply_unique_target_paths disk batch)
    ≡ apply_unique_target_paths disk batch
apply_unique_target_paths-idempotent_example =
    apply_unique_target_paths-idempotent disk batch batch-IsSmall
