-- ===== src/Matcher/Tests/Planning.antt =====
-- Runs of the planning of src/core/matcher/engine.rs.
use subx_core.Prelude.{
  List, ℕ, ◌≡◌, refl, true, false, [], ◌∷◌, Option, none, some, Text, codes, ◌=ᵗ◌,
}
use subx_core.Std.{to_ascii_lowercase, ascii_lower, is_empty}
use subx_core.Language.{Detector, language_codes, get}
use subx_core.Matcher.Types.{MediaFile, FileMatch, no_relocation, auto_rename}
use subx_core.Matcher.Names.{all, is_suffix_char, is_ascii_digit, len, len_utf8}
use subx_core.Matcher.Naming.{strip_suffix, generate_subtitle_name}
use subx_core.Matcher.Naming.Safe.{is_free, generate_subtitle_name-free}
use subx_core.Matcher.Plan.{MatchConfig}
use subx_core.Matcher.Plan.Accounts.{Accounts}
use subx_core.Matcher.Tests.{file}

abbrev pub ascii_detector : Detector
ascii_detector = record { to_lowercase = to_ascii_lowercase; captures = [] }

abbrev pub config : MatchConfig ℕ
config = record {
  confidence_threshold = 80;
  max_sample_length = 1000;
  enable_content_analysis = false;
  backup_enabled = false;
  relocation_mode = no_relocation;
  conflict_resolution = auto_rename;
  ai_model = codes "m";
  max_subtitle_bytes = 1000;
}

abbrev proposal : Text → ℕ → Option Text → FileMatch ℕ
proposal id confidence suffix = record {
  video_file_id = codes "m.mkv";
  subtitle_file_id = id;
  confidence = confidence;
  match_factors = [];
  language = none;
  target_filename_suffix = suffix;
}

abbrev film : MediaFile
film = file (codes "v") (codes "m.mkv") (codes "mkv")

abbrev subs : MediaFile
subs = file (codes "s") (codes "a.srt") (codes "srt")

-- A suffix that climbs out of the directory is dropped.
climbing_suffix :
    generate_subtitle_name ascii_detector film subs
      (proposal (codes "a.srt") 90 (some (codes "../x")))
    ≡ codes "m.srt"
unfolding generate_subtitle_name is_empty len len_utf8 all is_suffix_char is_ascii_digit
    strip_suffix ◌=ᵗ◌ language_codes get ascii_lower to_ascii_lowercase
climbing_suffix = refl

-- A name whose extension is in capitals keeps it: the extension is recorded in small letters.
capital_extension :
    generate_subtitle_name ascii_detector
      (file (codes "v") (codes "M.MKV") (codes "mkv"))
      subs
      (proposal (codes "a.srt") 90 none)
    ≡ codes "M.MKV.srt"
unfolding generate_subtitle_name is_empty len len_utf8 all is_suffix_char is_ascii_digit
    strip_suffix ◌=ᵗ◌ language_codes get ascii_lower to_ascii_lowercase
capital_extension = refl

generate_subtitle_name-free_example :
    is_free b'/' (
      generate_subtitle_name ascii_detector film subs
        (proposal (codes "a.srt") 90 (some (codes "../x"))))
    ≡ true
unfolding is_free all is_suffix_char is_ascii_digit
generate_subtitle_name-free_example =
    generate_subtitle_name-free ascii_detector film subs
      (proposal (codes "a.srt") 90 (some (codes "../x"))) b'/' refl refl refl refl

-- One match is accepted, one is below the threshold, one names no file.
abbrev proposals : List (FileMatch ℕ)
proposals =
    proposal (codes "a.srt") 90 none
    ∷ proposal (codes "a.srt") 50 none
    ∷ proposal (codes "b.srt") 90 none
    ∷ []
