-- ===== src/Sync/Tests.antt =====
-- Shifts of src/core/sync/mod.rs on two entries.
use subx_core.Prelude.{
  ℕ, ◌≡◌, refl, true, false, List, [], ◌∷◌, map, length, codes, some, none, ◌↔◌, ◌≢◌,
}
use subx_core.Formats.Types.{SubtitleEntry, has_overlaps}
use subx_core.Sync.{delay_entry, delay_entries, advance_entry, shift_subtitle_timing}
use subx_core.Sync.Shift.{
  Fits, delayed, shift_subtitle_timing-undo, shift_subtitle_timing-has_overlaps,
  shift_subtitle_timing-Fits,
}

abbrev cue : ℕ → ℕ → SubtitleEntry
cue start end = record { index = 1; start_time = start; end_time = end; text = codes "Hi" }

abbrev two : List SubtitleEntry
two = cue 10 20 ∷ cue 20 35 ∷ []

abbrev two_later : List SubtitleEntry
two_later = cue 15 25 ∷ cue 25 40 ∷ []

forwards : shift_subtitle_timing true (some 5) two ≡ some (two_later, true)
unfolding shift_subtitle_timing delay_entries delay_entry
forwards = refl

apart : has_overlaps two ≡ false
unfolding has_overlaps
apart = refl

shift_subtitle_timing-undo_example :
    shift_subtitle_timing false (some 5) two_later ≡ some (two, true)
shift_subtitle_timing-undo_example = shift_subtitle_timing-undo 5 two two_later forwards

shift_subtitle_timing-has_overlaps_example :
    (has_overlaps two_later ≡ false) × (length two_later ≡ 2)
shift_subtitle_timing-has_overlaps_example =
    shift_subtitle_timing-has_overlaps true 5 two two_later apart forwards

shift_subtitle_timing-Fits_example :
    (shift_subtitle_timing false (some 5) two ≡ some (map (advance_entry 5) two, true))
    × ((shift_subtitle_timing true (some 5) two ≡ some (map (delayed 5) two, true)) ↔ Fits 5 two)
    × (((es' : List SubtitleEntry) × (shift_subtitle_timing true (some 5) two ≡ some (es', true)))
        ↔ Fits 5 two)
    × ((shift_subtitle_timing true none two ≡ none) ↔ (two ≢ []))
shift_subtitle_timing-Fits_example = shift_subtitle_timing-Fits 5 true two
