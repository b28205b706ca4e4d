-- ===== src/Sync/Shift.antt =====
-- What a shift of src/core/sync/mod.rs keeps, and what undoes it.
use subx_core.Prelude.{
  ℕ, ◌+◌, ◌≤◌, ◌≡◌, refl, sym, ap, ap₂, ◌∙◌, arith, Bool, true, false, List, [], ◌∷◌, map, length,
  none, some, ◌↔◌, ◌≢◌, length-map,
}
use subx_core.Formats.Types.{SubtitleEntry, max_duration, has_overlaps}
use subx_core.Sync.{delay_entry, delay_entries, earlier, advance_entry, shift_subtitle_timing}

abbrev pub delayed : ℕ → SubtitleEntry → SubtitleEntry
delayed offset e = record e { start_time = e.start_time + offset; end_time = e.end_time + offset }

-- A delay that succeeds moves every entry.
delay_entries-moves :
    (offset : ℕ) (es es' : List SubtitleEntry)
    → delay_entries offset es ≡ (es', true)
    → es' ≡ map (delayed offset) es
unfolding delay_entries delay_entry
delay_entries-moves offset [] es' h = ground arith
delay_entries-moves offset (e ∷ es) es' h =
    by_rest (delay_entries offset es) refl (delay_entries-moves offset es)
  where
    by_rest :
        (r : List SubtitleEntry × Bool)
        → delay_entries offset es ≡ r
        → ((es1 : List SubtitleEntry)
            → delay_entries offset es ≡ (es1, true)
            → es1 ≡ map (delayed offset) es)
        → es' ≡ delayed offset e ∷ map (delayed offset) es
    by_rest (es1, true) r ih = ground (arith, ih es1 r)
    by_rest (es1, false) r ih = absurd (ground arith)

earlier-later : (offset t : ℕ) → earlier offset (t + offset) ≡ t
unfolding earlier
earlier-later offset t = ground arith

advance-delayed : (offset : ℕ) (e : SubtitleEntry) → advance_entry offset (delayed offset e) ≡ e
unfolding advance_entry
advance-delayed offset e =
    rw (earlier-later offset e.start_time, earlier-later offset e.end_time) refl

advance-delayed_all :
    (offset : ℕ) (es : List SubtitleEntry)
    → map (advance_entry offset) (map (delayed offset) es) ≡ es
advance-delayed_all offset [] = refl
advance-delayed_all offset (e ∷ es) =
    ap₂ ◌∷◌ (advance-delayed offset e) (advance-delayed_all offset es)

-- A shift forwards that succeeds is undone, entry by entry, by the shift backwards by the same offset.
pub shift_subtitle_timing-undo :
    (offset : ℕ) (es es' : List SubtitleEntry)
    → shift_subtitle_timing true (some offset) es ≡ some (es', true)
    → shift_subtitle_timing false (some offset) es' ≡ some (es, true)
unfolding shift_subtitle_timing
shift_subtitle_timing-undo offset es es' h =
    ap (λ x. some (x, true))
      (ap (map (advance_entry offset)) (delay_entries-moves offset es es' (ground (arith, h)))
        ∙ advance-delayed_all offset es)

delayed-has_overlaps :
    (offset : ℕ) (es : List SubtitleEntry)
    → has_overlaps (map (delayed offset) es) ≡ has_overlaps es
unfolding has_overlaps
delayed-has_overlaps offset [] = refl
delayed-has_overlaps offset (e ∷ []) = refl
delayed-has_overlaps offset (e ∷ f ∷ rest) = ground (arith, delayed-has_overlaps offset (f ∷ rest))

advance-has_overlaps :
    (offset : ℕ) (es : List SubtitleEntry)
    → has_overlaps es ≡ false
    → has_overlaps (map (advance_entry offset) es) ≡ false
unfolding has_overlaps advance_entry earlier
advance-has_overlaps offset [] h = refl
advance-has_overlaps offset (e ∷ []) h = refl
advance-has_overlaps offset (e ∷ f ∷ rest) h =
    ground (arith, advance-has_overlaps offset (f ∷ rest))

-- A shift that succeeds, in either direction, gives as many entries as there were and brings no overlap
-- into a subtitle that had none.
pub shift_subtitle_timing-has_overlaps :
    (forward : Bool) (offset : ℕ) (es es' : List SubtitleEntry)
    → has_overlaps es ≡ false
    → shift_subtitle_timing forward (some offset) es ≡ some (es', true)
    → (has_overlaps es' ≡ false) × (length es' ≡ length es)
unfolding shift_subtitle_timing
shift_subtitle_timing-has_overlaps true offset es es' n h =
    let moved = delay_entries-moves offset es es' (ground (arith, h)) in
    (
      ap has_overlaps moved ∙ (delayed-has_overlaps offset es ∙ n),
      ap length moved ∙ length-map es (delayed offset),
    )
shift_subtitle_timing-has_overlaps false offset es es' n h =
    let moved : map (advance_entry offset) es ≡ es' = ground (arith, h) in
    (
      ap has_overlaps (sym moved) ∙ advance-has_overlaps offset es n,
      ap length (sym moved) ∙ length-map es (advance_entry offset),
    )

-- The entries fit when no end and no start leaves the range of a duration.
abbrev pub Fits : ℕ → List SubtitleEntry → Type 0
Fits offset [] = Unit {0}
Fits offset (e ∷ es) =
    (e.start_time + offset ≤ max_duration) × (e.end_time + offset ≤ max_duration) × Fits offset es

delay_entries-Fits :
    (offset : ℕ) (es : List SubtitleEntry)
    → Fits offset es
    → delay_entries offset es ≡ (map (delayed offset) es, true)
delay_entries-Fits offset [] fits = unfold delay_entries in refl
delay_entries-Fits offset (e ∷ es) fits =
    one_more_entry e es fits (delay_entries-Fits offset es fits.2)
  where
    one_more_entry :
        (e : SubtitleEntry) (es : List SubtitleEntry)
        → Fits offset (e ∷ es)
        → delay_entries offset es ≡ (map (delayed offset) es, true)
        → delay_entries offset (e ∷ es) ≡ (map (delayed offset) (e ∷ es), true)
    one_more_entry e es fits ih = unfold delay_entries delay_entry in ground arith

-- A delay that succeeds found every time in range.
delay_entries-fitted :
    (offset : ℕ) (es es' : List SubtitleEntry)
    → delay_entries offset es ≡ (es', true)
    → Fits offset es
unfolding delay_entries delay_entry
delay_entries-fitted offset [] es' h = tt
delay_entries-fitted offset (e ∷ es) es' h =
    by_rest (delay_entries offset es) refl (delay_entries-fitted offset es)
  where
    by_rest :
        (r : List SubtitleEntry × Bool)
        → delay_entries offset es ≡ r
        → ((es1 : List SubtitleEntry) → delay_entries offset es ≡ (es1, true) → Fits offset es)
        → Fits offset (e ∷ es)
    by_rest (es1, true) r ih = (ground (arith, h, r), ground (arith, h, r), ih es1 r)
    by_rest (es1, false) r ih = absurd (ground (arith, h, r))

-- Without an offset the call panics in the first round of the loop, if there is one.
no_offset :
    (forward : Bool) (es : List SubtitleEntry)
    → (shift_subtitle_timing forward none es ≡ none) ↔ (es ≢ [])
unfolding shift_subtitle_timing
no_offset forward [] = (λ h. absurd (ground (arith, h)), λ n. absurd (n refl))
no_offset forward (e ∷ es) = (λ h. λ n. ground (arith, n), λ n. refl)

-- With an offset that is a duration a shift backwards succeeds, and a shift forwards succeeds exactly
-- when both times of every entry stay durations; every entry is then moved by the offset. With any
-- other offset the call panics exactly when there is an entry.
pub shift_subtitle_timing-Fits :
    (offset : ℕ) (forward : Bool) (es : List SubtitleEntry)
    → (shift_subtitle_timing false (some offset) es ≡ some (map (advance_entry offset) es, true))
      × ((shift_subtitle_timing true (some offset) es ≡ some (map (delayed offset) es, true))
          ↔ Fits offset es)
      × (((es' : List SubtitleEntry) × (shift_subtitle_timing true (some offset) es
              ≡ some (es', true)))
          ↔ Fits offset es)
      × ((shift_subtitle_timing forward none es ≡ none) ↔ (es ≢ []))
unfolding shift_subtitle_timing
shift_subtitle_timing-Fits offset forward es = (
  refl,
  (
    λ h. delay_entries-fitted offset es (map (delayed offset) es) (ground (arith, h)),
    λ fits. ap some (delay_entries-Fits offset es fits),
  ),
  (
    λ r. delay_entries-fitted offset es r.0 (ground (arith, r.1)),
    λ fits. (map (delayed offset) es, ap some (delay_entries-Fits offset es fits)),
  ),
  no_offset forward es,
)
