-- ===== src/Sync.antt =====
-- src/core/sync/mod.rs: the manual shift of a subtitle. The offset comes as its sign and its absolute
-- value in nanoseconds, as `Duration::from_secs_f32` gives it, which is absent where that panics. The entries are changed in place, so a
-- failing shift returns what it has changed until then.
pub mod Shift
pub mod Tests
use subx_core.Prelude.{
  ℕ, ◌+◌, ◌-◌, Bool, true, false, List, [], ◌∷◌, map, Option, none, some, ltb, if◌then◌else◌,
}
use subx_core.Formats.Types.{SubtitleEntry, max_duration}

-- Both times of an entry forwards; `false` is the error of `checked_add`, for the end after the
-- start has been written.
unfoldable pub delay_entry : ℕ → SubtitleEntry → SubtitleEntry × Bool
delay_entry offset e =
    let moved = record e { start_time = e.start_time + offset } in
    if ltb max_duration (e.start_time + offset)
    then (e, false)
    else if ltb max_duration (e.end_time + offset)
    then (moved, false)
    else (record moved { end_time = e.end_time + offset }, true)

unfoldable pub delay_entries : ℕ → List SubtitleEntry → List SubtitleEntry × Bool
unfolding delay_entry
delay_entries offset [] = ([], true)
delay_entries offset (e ∷ es) =
    let rest = delay_entries offset es in
    let (e', done) = delay_entry offset e in
    if done then (e' ∷ rest.0, rest.1) else (e' ∷ es, false)

-- `if time > offset_dur { time - offset_dur } else { Duration::ZERO }`
unfoldable pub earlier : ℕ → ℕ → ℕ
earlier offset time = if ltb offset time then time - offset else 0

unfoldable pub advance_entry : ℕ → SubtitleEntry → SubtitleEntry
unfolding earlier
advance_entry offset e = record e {
  start_time = earlier offset e.start_time;
  end_time = earlier offset e.end_time;
}

-- The shift forwards or backwards, or the panic of `Duration::from_secs_f32` in the first round of the
-- loop, on a NaN or an offset that is no duration.
unfoldable pub shift_subtitle_timing :
    Bool → Option ℕ → List SubtitleEntry → Option (List SubtitleEntry × Bool)
unfolding delay_entries advance_entry
shift_subtitle_timing forward none [] = some ([], true)
shift_subtitle_timing forward none (e ∷ es) = none
shift_subtitle_timing true (some offset) es = some (delay_entries offset es)
shift_subtitle_timing false (some offset) es = some (map (advance_entry offset) es, true)
