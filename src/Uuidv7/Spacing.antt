-- ===== src/Uuidv7/Spacing.antt =====
-- The spacing of the identifiers of src/core/uuidv7.rs, and the end of its loop.
use subx_core.Prelude.{ℕ, zero, suc, ◌+◌, ◌-◌, ◌<◌, ◌⊎◌, List, [], ◌∷◌, Option, none, some}
use subx_core.Uuidv7.{Uuid, Clock, unix_time_ms}

-- After the last time stamp, and each after the one before.
abbrev pub Increasing : Option ℕ → List Uuid → Type 0
Increasing last [] = Unit {0}
Increasing none (id ∷ ids) = Increasing (some (unix_time_ms id)) ids
Increasing (some last) (id ∷ ids) =
    (last < unix_time_ms id) × Increasing (some (unix_time_ms id)) ids

abbrev pub After : Option ℕ → Uuid → Type 0
After none id = Unit {0}
After (some last) id = last < unix_time_ms id

module _ (clock : Clock) where
  -- One of the next `rounds` readings of the loop of `next_id` is later than `last`.
  unfoldable pub CatchesUp : ℕ → ℕ → Clock.State clock → Type 0
  CatchesUp zero last st = ⊥
  CatchesUp (suc rounds) last st =
      (last < unix_time_ms (clock.now_v7 st).0)
      ⊎ CatchesUp rounds last
          (clock.sleep (last - unix_time_ms (clock.now_v7 st).0 + 1) (clock.now_v7 st).1)

  -- However the clock is set, it passes every time stamp within so many sleeps of the loop.
  abbrev pub KeepsUp : ℕ → Type 0
  KeepsUp rounds = (last : ℕ) (st : Clock.State clock) → CatchesUp rounds last st
