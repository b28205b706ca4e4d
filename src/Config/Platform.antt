-- ===== src/Config/Platform.antt =====
-- What the configuration code takes from elsewhere: `f32` of the platform, `url::Url::parse` of the
-- url crate and the Unicode tables behind `to_lowercase`.
use subx_core.Prelude.{ℕ, Bool, ◌≡◌, Option, some, Text}

pub record Platform : Type 1 where
  -- `f32`: its `parse`, its `to_string` and its two comparisons; a comparison with NaN fails.
  pub Float : Type 0
  pub parse_float : Text → Option Float
  pub show_float : Float → Text
  pub lt : Float → Float → Bool
  pub le : Float → Float → Bool
  -- The literal of a number of hundredths.
  pub hundredths : ℕ → Float
  -- `str::to_lowercase`
  pub to_lowercase : Text → Text
  -- The scheme of the URL that `Url::parse` reads.
  pub url_scheme : Text → Option Text

-- The `Display` of a finite `f32` is read back by `parse` as the same number.
abbrev pub ShowReads : (p : Platform) → Platform.Float p → Type 0
ShowReads p x = p.parse_float (p.show_float x) ≡ some x
