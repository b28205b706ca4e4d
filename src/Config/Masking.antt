-- ===== src/Config/Masking.antt =====
-- src/config/masking.rs: what is shown of the value of a sensitive key.
use subx_core.Prelude.{
  ◌<◌, ◌≡◌, refl, arith, Bool, true, false, ◌||◌, [], ◌∷◌, ◌++◌, Text, codes, leb, if◌then◌else◌,
  length, reverse, take, length-append, lt→leb, ◌≢◌,
}
use mathlib.Core.List.{reverse-append}
use subx_core.Std.{is_empty, starts_with}
use subx_core.Config.Platform.{Platform}

-- `str::contains` of a text.
unfoldable pub has_text : Text → Text → Bool
has_text [] t = starts_with [] t
has_text (c ∷ s) t = starts_with (c ∷ s) t || has_text s t

-- `chars().rev().take(4)` and back again.
unfoldable pub tail_chars : Text → Text
tail_chars value = reverse (take 4 (reverse value))

module _ (p : Platform) where
  unfoldable pub is_sensitive : Text → Bool
  unfolding has_text
  is_sensitive key =
      let key_lower = p.to_lowercase key in
      has_text key_lower (codes "api_key")
      || has_text key_lower (codes "token")
      || has_text key_lower (codes "secret")

  unfoldable pub mask_sensitive_value : Text → Text → Text
  unfolding is_sensitive tail_chars
  mask_sensitive_value key value =
      if is_sensitive key
      then (if is_empty value
          then []
          else if leb (length value) 4
          then codes "****"
          else codes "****" ++ tail_chars value)
      else value

four_last : (front tail : Text) → length tail ≡ 4 → tail_chars (front ++ tail) ≡ tail
unfolding tail_chars
four_last front [] h = absurd (omega arith)
four_last front (a ∷ []) h = absurd (omega arith)
four_last front (a ∷ b ∷ []) h = absurd (omega arith)
four_last front (a ∷ b ∷ c ∷ []) h = absurd (omega arith)
four_last front (a ∷ b ∷ c ∷ d ∷ []) h = rw (reverse-append front (a ∷ b ∷ c ∷ d ∷ []))
four_last front (a ∷ b ∷ c ∷ d ∷ e ∷ tail) h = absurd (omega arith)

longer : (front tail : Text) → front ≢ [] → length tail ≡ 4 → 4 < length (front ++ tail)
longer [] tail h n = absurd (h refl)
longer (c ∷ front) tail h n = omega (arith, length-append front tail)

nonempty-append : (front tail : Text) → length tail ≡ 4 → is_empty (front ++ tail) ≡ false
unfolding is_empty
nonempty-append [] [] n = absurd (omega arith)
nonempty-append [] (c ∷ tail) n = refl
nonempty-append (c ∷ front) tail n = refl

-- For a sensitive key, all that is shown of a value of more than four characters is its last four
-- behind four stars, whatever stands in front of them; a value of just four characters is not shown.
pub mask_sensitive_value-hides :
    (p : Platform) (key front tail : Text)
    → is_sensitive p key ≡ true
    → front ≢ []
    → length tail ≡ 4
    → (mask_sensitive_value p key (front ++ tail) ≡ codes "****" ++ tail)
      × (mask_sensitive_value p key tail ≡ codes "****")
unfolding mask_sensitive_value
mask_sensitive_value-hides p key front tail h ne n = (
  rw (
    h,
    nonempty-append front tail n,
    lt→leb (length (front ++ tail)) 4 (longer front tail ne n),
    four_last front tail n,
  ),
  rw (h, nonempty-append [] tail n, n),
)
