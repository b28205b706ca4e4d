-- ===== src/Config/Service/Refusals.antt =====
-- Where the validators of src/config disagree: two overflow strategies, and NaN.
use subx_core.Prelude.{
  ℕ, zero, suc, List, drop, false, some, Text, codes, [], ◌∷◌, ◌≡◌, ◌≢◌, ◌⊎◌, inl, inr, refl, arith,
  ok, err, ◌=ᵗ◌,
}
use subx_core.Std.{contains}
use subx_core.Config.Platform.{Platform}
use subx_core.Config.Types.{OverflowStrategy, drop_oldest, reject, VadConfig, Config}
use subx_core.Config.Values.{
  not_allowed, out_of_range, validate_enum, validate_float_range, validate_temperature,
}
use subx_core.Config.Field.{
  Field, ai_temperature, parallel_overflow_strategy, sync_max_offset_seconds, sync_vad_sensitivity,
  formats_encoding_detection_confidence, debug_strategy, key_table,
}
use subx_core.Config.Checks.{
  strategies, validate_value, validate_float, field_text, check_text, check_fields,
  validate_all_fields,
}
use subx_core.Config.Validator.{validate_config, validate_parallel_config, validate_vad_config}

abbrev pub with_strategy : (p : Platform) → Config p → OverflowStrategy → Config p
with_strategy p c s = record c { parallel = record (c.parallel) { overflow_strategy = s } }

module _ (p : Platform) where
  check_fields-drop :
      (n : ℕ) (fields : List (Text × Field)) (c : Config p)
      → check_fields p fields c ≡ ok tt
      → check_fields p (drop n fields) c ≡ ok tt
  unfolding check_fields
  check_fields-drop zero fields c h = h
  check_fields-drop (suc n) [] c h = refl
  check_fields-drop (suc n) ((name, f) ∷ rest) c h = ground (arith, check_fields-drop n rest c)

  checked_head :
      (name : Text) (f : Field) (rest : List (Text × Field)) (c : Config p)
      → check_fields p ((name, f) ∷ rest) c ≡ ok tt
      → check_text p f (field_text p c f) ≡ ok tt
  unfolding check_fields
  checked_head name f rest c h = ground arith

  checked_strategy :
      (c : Config p)
      → validate_all_fields p c ≡ ok tt
      → check_text p parallel_overflow_strategy (field_text p c parallel_overflow_strategy) ≡ ok tt
  unfolding validate_all_fields
  checked_strategy c h =
      checked_head (codes "parallel.overflow_strategy") parallel_overflow_strategy
        (drop 33 key_table) c (check_fields-drop 32 key_table c h)

  refused_name :
      (s : OverflowStrategy)
      → (s ≡ drop_oldest) ⊎ (s ≡ reject)
      → validate_enum (debug_strategy s) strategies ≡ err not_allowed
  unfolding validate_enum contains debug_strategy ◌=ᵗ◌
  refused_name s (inl e) = rw e refl
  refused_name s (inr e) = rw e refl

  -- Changing the strategy of a configuration to `DropOldest` or `Reject` leaves the outcome of the
  -- strict validation as it was, and yet the result never passes the field checks of
  -- `load_for_repair`.
  pub validate_all_fields-refuses :
      (c : Config p) (s : OverflowStrategy)
      → (s ≡ drop_oldest) ⊎ (s ≡ reject)
      → (validate_config p (with_strategy p c s) ≡ validate_config p c)
        × (validate_all_fields p (with_strategy p c s) ≢ ok tt)
  unfolding validate_config validate_parallel_config check_text field_text validate_value
  validate_all_fields-refuses c s h = (
    refl,
    λ loads. ground (arith, checked_strategy (with_strategy p c s) loads, refused_name s h),
  )

  -- A number that compares with nothing, as NaN does.
  abbrev Unordered : Platform.Float p → Type 0
  Unordered x =
      (y : Platform.Float p)
      → (p.lt x y ≡ false) × (p.lt y x ≡ false) × (p.le x y ≡ false) × (p.le y x ≡ false)

  -- A text that `f32` reads as an unordered number passes every range check on a fractional key;
  -- the strict check of the sensitivity refuses it.
  pub validate_value-Unordered :
      (v : Text) (x : Platform.Float p) (vad : VadConfig p)
      → p.parse_float v ≡ some x
      → Unordered x
      → vad.sensitivity ≡ x
      → (validate_value p ai_temperature v ≡ ok tt)
        × (validate_value p sync_max_offset_seconds v ≡ ok tt)
        × (validate_value p formats_encoding_detection_confidence v ≡ ok tt)
        × (validate_value p sync_vad_sensitivity v ≡ ok tt)
        × (validate_vad_config p vad ≡ err out_of_range)
  unfolding validate_value validate_float validate_float_range validate_temperature
      validate_vad_config
  validate_value-Unordered v x vad e u s = (
    ground (arith, u (p.hundredths 0), u (p.hundredths 200)),
    ground (arith, u (p.hundredths 10), u (p.hundredths 360000)),
    ground (arith, u (p.hundredths 0), u (p.hundredths 100)),
    ground (arith, u (p.hundredths 0), u (p.hundredths 100)),
    ground (arith, u (p.hundredths 0), u (p.hundredths 100)),
  )
