-- ===== src/Config/Service/Total.antt =====
-- Setting a value that src/config/field_validator.rs accepts never reaches an `unwrap` on a failed
-- parse nor the `unreachable!` of src/config/service.rs.
use subx_core.Prelude.{
  Bool, true, false, Option, none, some, Text, codes, [], ◌∷◌, ◌≡◌, refl, arith, Result, ok, err,
  =ᵗ-comm,
}
use subx_core.Std.{contains}
use subx_core.Config.Platform.{Platform}
use subx_core.Config.Types.{Config}
use subx_core.Config.Values.{Error, validate_enum}
use subx_core.Config.Field.{Field, ai_provider, parallel_overflow_strategy, field_of}
use subx_core.Config.Checks.{
  validate_field, validate_value, validate_number, validate_float, validate_bool,
}
use subx_core.Config.Setter.{strategy_of, set_value, set_value_internal}

abbrev pub is_ok {ℓ} : {A : Type ℓ} → Result Error A → Bool
is_ok (ok a) = true
is_ok (err e) = false

pub is_ok-result {ℓ} : {A : Type ℓ} (r : Result Error A) → is_ok r ≡ true → (a : A) × (r ≡ ok a)
is_ok-result (ok a) h = (a, refl)
is_ok-result (err e) h = cc

strategy-is_ok :
    (v : Text)
    → validate_enum v (codes "Block" ∷ codes "Drop" ∷ codes "Expand" ∷ []) ≡ ok tt
    → is_ok (strategy_of v) ≡ true
unfolding validate_enum contains strategy_of
strategy-is_ok v h =
    ground (arith, =ᵗ-comm (codes "Block") v, =ᵗ-comm (codes "Drop") v, =ᵗ-comm (codes "Expand") v)

module _ (p : Platform) where
  set_value-is_ok :
      (f : Field) (c : Config p) (v : Text)
      → validate_value p f v ≡ ok tt
      → is_ok (set_value p c f v) ≡ true
  unfolding set_value validate_value validate_number validate_float validate_bool
  set_value-is_ok ai_provider c v h = ground arith
  set_value-is_ok parallel_overflow_strategy c v h = ground (arith, strategy-is_ok v)
  set_value-is_ok _ c v h = ground arith

  -- After `validate_field` accepts a value for a key, setting it always produces a configuration:
  -- no `unwrap` fails, the strategy is one that the setter knows, and the key is known.
  pub set_value_internal-total :
      (c : Config p) (key v : Text)
      → validate_field p key v ≡ ok tt
      → (c' : Config p) × (set_value_internal p c key v ≡ ok c')
  unfolding set_value_internal validate_field
  set_value_internal-total c key v h = is_ok-result _ (shown (field_of key) h)
    where
      shown :
          (o : Option Field)
          → (elim o [ none ↦ err Error.unknown_key | some f ↦ validate_value p f v ]) ≡ ok tt
          → is_ok (elim o [ none ↦ err Error.unknown_key | some f ↦ set_value p c f v ]) ≡ true
      shown none e = cc
      shown (some f) e = set_value-is_ok f c v e
