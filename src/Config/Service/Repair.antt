-- ===== src/Config/Service/Repair.antt =====
-- What `config set` writes, `load_for_repair` accepts.
use subx_core.Prelude.{
  true, false, Option, none, some, Text, codes, if◌then◌else◌, List, [], ◌∷◌, ◌≡◌, refl, arith, ok,
  err, ◌=ᵗ◌, =ᵗ-comm, ◌≢◌, Bool-cases, inl, inr,
}
use subx_core.Std.{max_u32, max_u64}
use subx_core.Config.Platform.{Platform}
use subx_core.Config.Types.{Config}
use subx_core.Config.Values.{unknown_key}
use subx_core.Config.Field.{
  Field, ai_provider, ai_model, parallel_overflow_strategy, field_of, lookup_key, key_table,
  normalize_ai_provider, show_bool,
}
use subx_core.Config.Checks.{
  validate_field, validate_value, validate_number, validate_float, validate_bool, field_text,
  check_text, check_fields, validate_all_fields,
}
use subx_core.Config.Setter.{set_value, set_value_internal}
use subx_core.Config.Service.{validate_and_set_value}
use subx_core.Config.Service.Frame.{field_text-set_value}
use subx_core.Config.Validator.{validate_config}
use subx_core.Config.Service.Laws.{
  PlatformLaws, reparse, refloat, parse_bool-show_bool, strategy_text,
  normalize_ai_provider-idempotent,
}

-- A text for the provider is in canonical form; any other text is as it came.
abbrev pub Canonical : Field → Text → Type 0
Canonical ai_provider v = normalize_ai_provider v ≡ v
Canonical ai_model v = Unit {0}
Canonical _ v = Unit {0}

module _ (p : Platform) (laws : PlatformLaws p) where
  -- The text of the field just set passes the check that the given text passed.
  check_text-set_value :
      (g : Field) (c c' : Config p) (v : Text)
      → validate_value p g v ≡ ok tt
      → Canonical g v
      → set_value p c g v ≡ ok c'
      → check_text p g (field_text p c' g) ≡ ok tt
  unfolding set_value validate_value validate_number validate_float validate_bool field_text
      check_text show_bool
  check_text-set_value ai_provider c c' v h n e = ground arith
  check_text-set_value parallel_overflow_strategy c c' v h n e = ground (arith, strategy_text v)
  check_text-set_value _ c c' v h n e = ground (
    arith,
    reparse max_u32 v,
    reparse max_u64 v,
    refloat p laws v,
    parse_bool-show_bool p laws true,
    parse_bool-show_bool p laws false,
  )

  Field-discrete : Discrete Field
  Field-discrete = hlevel

  check_text-kept :
      (g f : Field) (c c' : Config p) (v : Text)
      → validate_value p g v ≡ ok tt
      → Canonical g v
      → set_value p c g v ≡ ok c'
      → check_text p f (field_text p c f) ≡ ok tt
      → check_text p f (field_text p c' f) ≡ ok tt
  check_text-kept g f c c' v h n e old = elim (Field-discrete f g) [
    | yes same ↦ rw same (check_text-set_value g c c' v h n e)
    | no other ↦ rw (field_text-set_value p g f c c' v e other) old
  ]

  check_fields-kept :
      (fields : List (Text × Field)) (c c' : Config p)
      → ((f : Field)
          → check_text p f (field_text p c f) ≡ ok tt
          → check_text p f (field_text p c' f) ≡ ok tt)
      → check_fields p fields c ≡ ok tt
      → check_fields p fields c' ≡ ok tt
  unfolding check_fields
  check_fields-kept [] c c' keep h = refl
  check_fields-kept ((name, f) ∷ rest) c c' keep h =
      ground (arith, keep f, check_fields-kept rest c c' keep)

abbrev pub written : Text → Text → Text
written key v = if key =ᵗ codes "ai.provider" then normalize_ai_provider v else v

-- What a successful `config set` has gone through.
pub validate_and_set_value-steps :
    (p : Platform) (c c' : Config p) (key v : Text)
    → validate_and_set_value p c key v ≡ ok c'
    → (validate_field p key (written key v) ≡ ok tt)
      × (set_value_internal p c key (written key v) ≡ ok c')
      × (validate_config p c' ≡ ok tt)
unfolding validate_and_set_value
validate_and_set_value-steps p c c' key v h = ground arith

provider_key : (key : Text) → (key =ᵗ codes "ai.provider") ≡ false → field_of key ≢ some ai_provider
unfolding field_of lookup_key
provider_key key h = ground (arith, =ᵗ-comm (codes "ai.provider") key)

pub written-Canonical :
    (f : Field) (key v : Text) → field_of key ≡ some f → Canonical f (written key v)
written-Canonical ai_provider key v e = elim (Bool-cases (key =ᵗ codes "ai.provider")) [
  | inl same ↦ rw same (normalize_ai_provider-idempotent v)
  | inr other ↦ absurd (provider_key key other e)
]
written-Canonical ai_model key v e = tt
written-Canonical _ key v e = tt

-- The field behind a key that was set, and the steps at that field.
pub set_steps-field :
    (p : Platform) (c c' : Config p) (key v : Text)
    → validate_and_set_value p c key v ≡ ok c'
    → (f : Field) × (field_of key ≡ some f)
      × (validate_value p f (written key v) ≡ ok tt)
      × (set_value p c f (written key v) ≡ ok c')
      × (validate_config p c' ≡ ok tt)
unfolding validate_field set_value_internal
set_steps-field p c c' key v h =
    let (checked, set, strict) = validate_and_set_value-steps p c c' key v h in
    shown (field_of key) refl checked set strict
  where
    shown :
        (o : Option Field)
        → field_of key ≡ o
        → (elim o [ none ↦ err unknown_key | some f ↦ validate_value p f (written key v) ]) ≡ ok tt
        → (elim o [ none ↦ err unknown_key | some f ↦ set_value p c f (written key v) ]) ≡ ok c'
        → validate_config p c' ≡ ok tt
        → (f : Field) × (field_of key ≡ some f)
          × (validate_value p f (written key v) ≡ ok tt)
          × (set_value p c f (written key v) ≡ ok c')
          × (validate_config p c' ≡ ok tt)
    shown none e a b d = cc
    shown (some f) e a b d = (f, e, a, b, d)

-- On a platform with `PlatformLaws`, a configuration whose fields `load_for_repair` accepts keeps
-- that property under every successful `config set`, and the configuration that is written passes
-- the strict validation as well.
pub validate_and_set_value-loads :
    (p : Platform) (laws : PlatformLaws p) (c c' : Config p) (key v : Text)
    → validate_all_fields p c ≡ ok tt
    → validate_and_set_value p c key v ≡ ok c'
    → (validate_all_fields p c' ≡ ok tt) × (validate_config p c' ≡ ok tt)
unfolding validate_all_fields
validate_and_set_value-loads p laws c c' key v loads h =
    let (f, e, checked, set, strict) = set_steps-field p c c' key v h in
    (
      check_fields-kept p laws key_table c c'
          (λ g old.
            check_text-kept p laws f g c c' (written key v) checked (written-Canonical f key v e)
              set old)
          loads,
      strict,
    )
