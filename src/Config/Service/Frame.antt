-- ===== src/Config/Service/Frame.antt =====
-- Setting one field leaves the texts of all others.
use subx_core.Prelude.{Text, ◌≡◌, ◌≢◌, arith, ok}
use subx_core.Config.Platform.{Platform}
use subx_core.Config.Types.{Config}
use subx_core.Config.Field.{Field, ai_provider, ai_model}
use subx_core.Config.Checks.{field_text}
use subx_core.Config.Setter.{set_value}

module _ (p : Platform) where
  -- A field that is not the one set has the same text after a successful `set_value`.
  pub field_text-set_value :
      (g f : Field) (c c' : Config p) (v : Text)
      → set_value p c g v ≡ ok c'
      → f ≢ g
      → field_text p c' f ≡ field_text p c f
  unfolding set_value field_text
  field_text-set_value ai_provider ai_model c c' v h n = ground arith
  field_text-set_value _ _ c c' v h n = ground arith
