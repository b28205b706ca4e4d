-- ===== src/Config/Store/Reload.antt =====
-- What `config set` leaves in the file is what the next load finds.
use subx_core.Prelude.{
  ◌≡◌, refl, arith, true, List, [], ◌∷◌, ◌∙◌, ◌>>◌, ap₂, Option, none, some, Text, Result, ok, err,
  Option-cases, inl, inr, codes, ap, ◌=ᵗ◌,
}
use subx_core.Std.{
  trim, trim_start, trim_end, is_empty, is_whitespace, to_ascii_lowercase, ascii_lower,
}
use subx_core.Config.Platform.{Platform}
use subx_core.Config.Types.{Config}
use subx_core.Config.Field.{Field, key_table, ai_provider, normalize_ai_provider}
use subx_core.Config.Values.{Error}
use subx_core.Config.Checks.{validate_all_fields, check_fields, check_text, field_text}
use subx_core.Config.Defaults.{default_config}
use subx_core.Config.Validator.{validate_config, validate_sync_config, validate_config_consistency}
use subx_core.Config.Setter.{set_value}
use subx_core.Config.Service.{validate_and_set_value}
use subx_core.Config.Service.Laws.{PlatformLaws, normalize_ai_provider-idempotent}
use subx_core.Config.Service.Repair.{validate_and_set_value-loads, set_steps-field, written}
use subx_core.Config.Store.{
  System, Store, Failure, as_stored, canonicalize, load_content, load_for_repair,
  save_config_to_file_with_config, set_config_value,
}

abbrev pub IsCanonical : (p : Platform) → Config p → Type 0
IsCanonical p c = normalize_ai_provider c.ai.provider ≡ c.ai.provider

module _ (p : Platform) where
  set_value-IsCanonical :
      (f : Field) (c c' : Config p) (v : Text)
      → set_value p c f v ≡ ok c'
      → IsCanonical p c
      → IsCanonical p c'
  unfolding set_value
  set_value-IsCanonical ai_provider c c' v e h = ground (arith, normalize_ai_provider-idempotent v)
  set_value-IsCanonical _ c c' v e h = ground arith

  canonicalize-same : (sys : System p) (c : Config p) → IsCanonical p c → canonicalize p sys c ≡ c
  canonicalize-same sys c h = ap (λ t. record c { ai = record (c.ai) { provider = t } }) h

openai-canonical : normalize_ai_provider (codes "openai") ≡ codes "openai"
unfolding normalize_ai_provider trim trim_start trim_end is_empty is_whitespace to_ascii_lowercase
    ascii_lower ◌=ᵗ◌
openai-canonical = refl

module _ (p : Platform) (sys : System p) where
  load_content-valid :
      (content : Text) (c : Config p)
      → load_content p sys content ≡ ok c
      → (validate_all_fields p c ≡ ok tt) × IsCanonical p c
  unfolding load_content
  load_content-valid content c e = elim (Option-cases (sys.from_toml content)) [
    | inl unread ↦ absurd (ground arith)
    | inr (raw, parsed) ↦ ground (arith, normalize_ai_provider-idempotent raw.ai.provider)
  ]

  default-IsCanonical : IsCanonical p (default_config p sys.cpus)
  default-IsCanonical = openai-canonical

  -- A loaded configuration is valid field by field and names its provider canonically.
  load_for_repair-valid :
      (s : Store p) (c : Config p)
      → validate_all_fields p (default_config p sys.cpus) ≡ ok tt
      → load_for_repair p sys s ≡ ok c
      → (validate_all_fields p c ≡ ok tt) × IsCanonical p c
  unfolding load_for_repair
  load_for_repair-valid s c defaults e = elim (Option-cases s.file) [
    | inl absent ↦ ground (arith, default-IsCanonical)
    | inr (content, there) ↦ load_content-valid content c (ground arith)
  ]

  loaded-reachable :
      (s : Store p) (c : Config p) → load_for_repair p sys s ≡ ok c → sys.has_config_path ≡ true
  unfolding load_for_repair
  loaded-reachable s c e = ground (arith, e)

  -- The steps of a successful `set_config_value`.
  abbrev Steps : Store p → Store p → Text → Text → Type 0
  Steps s s' key v =
      (c : Config p) × (c' : Config p) × (content : Text) × (load_for_repair p sys s ≡ ok c)
      × (validate_and_set_value p c key v ≡ ok c')
      × (sys.to_toml c' ≡ some content)
      × (s'.file ≡ some content)
      × (s'.cached_config ≡ some c')

  set_config_value-Steps :
      (s s' : Store p) (key v : Text) → set_config_value p sys s key v ≡ ok s' → Steps s s' key v
  unfolding set_config_value save_config_to_file_with_config
  set_config_value-Steps s s' key v h = loaded (load_for_repair p sys s) refl
    where
      saved :
          (c c' : Config p)
          → load_for_repair p sys s ≡ ok c
          → validate_and_set_value p c key v ≡ ok c'
          → (o : Option Text) → sys.to_toml c' ≡ o
          → Steps s s' key v
      saved c c' l e none t = absurd (ground arith)
      saved c c' l e (some content) t = (c, c', content, l, e, t, ground arith, ground arith)

      validated :
          (c : Config p)
          → load_for_repair p sys s ≡ ok c
          → (r : Result Error (Config p)) → validate_and_set_value p c key v ≡ r
          → Steps s s' key v
      validated c l (ok c') e = saved c c' l e (sys.to_toml c') refl
      validated c l (err x) e = absurd (ground arith)

      loaded : (r : Result Failure (Config p)) → load_for_repair p sys s ≡ r → Steps s s' key v
      loaded (ok c) l = validated c l (validate_and_set_value p c key v) refl
      loaded (err x) l = absurd (ground arith)

  load_content-saved :
      (content : Text) (c : Config p)
      → sys.from_toml content ≡ some c
      → validate_all_fields p c ≡ ok tt
      → canonicalize p sys c ≡ c
      → load_content p sys content ≡ ok c
  unfolding load_content
  load_content-saved content c parsed valid same = rw (parsed, same, valid)

  -- The fields that are not stored are read by neither validation.
  same_text : (c : Config p) (f : Field) → field_text p (as_stored p c) f ≡ field_text p c f
  unfolding as_stored field_text
  same_text c ai_provider = refl
  same_text c _ = refl

  check_fields-as_stored :
      (fs : List (Text × Field)) (c : Config p)
      → check_fields p fs (as_stored p c) ≡ check_fields p fs c
  unfolding check_fields
  check_fields-as_stored [] c = refl
  check_fields-as_stored ((name, field) ∷ rest) c =
      ap₂ ◌>>◌ (ap (check_text p field) (same_text c field)) (check_fields-as_stored rest c)

  validate_config-as_stored :
      (c : Config p) → validate_config p (as_stored p c) ≡ validate_config p c
  unfolding as_stored validate_config validate_sync_config validate_config_consistency
  validate_config-as_stored c = refl

  validate_all_fields-as_stored :
      (c : Config p) → validate_all_fields p (as_stored p c) ≡ validate_all_fields p c
  unfolding validate_all_fields
  validate_all_fields-as_stored c = check_fields-as_stored key_table c

  stored-IsCanonical : (c : Config p) → IsCanonical p c → IsCanonical p (as_stored p c)
  unfolding as_stored
  stored-IsCanonical c h = h

  read_back :
      (s : Store p) (content : Text) (c : Config p)
      → sys.has_config_path ≡ true
      → sys.readable ≡ true
      → s.file ≡ some content
      → load_content p sys content ≡ ok c
      → load_for_repair p sys s ≡ ok c
  unfolding load_for_repair
  read_back s content c path readable there e = ground (arith, path, readable, there, e)

  -- On a platform with `PlatformLaws`, when a file that was written can be read, the deserialiser gives
  -- what the serialiser wrote but for the fields under `serde(skip)`, and the defaults pass the field
  -- checks, a successful `config set` caches a strictly valid configuration, and the next tolerant load
  -- of the file finds the same one with only those fields of `sync` reset, which is strictly valid too.
  pub set_config_value-reloads :
      (laws : PlatformLaws p) (s s' : Store p) (key v : Text)
      → sys.readable ≡ true
      → ((c : Config p) (t : Text)
          → sys.to_toml c ≡ some t
          → sys.from_toml t ≡ some (as_stored p c))
      → validate_all_fields p (default_config p sys.cpus) ≡ ok tt
      → set_config_value p sys s key v ≡ ok s'
      → (c' : Config p) × (s'.cached_config ≡ some c')
        × (load_for_repair p sys s' ≡ ok (as_stored p c'))
        × (validate_config p c' ≡ ok tt)
        × (validate_config p (as_stored p c') ≡ ok tt)
  set_config_value-reloads laws s s' key v readable reads defaults h =
      let (c, c', content, loaded, set, written_as, file, cached) =
        set_config_value-Steps s s' key v h in
      let (valid, canonical) = load_for_repair-valid s c defaults loaded in
      let (valid', strict) = validate_and_set_value-loads p laws c c' key v valid set in
      let (f, e, checked, set_f, strict_f) = set_steps-field p c c' key v set in
      (
        c',
        cached,
        read_back s' content (as_stored p c') (loaded-reachable s c loaded) readable file (
            load_content-saved content (as_stored p c') (reads c' content written_as)
              (validate_all_fields-as_stored c' ∙ valid')
              (canonicalize-same p sys (as_stored p c') (
                stored-IsCanonical c'
                  (set_value-IsCanonical p f c c' (written key v) set_f canonical)))),
        strict,
        validate_config-as_stored c' ∙ strict,
      )
