-- ===== src/Translation/Terminology.antt =====
-- src/core/translation/request.rs and src/services/ai/translation_prompts.rs: the generated terms
-- and the user's glossary.
use subx_core.Prelude.{
  ◌≡◌, refl, arith, false, ◌||◌, List, [], ◌∷◌, Option, none, some, Text, ◌=ᵗ◌, =ᵗ-sound,
  if◌then◌else◌, Result, ok, err, Bool-cases, inl, inr,
}
use subx_core.Std.{is_empty, trim}
use subx_core.Translation.Response.{
  Error, empty_id, duplicate_id, Translations, lookup, contains_key, remove_key, insert,
}

-- The loop of `parse_terminology_response` over the decoded terms.
unfoldable pub accept_terms : List (Text × Text) → Translations → Result Error Translations
accept_terms [] terms = ok terms
accept_terms ((raw_source, raw_target) ∷ rest) terms =
    let source = trim raw_source in
    let target = trim raw_target in
    let next = accept_terms rest (insert source target terms) in
    if is_empty source || is_empty target
    then err empty_id
    else if contains_key source terms
    then err duplicate_id
    else next

unfoldable pub merge_terminology : Translations → List (Text × Text) → Translations
merge_terminology merged [] = merged
merge_terminology merged ((raw_source, raw_target) ∷ rest) =
    let source = trim raw_source in
    let target = trim raw_target in
    let skipped = merge_terminology merged rest in
    let inserted = merge_terminology (insert source target merged) rest in
    if is_empty source || is_empty target then skipped else inserted

-- The target of the last entry of the glossary for a term, with both its texts.
abbrev pub last_entry : Text → List (Text × Text) → Option Text
last_entry term [] = none
last_entry term ((raw_source, raw_target) ∷ rest) = elim (last_entry term rest) [
  | some target ↦ some target
  | none ↦
      if is_empty (trim raw_source) || is_empty (trim raw_target)
      then none
      else if trim raw_source =ᵗ term
      then some (trim raw_target)
      else none
]

abbrev pub or_generated : Option Text → Option Text → Option Text
or_generated none generated = generated
or_generated (some target) generated = some target

lookup-remove_other :
    (id k : Text) (m : Translations) → (id =ᵗ k) ≡ false → lookup k (remove_key id m) ≡ lookup k m
unfolding lookup remove_key
lookup-remove_other id k [] h = refl
lookup-remove_other id k ((j, v) ∷ rest) h = elim (Bool-cases (j =ᵗ id)) [
  | inl same ↦
      let elsewhere : (j =ᵗ k) ≡ false = rw (=ᵗ-sound j id same) h in
      ground (arith, elsewhere, lookup-remove_other id k rest h)
  | inr other ↦ ground (arith, lookup-remove_other id k rest h)
]

lookup-insert :
    (id text k : Text) (m : Translations)
    → lookup k (insert id text m) ≡ (if id =ᵗ k then some text else lookup k m)
unfolding lookup insert
lookup-insert id text k m = ground (arith, lookup-remove_other id k m)

-- Looking a term up in the merged terminology gives the target of the last complete glossary entry for
-- it, and where the glossary has none what was generated.
pub lookup-merge_terminology :
    (term : Text) (generated : Translations) (glossary : List (Text × Text))
    → lookup term (merge_terminology generated glossary)
      ≡ or_generated (last_entry term glossary) (lookup term generated)
unfolding merge_terminology
lookup-merge_terminology term generated [] = refl
lookup-merge_terminology term generated ((raw_source, raw_target) ∷ rest) = ground (
  arith,
  lookup-merge_terminology term generated rest,
  lookup-merge_terminology term (insert (trim raw_source) (trim raw_target) generated) rest,
  lookup-insert (trim raw_source) (trim raw_target) term generated,
)
