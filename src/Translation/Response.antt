-- ===== src/Translation/Response.antt =====
-- src/services/ai/translation_prompts.rs: what is accepted of an answer to a batch. A map is an
-- association list; `decode` stands for `serde_json` on the schema, `is_json` for its syntax check.
use subx_core.Prelude.{
  Bool, false, not, ◌||◌, List, [], ◌∷◌, Option, none, some, Text, ◌==◌, ◌=ᵗ◌, if◌then◌else◌,
  Result, ok, err, ◌>>=◌, ◌>>◌, or_err, refuse_if,
}
use subx_core.Std.{is_empty, trim, contains}

pub data Error : Type 0 where
  provider_failed no_json bad_schema : Error
  empty_id unknown_id duplicate_id : Error
  unknown_id_after_retry : Error

abbrev pub Translations : Type 0
Translations = List (Text × Text)

unfoldable pub lookup : Text → Translations → Option Text
lookup id [] = none
lookup id ((k, v) ∷ rest) = if k =ᵗ id then some v else lookup id rest

unfoldable pub contains_key : Text → Translations → Bool
contains_key id [] = false
contains_key id ((k, v) ∷ rest) = k =ᵗ id || contains_key id rest

unfoldable pub remove_key : Text → Translations → Translations
remove_key id [] = []
remove_key id ((k, v) ∷ rest) =
    let others = remove_key id rest in if k =ᵗ id then others else (k, v) ∷ others

unfoldable pub insert : Text → Text → Translations → Translations
unfolding remove_key
insert id text m = (id, text) ∷ remove_key id m

-- `&response[find('{')..]`
unfoldable pub from_brace : Text → Option Text
from_brace [] = none
from_brace (c ∷ s) = if c == b'{' then some (c ∷ s) else from_brace s

-- `&text[..=rfind('}')]`
unfoldable pub to_brace : Text → Option Text
to_brace [] = none
to_brace (c ∷ s) = elim (to_brace s) [
  | none ↦ if c == b'}' then some (c ∷ []) else none
  | some t ↦ some (c ∷ t)
]

-- The loop over the entries; the keys of `translations` are the set `seen`.
unfoldable pub accept_entries :
    List Text → List (Text × Text) → Translations → Result Error Translations
accept_entries expected [] translations = ok translations
accept_entries expected ((raw_id, text) ∷ rest) translations =
    let id = trim raw_id in
    let next = accept_entries expected rest (insert id text translations) in
    if is_empty id
    then err empty_id
    else if not (contains expected id)
    then err unknown_id
    else if contains_key id translations
    then err duplicate_id
    else next

module _ (is_json : Text → Bool) (decode : Text → Option (List (Text × Text))) where
  unfoldable pub extract_json_object : Text → Result Error Text
  unfolding from_brace to_brace
  extract_json_object response = do
    start ← or_err (from_brace response) no_json
    candidate ← or_err (to_brace start) no_json
    refuse_if (not (is_json candidate)) no_json
    ok candidate

  unfoldable pub parse_translation_response_partial : Text → List Text → Result Error Translations
  unfolding extract_json_object accept_entries
  parse_translation_response_partial response expected = do
    json ← extract_json_object response
    raw ← or_err (decode json) bad_schema
    accept_entries expected raw []
