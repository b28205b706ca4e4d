-- ===== src/Translation/Tests.antt =====
-- Runs of the translation of src/core/translation with a provider whose answers are scripted.
use subx_core.Prelude.{
  ℕ, zero, suc, ◌≡◌, refl, arith, true, List, [], ◌∷◌, Option, some, Text, codes, ok, length, ◌=ᵗ◌,
  if◌then◌else◌,
}
use subx_core.Std.{is_empty, trim, trim_start, trim_end, is_whitespace, contains}
use subx_core.Translation.Response.{
  Translations, lookup, contains_key, remove_key, insert, from_brace, to_brace, accept_entries,
  extract_json_object, parse_translation_response_partial,
}
use subx_core.Translation.Chunks.{range, chunk_ranges, concat, Sized, chunk_ranges-partition}
use subx_core.Translation.Accepted.{
  Distinct, AllExpected, Holds, parse_translation_response_partial-accepted,
}
use subx_core.Translation.Engine.{Ai}
use subx_core.Translation.Terminology.{
  merge_terminology, last_entry, or_generated, lookup-merge_terminology,
}
use subx_core.Translation.Dialogue.{Dialogue}

-- An answer is an object of one character, which names its entries.
abbrev entries_of : Text → Option (List (Text × Text))
entries_of t =
    if t =ᵗ codes "{1}"
    then some ((codes "a", codes "A") ∷ [])
    else if t =ᵗ codes "{2}"
    then some ((codes "x", codes "X") ∷ [])
    else some []

-- The first answer translates "a", the second names an unknown id, all others are empty.
abbrev scripted : Ai
scripted = record {
  State = ℕ;
  chat_completion = λ n cues. (
    elim n [
      | zero ↦ some (codes "{1}")
      | suc zero ↦ some (codes "{2}")
      | suc (suc k) ↦ some (codes "{}")
    ],
    suc n,
  );
  is_json = λ t. true;
  decode = entries_of;
}

abbrev two_cues : List (Text × Text)
two_cues = (codes "a", codes "Hello") ∷ (codes "b", codes "World") ∷ []

abbrev outcome : Translations
outcome = (codes "b", []) ∷ (codes "a", codes "A") ∷ []

abbrev one_translation : Translations
one_translation = (codes "a", codes "A") ∷ []

one_accepted :
    parse_translation_response_partial (λ t. true) entries_of (codes "ok {1}") (codes "a" ∷ [])
    ≡ ok one_translation
unfolding parse_translation_response_partial extract_json_object accept_entries from_brace to_brace
    insert remove_key contains_key contains is_empty trim trim_start trim_end is_whitespace ◌=ᵗ◌
one_accepted = refl

parse_translation_response_partial-accepted_example :
    (entries : List (Text × Text)) × (json : Text) × (extract_json_object
        (λ t. true)
        entries_of
        (codes "ok {1}")
      ≡ ok json)
    × (entries_of json ≡ some entries)
    × Distinct one_translation
    × AllExpected (codes "a" ∷ []) one_translation
    × (1 ≡ length entries)
    × Holds entries one_translation
parse_translation_response_partial-accepted_example =
    parse_translation_response_partial-accepted (λ t. true) entries_of (codes "ok {1}")
      (codes "a" ∷ []) one_translation one_accepted

chunk_ranges-partition_example :
    (cs : List (List ℕ)) × (chunk_ranges 5 2 ≡ some cs) × (concat cs ≡ range 0 5) × Sized 2 cs
chunk_ranges-partition_example = chunk_ranges-partition 5 2 (omega arith)

lookup-merge_terminology_example :
    lookup
      (codes "Alice")
      (merge_terminology ((codes "Alice", codes "A") ∷ []) ((codes " Alice", codes "B ") ∷ []))
    ≡ or_generated
        (last_entry (codes "Alice") ((codes " Alice", codes "B ") ∷ []))
        (lookup (codes "Alice") ((codes "Alice", codes "A") ∷ []))
lookup-merge_terminology_example =
    lookup-merge_terminology (codes "Alice") ((codes "Alice", codes "A") ∷ [])
      ((codes " Alice", codes "B ") ∷ [])
