-- ===== src/Translation/Accepted.antt =====
-- What an accepted answer to a batch contains.
use subx_core.Prelude.{
  ◌+◌, ◌≡◌, refl, ap, arith, Bool, true, false, List, [], ◌∷◌, Option, none, some, Text, ◌=ᵗ◌,
  =ᵗ-refl, =ᵗ-sound, length, Result, ok, err, Bool-cases, inl, inr,
}
use subx_core.Std.{trim, contains}
use subx_core.Translation.Response.{
  Error, Translations, lookup, contains_key, remove_key, insert, accept_entries,
  extract_json_object, parse_translation_response_partial,
}

-- No id twice.
abbrev pub Distinct : Translations → Type 0
Distinct [] = Unit {0}
Distinct ((id, text) ∷ rest) = (contains_key id rest ≡ false) × Distinct rest

abbrev pub AllExpected : List Text → Translations → Type 0
AllExpected expected [] = Unit {0}
AllExpected expected ((id, text) ∷ rest) = (contains expected id ≡ true) × AllExpected expected rest

-- Each entry of the answer has its text in the map, under its trimmed id.
abbrev pub Holds : List (Text × Text) → Translations → Type 0
Holds [] m = Unit {0}
Holds ((raw_id, text) ∷ rest) m = (lookup (trim raw_id) m ≡ some text) × Holds rest m

remove_key-absent : (id : Text) (m : Translations) → contains_key id m ≡ false → remove_key id m ≡ m
unfolding remove_key contains_key
remove_key-absent id [] h = refl
remove_key-absent id ((k, v) ∷ rest) h = ground (arith, remove_key-absent id rest)

lookup-absent : (id : Text) (m : Translations) → contains_key id m ≡ false → lookup id m ≡ none
unfolding lookup contains_key
lookup-absent id [] h = refl
lookup-absent id ((k, v) ∷ rest) h = ground (arith, lookup-absent id rest)

insert_new :
    (id text : Text) (m : Translations)
    → contains_key id m ≡ false
    → insert id text m ≡ (id, text) ∷ m
unfolding insert
insert_new id text m h = ap (◌∷◌ (id, text)) (remove_key-absent id m h)

lookup-insert_new :
    (id text k v : Text) (m : Translations)
    → contains_key id m ≡ false
    → lookup k m ≡ some v
    → lookup k ((id, text) ∷ m) ≡ some v
unfolding lookup
lookup-insert_new id text k v m h e = elim (Bool-cases (id =ᵗ k)) [
  | inl same ↦ absurd (ground (arith, =ᵗ-sound id k same, lookup-absent id m h))
  | inr other ↦ rw other e
]

accept_entries-keeps :
    (expected : List Text) (entries : List (Text × Text)) (m r : Translations) (k v : Text)
    → accept_entries expected entries m ≡ ok r
    → lookup k m ≡ some v
    → lookup k r ≡ some v
unfolding accept_entries
accept_entries-keeps expected [] m r k v e h = ground arith
accept_entries-keeps expected ((raw, text) ∷ rest) m r k v e h =
    elim (Bool-cases (contains_key (trim raw) m)) [
      | inl twice ↦ absurd (ground arith)
      | inr new ↦
          accept_entries-keeps expected rest ((trim raw, text) ∷ m) r k v
            (ground (arith, insert_new (trim raw) text m new))
            (lookup-insert_new (trim raw) text k v m new h)
    ]

-- What the acceptance of entries on top of `m` gives.
abbrev pub Accepts : List Text → List (Text × Text) → Translations → Translations → Type 0
Accepts expected entries m r =
    Distinct r × AllExpected expected r × (length r ≡ length entries + length m) × Holds entries r

accept_entries-Accepts :
    (expected : List Text) (entries : List (Text × Text)) (m r : Translations)
    → Distinct m
    → AllExpected expected m
    → accept_entries expected entries m ≡ ok r
    → Accepts expected entries m r
unfolding accept_entries
accept_entries-Accepts expected [] m r d a e = ground arith
accept_entries-Accepts expected ((raw, text) ∷ rest) m r d a e =
    elim (Bool-cases (contains_key (trim raw) m)) [
      | inl twice ↦ absurd (ground arith)
      | inr new ↦
          let id = trim raw in
          let next : accept_entries expected rest ((id, text) ∷ m) ≡ ok r =
            ground (arith, insert_new id text m new) in
          let (distinct, all, size, holds) =
            accept_entries-Accepts expected rest ((id, text) ∷ m) r (new, d) (ground arith, a)
              next in
          (
            distinct,
            all,
            omega (arith, size),
            (
              accept_entries-keeps expected rest ((id, text) ∷ m) r id text next
                  (unfold lookup in rw (=ᵗ-refl id)),
              holds,
            ),
          )
    ]

-- An accepted answer decoded to some entries, one for each translation; the translations have no id
-- twice, only ids that the batch asked for, and for each entry its own text.
pub parse_translation_response_partial-accepted :
    (is_json : Text → Bool) (decode : Text → Option (List (Text × Text))) (response : Text)
    (expected : List Text) (r : Translations)
    → parse_translation_response_partial is_json decode response expected ≡ ok r
    → (entries : List (Text × Text)) × (json : Text) × (extract_json_object is_json decode response
        ≡ ok json)
      × (decode json ≡ some entries)
      × Distinct r
      × AllExpected expected r
      × (length r ≡ length entries)
      × Holds entries r
unfolding parse_translation_response_partial
parse_translation_response_partial-accepted is_json decode response expected r h =
    extracted (extract_json_object is_json decode response) refl
  where
    Goal : Type 0
    Goal =
        (entries : List (Text × Text)) × (json : Text) × (extract_json_object is_json decode
            response
          ≡ ok json)
        × (decode json ≡ some entries)
        × Distinct r
        × AllExpected expected r
        × (length r ≡ length entries)
        × Holds entries r

    decoded :
        (json : Text)
        → extract_json_object is_json decode response ≡ ok json
        → (o : Option (List (Text × Text))) → decode json ≡ o
        → Goal
    decoded json j none d = absurd (ground arith)
    decoded json j (some entries) d =
        let (distinct, all, size, holds) =
          accept_entries-Accepts expected entries [] r tt tt (ground arith) in
        (entries, json, j, d, distinct, all, omega (arith, size), holds)

    extracted : (o : Result Error Text) → extract_json_object is_json decode response ≡ o → Goal
    extracted (ok json) j = decoded json j (decode json) refl
    extracted (err x) j = absurd (ground arith)
