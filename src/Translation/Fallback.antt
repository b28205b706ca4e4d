-- ===== src/Translation/Fallback.antt =====
-- src/core/translation/engine.rs: the empty text for the cues that have no translation.
use subx_core.Prelude.{
  ℕ, suc, ◌≡◌, refl, sym, ◌∙◌, arith, true, false, List, [], ◌∷◌, ◌++◌, Text, ◌=ᵗ◌, =ᵗ-refl,
  =ᵗ-sound, length, get_or, append_assoc, length-append, Bool-cases, inl, inr,
}
use subx_core.Translation.Response.{Translations, contains_key, remove_key, insert}
use subx_core.Translation.Engine.{ids_of, missing_from, missing_translation_indices, fill_empty}

abbrev pub AllTranslated : List (Text × Text) → Translations → Type 0
AllTranslated [] m = Unit {0}
AllTranslated ((id, text) ∷ cues) m = (contains_key id m ≡ true) × AllTranslated cues m

remove_key-keeps :
    (id k : Text) (m : Translations)
    → (id =ᵗ k) ≡ false
    → contains_key k m ≡ true
    → contains_key k (remove_key id m) ≡ true
unfolding remove_key contains_key
remove_key-keeps id k [] n h = h
remove_key-keeps id k ((j, v) ∷ rest) n h = elim (Bool-cases (j =ᵗ id)) [
  | inl same ↦
      let elsewhere : (j =ᵗ k) ≡ false = rw (=ᵗ-sound j id same) n in
      ground (arith, elsewhere, remove_key-keeps id k rest n)
  | inr other ↦ ground (arith, remove_key-keeps id k rest n)
]

insert-keeps :
    (id text k : Text) (m : Translations)
    → contains_key k m ≡ true
    → contains_key k (insert id text m) ≡ true
unfolding insert contains_key
insert-keeps id text k m h = ground (arith, remove_key-keeps id k m)

insert-has : (id text : Text) (m : Translations) → contains_key id (insert id text m) ≡ true
unfolding insert contains_key
insert-has id text m = rw (=ᵗ-refl id)

fill_empty-keeps :
    (cues : List (Text × Text)) (is : List ℕ) (m : Translations) (k : Text)
    → contains_key k m ≡ true
    → contains_key k (fill_empty cues is m) ≡ true
unfolding fill_empty
fill_empty-keeps cues [] m k h = h
fill_empty-keeps cues (i ∷ is) m k h = fill_empty-keeps cues is _ k (insert-keeps _ [] k m h)

get_or-middle {ℓ} :
    {A : Type ℓ} (pre : List A) (x : A) (xs : List A) (d : A)
    → get_or (pre ++ x ∷ xs) (length pre) d ≡ x
get_or-middle [] x xs d = refl
get_or-middle (y ∷ pre) x xs d = get_or-middle pre x xs d

-- `cues` ends with the part whose missing ids are filled; `n` translations are there already.
fill_empty-fills :
    (cues pre rest : List (Text × Text)) (i : ℕ) (m n : Translations)
    → cues ≡ pre ++ rest
    → i ≡ length pre
    → ((k : Text) → contains_key k m ≡ true → contains_key k n ≡ true)
    → AllTranslated rest (fill_empty cues (missing_from i (ids_of rest) m) n)
unfolding missing_from fill_empty
fill_empty-fills cues pre [] i m n e f keep = tt
fill_empty-fills cues pre ((id, text) ∷ rest) i m n e f keep =
    elim (Bool-cases (contains_key id m)) [
      | inl there ↦ rw there (
        fill_empty-keeps cues (missing_from (suc i) (ids_of rest) m) n id (keep id there),
        fill_empty-fills cues (pre ++ (id, text) ∷ []) rest (suc i) m n e' f' keep,
      )
      | inr absent ↦ rw absent (
        fill_empty-keeps cues (missing_from (suc i) (ids_of rest) m) _ id filled,
        fill_empty-fills cues (pre ++ (id, text) ∷ []) rest (suc i) m _ e' f'
            (λ k h. insert-keeps _ [] k n (keep k h)),
      )
    ]
  where
    e' : cues ≡ (pre ++ (id, text) ∷ []) ++ rest
    e' = e ∙ sym (append_assoc pre ((id, text) ∷ []) rest)

    f' : suc i ≡ length (pre ++ (id, text) ∷ [])
    f' = omega (arith, length-append pre ((id, text) ∷ []))

    filled : contains_key id (insert (get_or cues i ([], [])).0 [] n) ≡ true
    filled = rw (e, f, get_or-middle pre (id, text) rest ([], [])) (insert-has id [] n)

-- The ids that are missing get the empty text.
unfoldable pub with_fallback : List (Text × Text) → Translations → Translations
with_fallback cues m = fill_empty cues (missing_translation_indices (ids_of cues) m) m

pub fallback-AllTranslated :
    (cues : List (Text × Text)) (m : Translations) → AllTranslated cues (with_fallback cues m)
unfolding with_fallback missing_translation_indices
fallback-AllTranslated cues m = fill_empty-fills cues [] cues 0 m m refl refl (λ k there. there)
