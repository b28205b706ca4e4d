-- ===== src/Translation/Engine.antt =====
-- src/core/translation/engine.rs: the batched translation of the cues. `Ai` is the provider with the
-- prompt around a batch; it answers from a state of its own. A batch is the list of its cue ids with
-- their texts.
use subx_core.Prelude.{
  ℕ, suc, ◌+◌, Bool, List, [], ◌∷◌, map, Option, none, some, Text, if◌then◌else◌, get_or, Result,
  ok, err,
}
use subx_core.Translation.Response.{
  Error, provider_failed, unknown_id, unknown_id_after_retry, Translations, contains_key, insert,
  parse_translation_response_partial,
}

pub record Ai : Type 1 where
  pub State : Type 0
  pub chat_completion : State → List (Text × Text) → Option Text × State
  pub is_json : Text → Bool
  pub decode : Text → Option (List (Text × Text))

abbrev pub ids_of : List (Text × Text) → List Text
ids_of cues = map (λ cue. cue.0) cues

-- `for (id, text) in map { translations.insert(id, text); }`
unfoldable pub insert_all : Translations → Translations → Translations
insert_all [] m = m
insert_all ((id, text) ∷ rest) m = insert_all rest (insert id text m)

unfoldable pub missing_from : ℕ → List Text → Translations → List ℕ
missing_from i [] m = []
missing_from i (id ∷ ids) m =
    let rest = missing_from (suc i) ids m in if contains_key id m then rest else i ∷ rest

unfoldable pub missing_translation_indices : List Text → Translations → List ℕ
unfolding missing_from
missing_translation_indices ids m = missing_from 0 ids m

-- `cues[i]` for each index; the indices of the code are in range.
unfoldable pub pick : List (Text × Text) → List ℕ → List (Text × Text)
pick cues [] = []
pick cues (i ∷ is) = get_or cues i ([], []) ∷ pick cues is

-- The ids that still have no translation get the empty text.
unfoldable pub fill_empty : List (Text × Text) → List ℕ → Translations → Translations
fill_empty cues [] m = m
fill_empty cues (i ∷ is) m = fill_empty cues is (insert (get_or cues i ([], [])).0 [] m)

module _ (ai : Ai) where
  unfoldable pub answer : Option Text → List Text → Result Error Translations
  answer none ids = err provider_failed
  answer (some response) ids = parse_translation_response_partial ai.is_json ai.decode response ids

  unfoldable pub translate_batch_once :
      ai.State → List (Text × Text) → Result Error Translations × ai.State
  unfolding answer
  translate_batch_once st cues =
      let (response, st') = ai.chat_completion st cues in (answer response (ids_of cues), st')

  unfoldable pub retry_result : Result Error Translations → Result Error (Translations × ℕ)
  retry_result (ok m) = ok (m, 2)
  retry_result (err unknown_id) = err unknown_id_after_retry
  retry_result (err e) = err e

  -- The answer, with the number of requests it took; an unknown id is tried once more.
  unfoldable pub translate_batch_with_unknown_retry :
      ai.State → List (Text × Text) → Result Error (Translations × ℕ) × ai.State
  unfolding translate_batch_once retry_result
  translate_batch_with_unknown_retry st cues =
      let (first, st1) = translate_batch_once st cues in
      let (second, st2) = translate_batch_once st1 cues in
      elim first [
        | ok m ↦ (ok (m, 1), st1)
        | err unknown_id ↦ (retry_result second, st2)
        | err e ↦ (err e, st1)
      ]

  -- The loop over the chunks, with the translations and the requests so far.
  unfoldable pub translate_chunks :
      ai.State
      → List (Text × Text)
      → List (List ℕ)
      → Translations
      → ℕ
      → Result Error (Translations × ℕ) × ai.State
  unfolding translate_batch_with_unknown_retry insert_all pick
  translate_chunks st cues [] m count = (ok (m, count), st)
  translate_chunks st cues (chunk ∷ chunks) m count =
      let (batch, st') = translate_batch_with_unknown_retry st (pick cues chunk) in
      elim batch [
        | err e ↦ (err e, st')
        | ok (answers, issued) ↦
            translate_chunks st' cues chunks (insert_all answers m) (count + issued)
      ]

  -- The retry of the missing cues, and the empty text for those that are missing after it.
  unfoldable pub complete_missing :
      ai.State → List (Text × Text) → Translations → ℕ → Result Error (Translations × ℕ) × ai.State
  unfolding translate_batch_with_unknown_retry insert_all pick fill_empty
      missing_translation_indices
  complete_missing st cues m count = elim (missing_translation_indices (ids_of cues) m) [
    | [] ↦ (ok (m, count), st)
    | i ∷ is ↦
        let (batch, st') = translate_batch_with_unknown_retry st (pick cues (i ∷ is)) in
        elim batch [
          | err e ↦ (err e, st')
          | ok (answers, issued) ↦
              let merged = insert_all answers m in
              (
                ok (
                  fill_empty cues (missing_translation_indices (ids_of cues) merged) merged,
                  count + issued,
                ),
                st',
              )
        ]
  ]

  -- Step 3 of `translate_subtitle`, on the chunks that `chunk_ranges` gives.
  unfoldable pub translate_cues :
      ai.State → List (Text × Text) → List (List ℕ) → Result Error (Translations × ℕ) × ai.State
  unfolding translate_chunks complete_missing
  translate_cues st cues chunks =
      let (initial, st') = translate_chunks st cues chunks [] 0 in
      elim initial [ err e ↦ (err e, st') | ok (m, count) ↦ complete_missing st' cues m count ]
