-- ===== src/Translation/Dialogue.antt =====
-- src/core/translation/engine.rs: the calls of the provider behind a batched translation.
use subx_core.Prelude.{
  ℕ, suc, ◌+◌, ◌*◌, ◌≤◌, ◌≡◌, refl, sym, ap, subst, ◌⊎◌, ◌∙◌, arith, List, [], ◌∷◌, ◌++◌, Text,
  length, Result, ok, err, inl, inr,
}
use subx_core.Translation.Response.{Error, unknown_id, Translations}
use subx_core.Translation.Engine.{
  Ai, ids_of, insert_all, missing_translation_indices, pick, fill_empty, answer, retry_result,
  translate_batch_once, translate_batch_with_unknown_retry, translate_chunks, complete_missing,
}
use subx_core.Translation.Fallback.{with_fallback}

-- What was asked and accepted: the cues of a request with the translations of its answer.
abbrev pub Exchanges : Type 0
Exchanges = List (List (Text × Text) × Translations)

-- The translations of the answers, entered one answer after the other.
unfoldable pub entered : Exchanges → Translations → Translations
entered [] m = m
entered ((cues, answers) ∷ more) m = entered more (insert_all answers m)

unfoldable pub asked : Exchanges → List (List (Text × Text))
asked [] = []
asked ((cues, answers) ∷ more) = cues ∷ asked more

unfoldable pub picked : List (Text × Text) → List (List ℕ) → List (List (Text × Text))
picked cues [] = []
picked cues (chunk ∷ chunks) = pick cues chunk ∷ picked cues chunks

pub entered-append :
    (xs ys : Exchanges) (m : Translations) → entered (xs ++ ys) m ≡ entered ys (entered xs m)
unfolding entered
entered-append [] ys m = refl
entered-append ((cues, answers) ∷ xs) ys m = entered-append xs ys (insert_all answers m)

asked-append : (xs ys : Exchanges) → asked (xs ++ ys) ≡ asked xs ++ asked ys
unfolding asked
asked-append [] ys = refl
asked-append ((cues, answers) ∷ xs) ys = ap (λ l. cues ∷ l) (asked-append xs ys)

module _ (ai : Ai) where
  -- So many calls of the provider lead from a state to another, with the exchanges whose answers were
  -- accepted; the answer of any other call names an unknown id, and is thrown away.
  pub data Dialogue : Ai.State ai → ℕ → Exchanges → Ai.State ai → Type 0 where
    silent : {st : Ai.State ai} → Dialogue st 0 [] st
    accepted :
        {st st' : Ai.State ai} {n : ℕ} {more : Exchanges} (cues : List (Text × Text))
        (answers : Translations)
        → answer ai (ai.chat_completion st cues).0 (ids_of cues) ≡ ok answers
        → Dialogue (ai.chat_completion st cues).1 n more st'
        → Dialogue st (suc n) ((cues, answers) ∷ more) st'
    thrown_away :
        {st st' : Ai.State ai} {n : ℕ} {more : Exchanges} (cues : List (Text × Text))
        → answer ai (ai.chat_completion st cues).0 (ids_of cues) ≡ err unknown_id
        → Dialogue (ai.chat_completion st cues).1 n more st'
        → Dialogue st (suc n) more st'

  one_or_two :
      (first second : Result Error Translations) (s1 s2 st1 : Ai.State ai) (answers : Translations)
      (issued : ℕ)
      → ◌≡◌ {A = Result Error (Translations × ℕ) × Ai.State ai}
          (elim first [
            | ok m ↦ (ok (m, 1), s1)
            | err unknown_id ↦ (retry_result ai second, s2)
            | err e ↦ (err e, s1)
          ])
          (ok (answers, issued), st1)
      → ((first ≡ ok answers) × (1 ≡ issued) × (s1 ≡ st1))
        ⊎ ((first ≡ err unknown_id) × (second ≡ ok answers) × (2 ≡ issued) × (s2 ≡ st1))
  unfolding retry_result
  one_or_two (ok m) second s1 s2 st1 answers issued h = inl (ground (arith, h))
  one_or_two (err unknown_id) (ok m) s1 s2 st1 answers issued h = inr (ground (arith, h))
  one_or_two (err unknown_id) (err unknown_id) s1 s2 st1 answers issued h =
      absurd (ground (arith, h))
  one_or_two (err unknown_id) (err _) s1 s2 st1 answers issued h = absurd (ground (arith, h))
  one_or_two (err _) second s1 s2 st1 answers issued h = absurd (ground (arith, h))

  -- One batch is one call with an accepted answer, or two when the first answer named an unknown id.
  batch-Dialogue :
      (st st1 st' : Ai.State ai) (cues : List (Text × Text)) (answers : Translations) (issued n : ℕ)
      (more : Exchanges)
      → translate_batch_with_unknown_retry ai st cues ≡ (ok (answers, issued), st1)
      → Dialogue st1 n more st'
      → Dialogue st (issued + n) ((cues, answers) ∷ more) st' × (1 ≤ issued) × (issued ≤ 2)
  unfolding translate_batch_with_unknown_retry translate_batch_once
  batch-Dialogue st st1 st' cues answers issued n more h d =
      let (c1, s1) = ai.chat_completion st cues in
      let (c2, s2) = ai.chat_completion s1 cues in
      elim (one_or_two (answer ai c1 (ids_of cues)) (answer ai c2 (ids_of cues)) s1 s2 st1 answers
        issued h) [
          | inl (fine, count, same) ↦ (
            subst (λ k. Dialogue st k ((cues, answers) ∷ more) st') {x = suc n} {y = issued + n}
                (omega (arith, count))
                (accepted cues answers fine (subst (λ s. Dialogue s n more st') (sym same) d)),
            omega (arith, count),
            omega (arith, count),
          )
          | inr (unknown, fine, count, same) ↦ (
            subst (λ k. Dialogue st k ((cues, answers) ∷ more) st') {x = suc (suc n)}
                {y = issued + n} (omega (arith, count))
                (thrown_away cues unknown
                  (accepted cues answers fine (subst (λ s. Dialogue s n more st') (sym same) d))),
            omega (arith, count),
            omega (arith, count),
          )
        ]

  -- What the loop over the chunks adds to a dialogue.
  abbrev ChunksRun :
      Ai.State ai
      → List (Text × Text)
      → List (List ℕ)
      → Translations
      → Translations
      → ℕ
      → ℕ
      → ℕ
      → Exchanges
      → Ai.State ai
      → Type 0
  ChunksRun st cues chunks m m1 count n1 k more st' =
      (ex : Exchanges) × (d : ℕ) × (Dialogue st (d + k) (ex ++ more) st')
      × (n1 ≡ count + d)
      × (m1 ≡ entered ex m)
      × (asked ex ≡ picked cues chunks)
      × (length chunks ≤ d)
      × (d ≤ 2 * length chunks)

  pub translate_chunks-Dialogue :
      (chunks : List (List ℕ)) (st st1 st' : Ai.State ai) (cues : List (Text × Text))
      (m m1 : Translations) (count n1 k : ℕ) (more : Exchanges)
      → translate_chunks ai st cues chunks m count ≡ (ok (m1, n1), st1)
      → Dialogue st1 k more st'
      → ChunksRun st cues chunks m m1 count n1 k more st'
  unfolding translate_chunks entered asked picked
  translate_chunks-Dialogue [] st st1 st' cues m m1 count n1 k more h d =
      let (same, size, there) : (m ≡ m1) × (count ≡ n1) × (st ≡ st1) = ground (arith, h) in
      (
        [],
        0,
        subst (λ j. Dialogue st j more st') {x = k} {y = 0 + k} (omega arith)
            (subst (λ s. Dialogue s k more st') (sym there) d),
        omega (arith, size),
        sym same,
        refl,
        omega arith,
        omega arith,
      )
  translate_chunks-Dialogue (chunk ∷ chunks) st st1 st' cues m m1 count n1 k more h d =
      by_batch (translate_batch_with_unknown_retry ai st (pick cues chunk)) refl (λ s ans c e.
        translate_chunks-Dialogue chunks s st1 st' cues (insert_all ans m) m1 c n1 k more e d)
    where
      by_batch :
          (b : Result Error (Translations × ℕ) × Ai.State ai)
          → translate_batch_with_unknown_retry ai st (pick cues chunk) ≡ b
          → ((s : Ai.State ai) (ans : Translations) (c : ℕ)
              → translate_chunks ai s cues chunks (insert_all ans m) c ≡ (ok (m1, n1), st1)
              → ChunksRun s cues chunks (insert_all ans m) m1 c n1 k more st')
          → ChunksRun st cues (chunk ∷ chunks) m m1 count n1 k more st'
      by_batch (ok (ans, issued), s) b ih =
          let (ex, e, dialogue, size, same, all, low, high) =
            ih s ans (count + issued) (ground (arith, h, b)) in
          let (dialogue', one, two) =
            batch-Dialogue st s st' (pick cues chunk) ans issued (e + k) (ex ++ more) b dialogue in
          (
            (pick cues chunk, ans) ∷ ex,
            issued + e,
            subst (λ j. Dialogue st j ((pick cues chunk, ans) ∷ ex ++ more) st')
                {x = issued + (e + k)} {y = issued + e + k} (omega arith) dialogue',
            omega (arith, size),
            same,
            ap (λ l. pick cues chunk ∷ l) all,
            omega (arith, low, one),
            omega (arith, high, two),
          )
      by_batch (err x, s) b ih = absurd (ground (arith, h, b))

  -- What the retry of the missing cues adds: nothing, or one exchange.
  abbrev RetryRun :
      Ai.State ai → List (Text × Text) → Translations → Translations → ℕ → ℕ → Ai.State ai → Type 0
  RetryRun st cues m r count n st' =
      (ex : Exchanges) × (d : ℕ) × (Dialogue st d ex st')
      × (n ≡ count + d)
      × (r ≡ with_fallback cues (entered ex m))
      × (d ≤ 2)
      × ((asked ex ≡ [])
          ⊎ (asked ex ≡ pick cues (missing_translation_indices (ids_of cues) m) ∷ []))

  pub complete_missing-Dialogue :
      (st st' : Ai.State ai) (cues : List (Text × Text)) (m r : Translations) (count n : ℕ)
      → complete_missing ai st cues m count ≡ (ok (r, n), st')
      → RetryRun st cues m r count n st'
  unfolding complete_missing with_fallback entered asked
  complete_missing-Dialogue st st' cues m r count n h =
      by_missing (missing_translation_indices (ids_of cues) m) refl
    where
      by_missing :
          (is : List ℕ)
          → missing_translation_indices (ids_of cues) m ≡ is
          → RetryRun st cues m r count n st'
      by_missing [] e =
          let (same, size, there) : (m ≡ r) × (count ≡ n) × (st ≡ st') = ground (arith, h, e) in
          (
            [],
            0,
            subst (λ s. Dialogue st 0 [] s) there silent,
            omega (arith, size),
            sym same ∙ sym (ap (λ is. fill_empty cues is m) e),
            omega arith,
            inl refl,
          )
      by_missing (i ∷ is) e =
          by_batch (translate_batch_with_unknown_retry ai st (pick cues (i ∷ is))) refl
        where
          by_batch :
              (b : Result Error (Translations × ℕ) × Ai.State ai)
              → translate_batch_with_unknown_retry ai st (pick cues (i ∷ is)) ≡ b
              → RetryRun st cues m r count n st'
          by_batch (ok (ans, issued), s) b =
              let (same, size, there) : (with_fallback cues (insert_all ans m) ≡ r)
                  × (count + issued ≡ n)
                  × (s ≡ st') =
                ground (arith, h, e, b) in
              let (dialogue, one, two) =
                batch-Dialogue st s st' (pick cues (i ∷ is)) ans issued 0 [] b
                  (subst (λ t. Dialogue s 0 [] t) there silent) in
              (
                (pick cues (i ∷ is), ans) ∷ [],
                issued + 0,
                dialogue,
                omega (arith, size),
                sym same,
                omega (arith, two),
                inr (ap (λ js. pick cues js ∷ []) (sym e)),
              )
          by_batch (err x, s) b = absurd (ground (arith, h, e, b))
