-- ===== src/Translation/Complete.antt =====
-- src/core/translation/engine.rs: what the batched translation asks, and what it returns.
use subx_core.Prelude.{ℕ, ◌≡◌, ◌⊎◌, List, [], ◌∷◌, ◌++◌, Text}
use subx_core.Translation.Engine.{ids_of, missing_translation_indices, pick}
use subx_core.Translation.Dialogue.{Exchanges, entered, asked, picked, Dialogue}

-- The requests of a run: those for the chunks, in order, and one for the cues that their answers
-- left out, unless they left none.
unfoldable pub AsksFor : List (Text × Text) → List (List ℕ) → Exchanges → Type 0
AsksFor cues chunks ex =
    (first : Exchanges) × (retry : Exchanges) × (ex ≡ first ++ retry)
    × (asked first ≡ picked cues chunks)
    × ((asked retry ≡ [])
        ⊎ (asked retry
            ≡ pick cues (missing_translation_indices (ids_of cues) (entered first [])) ∷ []))
