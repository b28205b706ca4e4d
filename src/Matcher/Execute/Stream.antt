-- ===== src/Matcher/Execute/Stream.antt =====
-- src/core/matcher/engine.rs, `execute_operations_audit`: the outcomes, the journal and the events
-- of a batch agree with each other.
use subx_core.Prelude.{
  ℕ, zero, suc, ◌+◌, ◌-◌, ◌≡◌, ◌≢◌, ◌≤◌, ◌<◌, refl, ap, ◌∙◌, Bool, true, false, List, [], ◌∷◌, ◌++◌,
  arith, length, length-append, replicate, ◌⊎◌, inl, inr,
}
use subx_core.Matcher.Types.{MatchOperation, ConflictResolution, skip, prompt}
use subx_core.Matcher.Plan.{MatchConfig}
use subx_core.Tasks.Disk.{Disk}
use subx_core.Matcher.Execute.Returns.{LacksTarget, IsBenignStep}
use subx_core.Matcher.Execute.{
  JournalEntry, OperationOutcome, applied, error_reported, not_run, ProgressEvent, started,
  advanced, ended, Outside, Run, Ending, returned, save_failed, stopped, panicked, diverged, Step,
  done, refused, step_panics, step_diverges, push_outcome, finish, pad, push_entry,
}

unfoldable pub count_applied : List OperationOutcome → ℕ
count_applied [] = 0
count_applied (applied ∷ rest) = suc (count_applied rest)
count_applied (error_reported ∷ rest) = count_applied rest
count_applied (not_run ∷ rest) = count_applied rest

-- The events `advanced 1`, …, `advanced n`.
unfoldable pub advances : ℕ → ℕ → List ProgressEvent
advances total zero = []
advances total (suc n) = advances total n ++ advanced (suc n) total ∷ []

count_applied-append :
    (xs ys : List OperationOutcome) → count_applied (xs ++ ys) ≡ count_applied xs + count_applied ys
unfolding count_applied
count_applied-append [] ys = omega arith
count_applied-append (applied ∷ xs) ys = omega (arith, count_applied-append xs ys)
count_applied-append (error_reported ∷ xs) ys = count_applied-append xs ys
count_applied-append (not_run ∷ xs) ys = count_applied-append xs ys

count_applied-replicate : (n : ℕ) → count_applied (replicate n not_run) ≡ 0
unfolding count_applied
count_applied-replicate zero = refl
count_applied-replicate (suc n) = count_applied-replicate n

length-replicate {ℓ} : {A : Type ℓ} (n : ℕ) (a : A) → length (replicate n a) ≡ n
length-replicate zero a = refl
length-replicate (suc n) a = ap suc (length-replicate n a)

-- The stream is one `started`, the progress up to `n`, and one `ended` with `n`.
unfoldable pub IsStream : ℕ → ℕ → List ProgressEvent → Type 0
IsStream total n events = events ≡ started total ∷ advances total n ++ ended n total ∷ []

-- What holds when the run has ended in this way; a batch panics only for a reason `P`, and fails to
-- return only for a reason `D`.
unfoldable pub IsReported : Type 0 → Type 0 → ℕ → Ending → Type 0
unfolding IsStream count_applied
IsReported P D total (returned run) =
    (length run.outcomes ≡ total)
    × (count_applied run.outcomes ≡ length run.journal)
    × ((n : ℕ) × (n ≤ total) × IsStream total n run.events)
IsReported P D total (save_failed run) =
    (suc (count_applied run.outcomes) ≡ length run.journal)
    × (length run.outcomes < total)
    × IsStream total (length run.outcomes) run.events
IsReported P D total (stopped run) = ⊥
IsReported P D total panicked = P
IsReported P D total diverged = D

-- The state at the position `i` of the loop.
unfoldable pub IsOpen : ℕ → ℕ → Run → Type 0
IsOpen total i run =
    (length run.outcomes ≡ i)
    × (count_applied run.outcomes ≡ length run.journal)
    × (run.events ≡ started total ∷ advances total (length run.outcomes))

closing :
    (total n : ℕ) (events : List ProgressEvent)
    → events ≡ started total ∷ advances total n
    → IsStream total n (events ++ ended n total ∷ [])
unfolding IsStream
closing total n events h = ap (λ ev. ev ++ ended n total ∷ []) h

pushing :
    (total : ℕ) (outcomes : List OperationOutcome) (o : OperationOutcome)
    (events : List ProgressEvent)
    → events ≡ started total ∷ advances total (length outcomes)
    → events ++ advanced (suc (length outcomes)) total ∷ []
      ≡ started total ∷ advances total (length (outcomes ++ o ∷ []))
unfolding advances
pushing total outcomes o events h =
    ap (λ ev. ev ++ advanced (suc (length outcomes)) total ∷ []) h
    ∙ ap (λ n. started total ∷ advances total n) {x = suc (length outcomes)}
        {y = length (outcomes ++ o ∷ [])} (omega (arith, length-append outcomes (o ∷ [])))

-- Some operation copies and has no target to copy to; `Covers` is that each such one gives `E`.
unfoldable pub SomeLacksTarget : {F : Type 0} → List (MatchOperation F) → Type 0
unfolding LacksTarget
SomeLacksTarget [] = ⊥
SomeLacksTarget (op ∷ operations) = LacksTarget op ⊎ SomeLacksTarget operations

unfoldable pub Covers : {F : Type 0} → Type 0 → List (MatchOperation F) → Type 0
Covers E [] = Unit
Covers E (op ∷ operations) = (LacksTarget op → E) × Covers E operations

pub covers :
    {F : Type 0} (E : Type 0) (operations : List (MatchOperation F))
    → (SomeLacksTarget operations → E)
    → Covers E operations
unfolding SomeLacksTarget Covers
covers E [] h = tt
covers E (op ∷ operations) h = (λ l. h (inl l), covers E operations (λ s. h (inr s)))

module _ (P D : Type 0) where
  pub either-IsReported :
      (total : ℕ) (b : Bool) (x y : Ending)
      → IsReported P D total x
      → IsReported P D total y
      → IsReported P D total (elim b [ true ↦ x | false ↦ y ])
  either-IsReported total true x y h k = h
  either-IsReported total false x y h k = k

  pub step-IsReported :
      (mode : ConflictResolution) (excuse : Type 0) (total : ℕ) (s : Step) (x : Disk → Ending)
      (y : JournalEntry → Disk → Ending)
      → IsBenignStep mode excuse s
      → ((mode ≢ skip) ⊎ excuse → P)
      → (mode ≡ prompt → D)
      → ((disk : Disk) → IsReported P D total (x disk))
      → ((entry : JournalEntry) (disk : Disk) → IsReported P D total (y entry disk))
      → IsReported P D total (elim s [
        | refused disk ↦ x disk
        | done entry disk ↦ y entry disk
        | step_panics ↦ panicked
        | step_diverges ↦ diverged
      ])
  unfolding IsReported IsBenignStep
  step-IsReported mode excuse total (refused disk) x y b p d h k = h disk
  step-IsReported mode excuse total (done entry disk) x y b p d h k = k entry disk
  step-IsReported mode excuse total step_panics x y b p d h k = p b
  step-IsReported mode excuse total step_diverges x y b p d h k = d b

module _ {F : Type 0} (config : MatchConfig F) (fuel : ℕ) (outside : Outside) where
  pub refused-IsOpen :
      (total i : ℕ) (run : Run) (disk : Disk)
      → IsOpen total i run
      → IsOpen total
          (suc i)
          (push_outcome config fuel outside total error_reported (record run { disk = disk }))
  unfolding IsOpen push_outcome count_applied
  refused-IsOpen total i run disk (a, b, c) = (
    omega (arith, length-append run.outcomes (error_reported ∷ [])),
    omega (arith, count_applied-append run.outcomes (error_reported ∷ [])),
    pushing total run.outcomes error_reported run.events c,
  )

  pub applied-IsOpen :
      (total i : ℕ) (run : Run) (entry : JournalEntry) (disk : Disk)
      → IsOpen total i run
      → IsOpen total (suc i) (
          push_outcome config fuel outside total applied
            (push_entry config fuel outside entry disk run))
  unfolding IsOpen push_outcome push_entry count_applied
  applied-IsOpen total i run entry disk (a, b, c) = (
    omega (arith, length-append run.outcomes (applied ∷ [])),
    omega (
      arith,
      count_applied-append run.outcomes (applied ∷ []),
      length-append run.journal (entry ∷ []),
    ),
    pushing total run.outcomes applied run.events c,
  )

module _ {F : Type 0} (config : MatchConfig F) (fuel : ℕ) (outside : Outside) (P D : Type 0) where
  pub closed-IsReported :
      (total i : ℕ) (run : Run)
      → i ≡ total
      → IsOpen total i run
      → IsReported P D total (returned (finish config fuel outside total run))
  unfolding IsOpen IsReported finish
  closed-IsReported total i run e (a, b, c) = (
    a ∙ e,
    b,
    (length run.outcomes, omega arith, closing total (length run.outcomes) run.events c),
  )

  pub cancelled-IsReported :
      (total i : ℕ) (run : Run)
      → i ≤ total
      → IsOpen total i run
      → IsReported P D total
          (returned (pad config fuel outside total (finish config fuel outside total run)))
  unfolding IsOpen IsReported finish pad
  cancelled-IsReported total i run e (a, b, c) =
      let rest = replicate (total - length run.outcomes) not_run in
      (
        omega (
          arith,
          length-append run.outcomes rest,
          length-replicate (total - length run.outcomes) not_run,
        ),
        omega (
          arith,
          count_applied-append run.outcomes rest,
          count_applied-replicate (total - length run.outcomes),
        ),
        (length run.outcomes, omega arith, closing total (length run.outcomes) run.events c),
      )

  pub unsaved-IsReported :
      (total i : ℕ) (run : Run) (entry : JournalEntry) (disk : Disk)
      → i < total
      → IsOpen total i run
      → IsReported P D total (
          save_failed
            (finish config fuel outside total (push_entry config fuel outside entry disk run)))
  unfolding IsOpen IsReported finish push_entry
  unsaved-IsReported total i run entry disk e (a, b, c) = (
    omega (arith, length-append run.journal (entry ∷ [])),
    omega arith,
    closing total (length run.outcomes) run.events c,
  )
