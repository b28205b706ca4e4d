-- ===== src/Matcher/Execute/Audit.antt =====
-- src/core/matcher/engine.rs, `execute_operations_audit`: how a batch can end, and what it has then
-- reported.
use subx_core.Prelude.{
  ℕ, suc, ◌+◌, ◌≡◌, ◌≢◌, refl, false, List, [], ◌∷◌, arith, length, ◌⊎◌, inl, inr,
}
use subx_core.Matcher.Types.{MatchOperation, skip, prompt}
use subx_core.Matcher.Plan.{MatchConfig}
use subx_core.Tasks.Disk.{Disk}
use subx_core.Matcher.Execute.{Outside, Run, run_operation, audit_loop, execute_operations_audit}
use subx_core.Matcher.Execute.Returns.{LacksTarget, run_operation-IsBenign}
use subx_core.Matcher.Execute.Stream.{
  count_applied, advances, IsReported, SomeLacksTarget, Covers, covers, IsOpen, either-IsReported,
  step-IsReported, closed-IsReported, cancelled-IsReported, unsaved-IsReported, refused-IsOpen,
  applied-IsOpen,
}

module _ {F : Type 0} (config : MatchConfig F) (fuel : ℕ) (outside : Outside) where
  Excuse : Type 0 → Type 0
  Excuse E = (config.conflict_resolution ≢ skip) ⊎ E

  audit_loop-IsReported :
      (E : Type 0) (total i : ℕ) (operations : List (MatchOperation F)) (run : Run)
      → Covers E operations
      → i + length operations ≡ total
      → IsOpen total i run
      → IsReported
          (Excuse E)
          (config.conflict_resolution ≡ prompt)
          total
          (audit_loop config (suc fuel) outside total i operations run)
  unfolding audit_loop Covers Excuse
  audit_loop-IsReported E total i [] run v e open_run =
      closed-IsReported config (suc fuel) outside _ _ total i run (omega arith) open_run
  audit_loop-IsReported E total i (op ∷ operations) run (u, v) e open_run =
      let later : (r : Run)
          → IsOpen total (suc i) r
          → IsReported (Excuse E) (config.conflict_resolution ≡ prompt) total
              (audit_loop config (suc fuel) outside total (suc i) operations r) =
        λ r h. audit_loop-IsReported E total (suc i) operations r v (omega arith) h in
      either-IsReported _ _ total (outside.cancelled i) _ _
        (cancelled-IsReported config (suc fuel) outside _ _ total i run (omega arith) open_run)
        (step-IsReported _ _ config.conflict_resolution (LacksTarget op) total
          (run_operation config (suc fuel) outside i op run.disk) _ _
          (run_operation-IsBenign config fuel outside i op run.disk) (excused u) (λ d. d)
          (λ disk. later _ (refused-IsOpen config (suc fuel) outside total i run disk open_run))
          (λ entry disk.
            either-IsReported _ _ total (outside.journal_saved i) _ _
              (later _ (applied-IsOpen config (suc fuel) outside total i run entry disk open_run))
              (unsaved-IsReported config (suc fuel) outside _ _ total i run entry disk (omega arith)
                open_run)))
    where
      excused :
          (LacksTarget op → E) → (config.conflict_resolution ≢ skip) ⊎ LacksTarget op → Excuse E
      excused f (inl m) = inl m
      excused f (inr l) = inr (f l)

  -- A batch that is executed for real either returns, with an outcome for each operation, an entry of
  -- the journal for each applied one, and one `started`, the numbered progress and one `ended` as
  -- events; or its journal cannot be saved, one entry after the recorded outcomes, with the same
  -- stream; or it panics, which takes another mode than `skip` or an operation that copies without a
  -- target; or it does not return, which takes the mode `prompt`.
  pub execute_operations_audit-IsReported :
      (operations : List (MatchOperation F)) (disk : Disk)
      → IsReported
          ((config.conflict_resolution ≢ skip) ⊎ SomeLacksTarget operations)
          (config.conflict_resolution ≡ prompt)
          (length operations)
          (execute_operations_audit config (suc fuel) outside operations false disk)
  unfolding execute_operations_audit IsOpen advances count_applied Excuse
  execute_operations_audit-IsReported operations disk =
      audit_loop-IsReported (SomeLacksTarget operations) (length operations) 0 operations _
        (covers (SomeLacksTarget operations) operations (λ s. s)) (omega arith) (refl, refl, refl)
