-- ===== src/Scheduler/Drain.antt =====
-- The scheduler of src/core/parallel/scheduler.rs empties its queue when nothing new arrives.
use subx_core.Prelude.{
  ℕ, zero, suc, ◌+◌, ◌≡◌, ◌≢◌, refl, sym, ap, ◌∙◌, arith, Bool, true, false, List, [], ◌∷◌, ◌++◌,
  some, length,
}
use subx_core.Scheduler.Queue.{PendingTask, remove_at, select_next}
use subx_core.Scheduler.Select.{select_by_priority-last_max}
use subx_core.Scheduler.Bound.{length-select_next}
use subx_core.Scheduler.Actions.{
  Scheduler, finished, Action, dispatches, completes, dispatch, complete, step, run,
}

-- `n` rounds of the loop, each followed by the end of the execution that it started.
abbrev pub rounds : ℕ → ℕ → List Action
rounds value zero = []
rounds value (suc n) = dispatches ∷ completes 0 value ∷ rounds value n

select_next-takes :
    (b : Bool) (q : List PendingTask)
    → q ≢ []
    → (t : PendingTask) × (rest : List PendingTask) × (select_next b q ≡ some (t, rest))
unfolding select_next
select_next-takes true q h =
    let (xs, x, ys, e, low, high, found) = select_by_priority-last_max q h in (x, xs ++ ys, found)
select_next-takes false [] h = absurd (h refl)
select_next-takes false (x ∷ q) h = (x, q, unfold remove_at in refl)

-- A state in which some permit is free and nothing executes.
abbrev pub Idle : Scheduler → Type 0
Idle s = (s.permits ≢ 0) × (s.executing ≡ [])

round_result :
    (s : Scheduler) (value : ℕ) (t : PendingTask) (rest : List PendingTask)
    → Idle s
    → select_next s.config.enable_task_priorities s.queue ≡ some (t, rest)
    → ((step (step s dispatches) (completes 0 value)).queue ≡ rest)
      × ((step (step s dispatches) (completes 0 value)).executing ≡ [])
      × ((step (step s dispatches) (completes 0 value)).permits ≡ s.permits)
      × ((step (step s dispatches) (completes 0 value)).replies ≡ (t, finished value) ∷ s.replies)
unfolding step dispatch complete remove_at
round_result s value t rest (free, idle) e = by_permits s.permits refl
  where
    by_permits :
        (n : ℕ)
        → s.permits ≡ n
        → ((step (step s dispatches) (completes 0 value)).queue ≡ rest)
          × ((step (step s dispatches) (completes 0 value)).executing ≡ [])
          × ((step (step s dispatches) (completes 0 value)).permits ≡ s.permits)
          × ((step (step s dispatches) (completes 0 value)).replies
              ≡ (t, finished value) ∷ s.replies)
    by_permits zero p = absurd (free p)
    by_permits (suc n) p = ground arith

drained :
    (n : ℕ) (s : Scheduler) (value : ℕ)
    → Idle s
    → length s.queue ≡ n
    → ((run s (rounds value n)).queue ≡ [])
      × Idle (run s (rounds value n))
      × (length (run s (rounds value n)).replies ≡ length s.replies + n)
unfolding run
drained zero s value idle e = (empty s.queue e, idle, omega arith)
  where
    empty : (q : List PendingTask) → length q ≡ 0 → q ≡ []
    empty [] h = refl
    empty (x ∷ q) h = absurd (omega arith)
drained (suc n) s value idle e =
    let b = s.config.enable_task_priorities in
    let (t, rest, found) = select_next-takes b s.queue (λ h. absurd (none_there h)) in
    let (queue, executing, permits, replies) = round_result s value t rest idle found in
    let s' = step (step s dispatches) (completes 0 value) in
    let size = length-select_next b s.queue t rest found in
    let (done, idle', answered) =
      drained n s' value (λ h. idle.0 (sym permits ∙ h), executing)
        (ap length queue ∙ omega arith) in
    (done, idle', answered ∙ (ap (λ r. length r + n) replies ∙ omega arith))
  where
    none_there : s.queue ≡ [] → ⊥
    none_there h = omega (arith, ap length h)

-- From a state with a free permit in which nothing executes, as many rounds as the queue is long empty
-- the queue, with priorities or without, and answer exactly the tasks that were in it in number; a
-- permit is free again and nothing executes.
pub run-drains :
    (s : Scheduler) (value : ℕ)
    → Idle s
    → ((run s (rounds value (length s.queue))).queue ≡ [])
      × Idle (run s (rounds value (length s.queue)))
      × (length (run s (rounds value (length s.queue))).replies ≡ length s.replies + length s.queue)
run-drains s value idle = drained (length s.queue) s value idle refl
