-- ===== src/Scheduler/Order.antt =====
-- The order of the queue of src/core/parallel/scheduler.rs when priorities are enabled.
use subx_core.Prelude.{
  ℕ, zero, suc, ◌≤◌, ◌≡◌, refl, ap, sym, ◌∙◌, List, [], ◌∷◌, ◌++◌, some, arith, true, ltb,
  Bool-cases, Option-cases, inl, inr,
}
use subx_core.Scheduler.Queue.{
  PendingTask, level, remove_at, insert_by_priority, enqueue, select_by_priority, select_next,
}
use subx_core.Scheduler.Actions.{
  Scheduler, SchedulerConfig, Action, registers, checks, pushes, dispatches, completes, interrupts,
  cancels, drops_guard, init, register, evict_oldest, overflow_check, check_arriving, push_admitted,
  dispatch, complete, interrupt, cancel, drop_guard, step, run,
}
use subx_core.Scheduler.Select.{AllLe, AllLt, AllLe-mono, AllLe-AllLt, select_by_priority_middle}

-- No task stands behind one of lower priority.
abbrev pub Descending : List PendingTask → Type 0
Descending [] = Unit {0}
Descending (x ∷ xs) = AllLe (level x) xs × Descending xs

insert-AllLe :
    (n : ℕ) (t : PendingTask) (q : List PendingTask)
    → level t ≤ n
    → AllLe n q
    → AllLe n (insert_by_priority t q)
unfolding insert_by_priority
insert-AllLe n t [] h a = (h, tt)
insert-AllLe n t (x ∷ q) h a = ground (arith, insert-AllLe n t q h a.1)

insert-Descending :
    (t : PendingTask) (q : List PendingTask) → Descending q → Descending (insert_by_priority t q)
unfolding insert_by_priority
insert-Descending t [] d = (tt, tt)
insert-Descending t (x ∷ q) d =
    ground (
      arith,
      insert-Descending t q d.1,
      insert-AllLe (level x) t q,
      AllLe-mono (level x) (level t) q,
    )

remove-AllLe :
    (n i : ℕ) (q : List PendingTask) (y : PendingTask) (rest : List PendingTask)
    → AllLe n q
    → remove_at i q ≡ some (y, rest)
    → (level y ≤ n) × AllLe n rest
unfolding remove_at
remove-AllLe n i [] y rest a e = cc
remove-AllLe n zero (x ∷ q) y rest a e = ground arith
remove-AllLe n (suc i) (x ∷ q) y rest a e = elim (Option-cases (remove_at i q)) [
  | inl none_there ↦ absurd (ground arith)
  | inr ((z, others), found) ↦ ground (arith, remove-AllLe n i q z others a.1 found)
]

remove-Descending :
    (i : ℕ) (q : List PendingTask) (y : PendingTask) (rest : List PendingTask)
    → Descending q
    → remove_at i q ≡ some (y, rest)
    → Descending rest
unfolding remove_at
remove-Descending i [] y rest d e = cc
remove-Descending zero (x ∷ q) y rest d e = ground arith
remove-Descending (suc i) (x ∷ q) y rest d e = elim (Option-cases (remove_at i q)) [
  | inl none_there ↦ absurd (ground arith)
  | inr ((z, others), found) ↦ ground (
    arith,
    remove-Descending i q z others d.1 found,
    remove-AllLe (level x) i q z others d.0 found,
  )
]

select_by_priority-Descending :
    (q : List PendingTask) (y : PendingTask) (rest : List PendingTask)
    → Descending q
    → select_by_priority q ≡ some (y, rest)
    → Descending rest
unfolding select_by_priority
select_by_priority-Descending [] y rest d e = cc
select_by_priority-Descending (x ∷ q) y rest d e = remove-Descending _ (x ∷ q) y rest d e

-- The queue of a scheduler with priorities, in order.
pub record IsOrdered (s : Scheduler) : Type 0 where
  pub enabled : s.config.enable_task_priorities ≡ true
  pub ordered : Descending s.queue

evict-IsOrdered : (s : Scheduler) → IsOrdered s → IsOrdered (evict_oldest s)
unfolding evict_oldest
evict-IsOrdered s v = by_queue s.queue refl
  where
    by_queue : (q : List PendingTask) → s.queue ≡ q → IsOrdered (evict_oldest s)
    by_queue [] e = ground arith
    by_queue (x ∷ q) e = ground arith

overflow_check-IsOrdered :
    (s : Scheduler) (t : PendingTask) → IsOrdered s → IsOrdered (overflow_check s t)
unfolding overflow_check
overflow_check-IsOrdered s t v = ground (arith, evict-IsOrdered s v)

-- Every action keeps the queue ordered by priority.
pub step-IsOrdered : (s : Scheduler) (a : Action) → IsOrdered s → IsOrdered (step s a)
unfolding step register drop_guard check_arriving push_admitted dispatch complete interrupt cancel
    enqueue select_next
step-IsOrdered s (registers t) v = ground arith
step-IsOrdered s (checks i) v = elim (Option-cases (remove_at i s.arriving)) [
  | inl e ↦ rw (e, check_arriving) v
  | inr ((t, rest), e) ↦
      rw (e, check_arriving)
        (overflow_check-IsOrdered (record s { arriving = rest }) t
          (record { enabled = v.enabled; ordered = v.ordered }))
]
step-IsOrdered s (pushes i) v = elim (Option-cases (remove_at i s.admitted)) [
  | inl e ↦ rw (e, push_admitted) v
  | inr ((t, rest), e) ↦ ground (arith, insert-Descending t s.queue v.ordered)
]
step-IsOrdered s dispatches v = elim (Option-cases (select_by_priority s.queue)) [
  | inl e ↦ ground arith
  | inr ((t, rest), e) ↦ ground (arith, select_by_priority-Descending s.queue t rest v.ordered)
]
step-IsOrdered s (completes i value) v = ground arith
step-IsOrdered s (interrupts i) v = ground arith
step-IsOrdered s (cancels i) v = ground arith
step-IsOrdered s (drops_guard id) v = ground arith

run_from-IsOrdered : (s : Scheduler) (rest : List Action) → IsOrdered s → IsOrdered (run s rest)
unfolding run
run_from-IsOrdered s [] v = v
run_from-IsOrdered s (a ∷ rest) v = run_from-IsOrdered (step s a) rest (step-IsOrdered s a v)

-- With priorities enabled the queue is ordered by priority after every run of actions.
pub run-IsOrdered :
    (c : SchedulerConfig) (actions : List Action)
    → c.enable_task_priorities ≡ true
    → IsOrdered (run (init c) actions)
unfolding init
run-IsOrdered c actions h =
    run_from-IsOrdered (init c) actions (record { enabled = h; ordered = tt })

insert_highest :
    (t : PendingTask) (q : List PendingTask)
    → Descending q
    → AllLe (level t) q
    → (xs : List PendingTask) × (ys : List PendingTask) × (q ≡ xs ++ ys)
      × (insert_by_priority t q ≡ xs ++ t ∷ ys)
      × AllLe (level t) xs
      × AllLt (level t) ys
unfolding insert_by_priority
insert_highest t [] d a = ([], [], refl, refl, tt, tt)
insert_highest t (x ∷ q) d a = elim (Bool-cases (ltb (level x) (level t))) [
  | inl lower ↦ (
    [],
    x ∷ q,
    refl,
    rw lower,
    tt,
    (ground arith, AllLe-AllLt (level x) (level t) q (ground arith) d.0),
  )
  | inr equal ↦
      let (xs, ys, e, f, l, u) = insert_highest t q d.1 a.1 in
      (x ∷ xs, ys, ap (◌∷◌ x) e, rw equal (ap (◌∷◌ x) f), (a.0, l), u)
]

-- Among tasks of the highest priority the newest runs first: a task that is pushed onto an ordered
-- queue in which none is higher is the next to be taken, ahead of those of its own priority.
pub select_by_priority-newest :
    (t : PendingTask) (q : List PendingTask)
    → Descending q
    → AllLe (level t) q
    → select_by_priority (insert_by_priority t q) ≡ some (t, q)
select_by_priority-newest t q d a =
    let (xs, ys, e, f, l, u) = insert_highest t q d a in
    ap select_by_priority f
    ∙ (select_by_priority_middle xs t ys l u ∙ ap (λ r. some (t, r)) (sym e))
