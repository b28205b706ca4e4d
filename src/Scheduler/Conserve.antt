-- ===== src/Scheduler/Conserve.antt =====
-- No run of the scheduler of src/core/parallel/scheduler.rs loses a submission, answers it twice, or
-- loses a permit.
use subx_core.Prelude.{
  ℕ, zero, suc, ◌+◌, ◌≤◌, ◌≡◌, refl, ◌∙◌, List, [], ◌∷◌, ◌++◌, some, arith, Bool, true, false, ◌==◌,
  if◌then◌else◌, length, Option-cases, inl, inr,
}
use subx_core.Scheduler.Queue.{
  PendingTask, remove_at, insert_by_priority, enqueue, select_by_priority, select_next,
}
use subx_core.Scheduler.Bound.{length-remove_at}
use subx_core.Scheduler.Actions.{
  Scheduler, SchedulerConfig, TaskResult, Action, registers, checks, pushes, dispatches, completes,
  interrupts, cancels, drops_guard, init, register, admit, evict_oldest, turn_away, overflow_check,
  check_arriving, push_admitted, dispatch, complete, interrupt, cancel, drop_guard, step, run,
}

-- One if the channel is `n`.
unfoldable pub one : ℕ → PendingTask → ℕ
one n t = if t.sender == n then 1 else 0

-- How many tasks of a list answer on the channel `n`.
unfoldable pub tally : ℕ → List PendingTask → ℕ
unfolding one
tally n [] = 0
tally n (t ∷ ts) = one n t + tally n ts

unfoldable pub tally_replies : ℕ → List (PendingTask × TaskResult) → ℕ
unfolding one
tally_replies n [] = 0
tally_replies n ((t, r) ∷ ts) = one n t + tally_replies n ts

-- The submissions on the channel `n`, wherever they are.
unfoldable pub submissions : ℕ → Scheduler → ℕ
unfolding tally tally_replies
submissions n s =
    tally n s.arriving
    + tally n s.admitted
    + tally n s.queue
    + tally n s.executing
    + tally_replies n s.replies
    + tally n s.cancelled

unfoldable pub registered : ℕ → List Action → ℕ
unfolding one
registered n [] = 0
registered n (registers t ∷ rest) = one n t + registered n rest
registered n (_ ∷ rest) = registered n rest

tally-remove_at :
    (n i : ℕ) (xs : List PendingTask) (y : PendingTask) (rest : List PendingTask)
    → remove_at i xs ≡ some (y, rest)
    → tally n xs ≡ one n y + tally n rest
unfolding remove_at tally
tally-remove_at n i [] y rest e = cc
tally-remove_at n zero (x ∷ xs) y rest e = ground arith
tally-remove_at n (suc i) (x ∷ xs) y rest e = elim (Option-cases (remove_at i xs)) [
  | inl none_there ↦ absurd (ground arith)
  | inr ((z, others), found) ↦ ground (arith, tally-remove_at n i xs z others found)
]

tally-append : (n : ℕ) (xs ys : List PendingTask) → tally n (xs ++ ys) ≡ tally n xs + tally n ys
unfolding tally
tally-append n [] ys = omega arith
tally-append n (x ∷ xs) ys = omega (arith, tally-append n xs ys)

tally-insert :
    (n : ℕ) (t : PendingTask) (q : List PendingTask)
    → tally n (insert_by_priority t q) ≡ one n t + tally n q
unfolding insert_by_priority tally
tally-insert n t [] = refl
tally-insert n t (x ∷ q) = ground (arith, tally-insert n t q)

tally-enqueue :
    (n : ℕ) (b : Bool) (t : PendingTask) (q : List PendingTask)
    → tally n (enqueue b t q) ≡ one n t + tally n q
unfolding enqueue
tally-enqueue n true t q = tally-insert n t q
tally-enqueue n false t q = omega (arith, tally-append n q (t ∷ []), last)
  where
    last : tally n (t ∷ []) ≡ one n t
    last = unfold tally in omega arith

tally-select_next :
    (n : ℕ) (b : Bool) (q : List PendingTask) (y : PendingTask) (rest : List PendingTask)
    → select_next b q ≡ some (y, rest)
    → tally n q ≡ one n y + tally n rest
unfolding select_next select_by_priority
tally-select_next n true [] y rest e = cc
tally-select_next n true (x ∷ q) y rest e = tally-remove_at n _ (x ∷ q) y rest e
tally-select_next n false q y rest e = tally-remove_at n 0 q y rest e

overflow_check-submissions :
    (n : ℕ) (s : Scheduler) (t : PendingTask)
    → submissions n (overflow_check s t) ≡ one n t + submissions n s
unfolding overflow_check evict_oldest admit turn_away submissions tally tally_replies
overflow_check-submissions n s t = by_queue s.queue refl
  where
    by_queue :
        (q : List PendingTask)
        → s.queue ≡ q
        → submissions n (overflow_check s t) ≡ one n t + submissions n s
    by_queue [] e = ground arith
    by_queue (x ∷ q) e = ground arith

-- One action keeps every submission in one place and adds only the one that it registers.
step-submissions :
    (n : ℕ) (s : Scheduler) (a : Action)
    → submissions n (step s a) ≡ registered n (a ∷ []) + submissions n s
unfolding step register drop_guard check_arriving push_admitted dispatch complete interrupt cancel
    submissions registered tally tally_replies
step-submissions n s (registers t) = omega arith
step-submissions n s (checks i) = elim (Option-cases (remove_at i s.arriving)) [
  | inl e ↦ rw (e, check_arriving) (omega arith)
  | inr ((t, rest), e) ↦
      rw (e, check_arriving)
        (omega (
          arith,
          overflow_check-submissions n (record s { arriving = rest }) t,
          tally-remove_at n i s.arriving t rest e,
        ))
]
step-submissions n s (pushes i) = elim (Option-cases (remove_at i s.admitted)) [
  | inl e ↦ rw (e, push_admitted) (omega arith)
  | inr ((t, rest), e) ↦
      rw (e, push_admitted)
        (omega (
          arith,
          tally-enqueue n s.config.enable_task_priorities t s.queue,
          tally-remove_at n i s.admitted t rest e,
        ))
]
step-submissions n s dispatches =
    elim (Option-cases (select_next s.config.enable_task_priorities s.queue)) [
      | inl e ↦ ground arith
      | inr ((t, rest), e) ↦
          ground (arith, tally-select_next n s.config.enable_task_priorities s.queue t rest e)
    ]
step-submissions n s (completes i value) = elim (Option-cases (remove_at i s.executing)) [
  | inl e ↦ rw (e, complete) (omega arith)
  | inr ((t, rest), e) ↦ rw (e, complete) (omega (arith, tally-remove_at n i s.executing t rest e))
]
step-submissions n s (interrupts i) = elim (Option-cases (remove_at i s.executing)) [
  | inl e ↦ rw (e, interrupt) (omega arith)
  | inr ((t, rest), e) ↦ rw (e, interrupt) (omega (arith, tally-remove_at n i s.executing t rest e))
]
step-submissions n s (cancels i) = elim (Option-cases (remove_at i s.arriving)) [
  | inl e ↦ rw (e, cancel) (omega arith)
  | inr ((t, rest), e) ↦ rw (e, cancel) (omega (arith, tally-remove_at n i s.arriving t rest e))
]
step-submissions n s (drops_guard id) = omega arith

registered-cons :
    (n : ℕ) (a : Action) (rest : List Action)
    → registered n (a ∷ rest) ≡ registered n (a ∷ []) + registered n rest
unfolding registered
registered-cons n (registers t) rest = omega arith
registered-cons n (checks i) rest = omega arith
registered-cons n _ rest = omega arith

run-submissions :
    (n : ℕ) (s : Scheduler) (actions : List Action)
    → submissions n (run s actions) ≡ registered n actions + submissions n s
unfolding run
run-submissions n s [] = unfold registered in omega arith
run-submissions n s (a ∷ rest) =
    omega
      (arith, run-submissions n (step s a) rest, step-submissions n s a, registered-cons n a rest)

-- After any run of single submissions from the start, each channel has as many submissions, counted
-- over the arriving, admitted, queued, executing and answered ones and those that were cancelled while
-- they waited for room, as were registered on it: nothing else is lost, also when executions panic,
-- and a channel that was registered once is answered at most once.
pub run-keeps_submissions :
    (c : SchedulerConfig) (n : ℕ) (actions : List Action)
    → (submissions n (run (init c) actions) ≡ registered n actions)
      × (tally_replies n (run (init c) actions).replies ≤ registered n actions)
unfolding submissions
run-keeps_submissions c n actions = (total ∙ omega (arith, start), omega (arith, total, start))
  where
    total : submissions n (run (init c) actions) ≡ registered n actions + submissions n (init c)
    total = run-submissions n (init c) actions

    start : submissions n (init c) ≡ 0
    start = unfold init submissions tally tally_replies in refl

unfoldable pub permits_held : Scheduler → ℕ
permits_held s = s.permits + length s.executing

step-permits :
    (s : Scheduler) (a : Action)
    → (permits_held (step s a) ≡ permits_held s) × ((step s a).config ≡ s.config)
unfolding step register drop_guard check_arriving push_admitted dispatch complete interrupt cancel
    permits_held overflow_check evict_oldest admit turn_away
step-permits s (registers t) = (refl, refl)
step-permits s (checks i) = by_queue s.queue refl
  where
    by_queue :
        (q : List PendingTask)
        → s.queue ≡ q
        → (permits_held (check_arriving s i) ≡ permits_held s)
          × ((check_arriving s i).config ≡ s.config)
    by_queue [] e = ground arith
    by_queue (x ∷ q) e = ground arith
step-permits s (pushes i) = ground arith
step-permits s dispatches = ground arith
step-permits s (completes i value) = elim (Option-cases (remove_at i s.executing)) [
  | inl e ↦ rw (e, complete) (refl, refl)
  | inr ((t, rest), e) ↦ ground (arith, length-remove_at i s.executing t rest e)
]
step-permits s (interrupts i) = elim (Option-cases (remove_at i s.executing)) [
  | inl e ↦ rw (e, interrupt) (refl, refl)
  | inr ((t, rest), e) ↦ ground (arith, length-remove_at i s.executing t rest e)
]
step-permits s (cancels i) = ground arith
step-permits s (drops_guard id) = (refl, refl)

run_from-permits :
    (s : Scheduler) (actions : List Action) → permits_held (run s actions) ≡ permits_held s
unfolding run
run_from-permits s [] = refl
run_from-permits s (a ∷ rest) = run_from-permits (step s a) rest ∙ (step-permits s a).0

-- Every permit is free or held by exactly one execution, so never more tasks execute at one time than
-- the configuration allows.
pub run-permits :
    (c : SchedulerConfig) (actions : List Action)
    → ((run (init c) actions).permits + length (run (init c) actions).executing
        ≡ c.max_concurrent_jobs)
      × (length (run (init c) actions).executing ≤ c.max_concurrent_jobs)
unfolding permits_held init
run-permits c actions = (
  run_from-permits (init c) actions ∙ omega arith,
  omega (arith, run_from-permits (init c) actions),
)
