-- ===== src/Scheduler/Bound.antt =====
-- How long the queue of src/core/parallel/scheduler.rs can get: the overflow check and the push are two
-- sections, so several submitters may pass the check for the same free place.
use subx_core.Prelude.{
  ℕ, zero, suc, ◌+◌, ◌≤◌, ◌<◌, ◌≡◌, ◌≢◌, refl, List, [], ◌∷◌, some, arith, Bool, true, false,
  length, length-append, Option-cases, inl, inr,
}
use subx_core.Config.Types.{expand}
use subx_core.Scheduler.Queue.{
  PendingTask, remove_at, insert_by_priority, enqueue, select_by_priority, select_next,
}
use subx_core.Scheduler.Actions.{
  Scheduler, SchedulerConfig, Action, registers, checks, pushes, dispatches, completes, interrupts,
  cancels, drops_guard, init, register, is_full, admit, evict_oldest, turn_away, overflow_check,
  check_arriving, push_admitted, dispatch, complete, interrupt, cancel, drop_guard, step, run,
}

pub length-remove_at {ℓ} :
    {A : Type ℓ} (i : ℕ) (xs : List A) (y : A) (rest : List A)
    → remove_at i xs ≡ some (y, rest)
    → length xs ≡ suc (length rest)
unfolding remove_at
length-remove_at i [] y rest e = cc
length-remove_at zero (x ∷ xs) y rest e = ground arith
length-remove_at (suc i) (x ∷ xs) y rest e = elim (Option-cases (remove_at i xs)) [
  | inl none_there ↦ absurd (ground arith)
  | inr ((z, others), found) ↦ ground (arith, length-remove_at i xs z others found)
]

length-insert :
    (t : PendingTask) (q : List PendingTask) → length (insert_by_priority t q) ≡ suc (length q)
unfolding insert_by_priority
length-insert t [] = refl
length-insert t (x ∷ q) = ground (arith, length-insert t q)

length-enqueue :
    (b : Bool) (t : PendingTask) (q : List PendingTask) → length (enqueue b t q) ≡ suc (length q)
unfolding enqueue
length-enqueue true t q = length-insert t q
length-enqueue false t q = omega (arith, length-append q (t ∷ []))

pub length-select_next :
    (b : Bool) (q : List PendingTask) (y : PendingTask) (rest : List PendingTask)
    → select_next b q ≡ some (y, rest)
    → length q ≡ suc (length rest)
unfolding select_next select_by_priority
length-select_next true [] y rest e = cc
length-select_next true (x ∷ q) y rest e = length-remove_at _ (x ∷ q) y rest e
length-select_next false q y rest e = length-remove_at 0 q y rest e

-- `k` bounds the submitters between their registration and their push.
abbrev pub Limited : ℕ → Scheduler → Type 0
Limited k s = length s.arriving + length s.admitted ≤ k

pub record IsBounded (k n : ℕ) (s : Scheduler) : Type 0 where
  pub limit : s.config.task_queue_size ≡ n
  pub strategy : s.config.overflow ≢ expand
  pub size : 0 < n
  pub bounded : length s.queue + length s.admitted < n + k

overflow_check-IsBounded :
    (k n : ℕ) (s : Scheduler) (t : PendingTask)
    → length s.arriving + length s.admitted + 1 ≤ k
    → IsBounded k n s
    → IsBounded k n (overflow_check s t)
unfolding overflow_check is_full evict_oldest admit turn_away
overflow_check-IsBounded k n s t h v = by_queue s.queue refl
  where
    by_queue : (q : List PendingTask) → s.queue ≡ q → IsBounded k n (overflow_check s t)
    by_queue [] e = ground arith
    by_queue (x ∷ q) e = ground arith

-- One action, taken while at most `k` submitters are on their way and as many after it.
step-IsBounded :
    (k n : ℕ) (s : Scheduler) (a : Action)
    → Limited k s
    → IsBounded k n s
    → IsBounded k n (step s a)
unfolding step register drop_guard check_arriving push_admitted dispatch complete interrupt cancel
step-IsBounded k n s (registers t) l v = ground arith
step-IsBounded k n s (checks i) l v = elim (Option-cases (remove_at i s.arriving)) [
  | inl e ↦ rw (e, check_arriving) v
  | inr ((t, rest), e) ↦
      rw (e, check_arriving)
        (overflow_check-IsBounded k n (record s { arriving = rest }) t
          (omega (arith, length-remove_at i s.arriving t rest e))
          (record { limit = v.limit; strategy = v.strategy; size = v.size; bounded = v.bounded }))
]
step-IsBounded k n s (pushes i) l v = elim (Option-cases (remove_at i s.admitted)) [
  | inl e ↦ rw (e, push_admitted) v
  | inr ((t, rest), e) ↦ ground (
    arith,
    length-enqueue s.config.enable_task_priorities t s.queue,
    length-remove_at i s.admitted t rest e,
  )
]
step-IsBounded k n s dispatches l v =
    elim (Option-cases (select_next s.config.enable_task_priorities s.queue)) [
      | inl e ↦ ground arith
      | inr ((t, rest), e) ↦
          ground (arith, length-select_next s.config.enable_task_priorities s.queue t rest e)
    ]
step-IsBounded k n s (completes i value) l v = ground arith
step-IsBounded k n s (interrupts i) l v = ground arith
step-IsBounded k n s (cancels i) l v = elim (Option-cases (remove_at i s.arriving)) [
  | inl e ↦ rw (e, cancel) v
  | inr ((t, rest), e) ↦ ground (arith, length-remove_at i s.arriving t rest e)
]
step-IsBounded k n s (drops_guard id) l v = ground arith

-- At every point of the run at most `k` submitters are between registration and push.
abbrev pub AlwaysLimited : ℕ → Scheduler → List Action → Type 0
AlwaysLimited k s [] = Limited k s
AlwaysLimited k s (a ∷ rest) = Limited k s × AlwaysLimited k (step s a) rest

run_from-IsBounded :
    (k n : ℕ) (s : Scheduler) (actions : List Action)
    → AlwaysLimited k s actions
    → IsBounded k n s
    → IsBounded k n (run s actions)
unfolding run
run_from-IsBounded k n s [] l v = v
run_from-IsBounded k n s (a ∷ rest) l v =
    run_from-IsBounded k n (step s a) rest l.1 (step-IsBounded k n s a l.0 v)

-- Unless the strategy is `Expand`, and with a positive queue size, the queue holds fewer tasks than its
-- size and the greatest number `k` of submitters that were on their way at one time together: a single
-- submitter at a time never makes it longer than its size, and `k` exceed it by at most `k - 1`.
pub run-queue_bound :
    (c : SchedulerConfig) (k : ℕ) (actions : List Action)
    → c.overflow ≢ expand
    → 0 < c.task_queue_size
    → AlwaysLimited k (init c) actions
    → length (run (init c) actions).queue < c.task_queue_size + k
unfolding init
run-queue_bound c k actions strategy size limited = omega (
  arith,
  (run_from-IsBounded k c.task_queue_size (init c) actions limited
      (record { limit = refl; strategy = strategy; size = size; bounded = omega arith })).bounded,
)
