-- ===== src/Scheduler/Tests.antt =====
-- Runs of the scheduler of src/core/parallel/scheduler.rs on a queue of size one or two.
use subx_core.Prelude.{ℕ, ◌+◌, ◌≤◌, ◌<◌, ◌≡◌, refl, arith, true, List, [], ◌∷◌, ◌++◌, some, length}
use subx_core.Config.Types.{OverflowStrategy, drop_new, drop_oldest, reject}
use subx_core.Scheduler.Queue.{
  TaskPriority, low, normal, high, rank, PendingTask, level, remove_at, insert_by_priority, enqueue,
  select_by_priority,
}
use subx_core.Scheduler.Actions.{
  SchedulerConfig, Scheduler, Action, registers, checks, pushes, dispatches, completes, init,
  register, is_full, admit, overflow_check, check_arriving, push_admitted, step, run, insert_active,
  remove_active, pending, get_active,
}
use subx_core.Scheduler.Select.{AllLe, AllLt, select_by_priority-last_max}
use subx_core.Scheduler.Order.{Descending, IsOrdered, run-IsOrdered, select_by_priority-newest}
use subx_core.Scheduler.Bound.{AlwaysLimited, run-queue_bound}
use subx_core.Scheduler.Conserve.{
  submissions, registered, tally_replies, run-keeps_submissions, run-permits,
}
use subx_core.Scheduler.Drain.{rounds, Idle, run-drains}
use subx_core.Scheduler.Batch.{awaiting, enqueue_batch, clean_up, enqueue_batch-leaves_entries}

abbrev task : ℕ → TaskPriority → PendingTask
task n priority = record { task_id = n ∷ []; sender = n; priority = priority }

abbrev settings : OverflowStrategy → SchedulerConfig
settings overflow = record {
  max_concurrent_jobs = 1;
  task_queue_size = 1;
  enable_task_priorities = true;
  overflow = overflow;
}

-- Two submitters pass the check for the one place of the queue before either has pushed.
abbrev race : List Action
race =
    registers (task 1 normal)
    ∷ registers (task 2 high)
    ∷ checks 0
    ∷ checks 0
    ∷ pushes 0
    ∷ pushes 0
    ∷ []

race_exceeds : length (run (init (settings reject)) race).queue ≡ 2
unfolding run step register check_arriving overflow_check is_full admit push_admitted enqueue
    insert_by_priority remove_at init insert_active remove_active level rank
race_exceeds = refl

race_limited : AlwaysLimited 2 (init (settings reject)) race
unfolding step register check_arriving overflow_check is_full admit push_admitted enqueue
    insert_by_priority remove_at init insert_active remove_active level rank
race_limited = (
  omega arith,
  (omega arith, (omega arith, (omega arith, (omega arith, (omega arith, omega arith))))),
)

run-queue_bound_example : length (run (init (settings reject)) race).queue < 1 + 2
run-queue_bound_example =
    run-queue_bound (settings reject) 2 race (λ e. cc) (omega arith) race_limited

run-IsOrdered_example : IsOrdered (run (init (settings reject)) race)
run-IsOrdered_example = run-IsOrdered (settings reject) race refl

abbrev served : List Action
served = race ++ dispatches ∷ completes 0 7 ∷ dispatches ∷ []

run-keeps_submissions_example :
    (submissions 2 (run (init (settings reject)) served) ≡ registered 2 served)
    × (tally_replies 2 (run (init (settings reject)) served).replies ≤ registered 2 served)
run-keeps_submissions_example = run-keeps_submissions (settings reject) 2 served

run-permits_example :
    ((run (init (settings reject)) served).permits
        + length (run (init (settings reject)) served).executing
      ≡ 1)
    × (length (run (init (settings reject)) served).executing ≤ 1)
run-permits_example = run-permits (settings reject) served

abbrev waiting : List PendingTask
waiting = task 1 high ∷ task 2 normal ∷ task 3 low ∷ []

select_by_priority-last_max_example :
    (xs : List PendingTask) × (x : PendingTask) × (ys : List PendingTask) × (waiting ≡ xs ++ x ∷ ys)
    × AllLe (level x) xs
    × AllLt (level x) ys
    × (select_by_priority waiting ≡ some (x, xs ++ ys))
select_by_priority-last_max_example = select_by_priority-last_max waiting (λ e. cc)

waiting_ordered : Descending waiting
unfolding level rank
waiting_ordered = ((omega arith, (omega arith, tt)), ((omega arith, tt), (tt, tt)))

below_high : AllLe (level (task 4 high)) waiting
unfolding level rank
below_high = (omega arith, (omega arith, (omega arith, tt)))

select_by_priority-newest_example :
    select_by_priority (insert_by_priority (task 4 high) waiting) ≡ some (task 4 high, waiting)
select_by_priority-newest_example =
    select_by_priority-newest (task 4 high) waiting waiting_ordered below_high

abbrev full : OverflowStrategy → Scheduler
full overflow = record (init (settings overflow)) { queue = waiting }

full-is_full : (overflow : OverflowStrategy) → is_full (full overflow) ≡ true
unfolding is_full init
full-is_full overflow = refl

full-IsOrdered : IsOrdered (full drop_oldest)
unfolding init
full-IsOrdered = record { enabled = refl; ordered = waiting_ordered }

enqueue_batch-leaves_entries_example :
    (s' : Scheduler) × (enqueue_batch (full drop_new) (task 7 low ∷ task 8 high ∷ []) []
      ≡ awaiting s' [])
    × (s'.queue ≡ (full drop_new).queue)
    × ((get_active (7 ∷ []) (clean_up s' []).active ≡ some pending)
        × ((get_active (8 ∷ []) (clean_up s' []).active ≡ some pending) × Unit {0}))
enqueue_batch-leaves_entries_example =
    enqueue_batch-leaves_entries (full drop_new) (task 7 low ∷ task 8 high ∷ [])
      (full-is_full drop_new) (unfold init in refl)

full-Idle : Idle (full reject)
unfolding init
full-Idle = (λ e. omega arith, refl)

run-drains_example :
    ((run (full reject) (rounds 7 3)).queue ≡ [])
    × Idle (run (full reject) (rounds 7 3))
    × (length (run (full reject) (rounds 7 3)).replies ≡ length (full reject).replies + 3)
run-drains_example = run-drains (full reject) 7 full-Idle
