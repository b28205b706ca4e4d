-- ===== src/Scheduler/Actions.antt =====
-- src/core/parallel/scheduler.rs: the scheduler's state and its atomic actions.
use subx_core.Prelude.{
  ℕ, zero, suc, Bool, List, [], ◌∷◌, Option, none, some, Text, leb, if◌then◌else◌, length, ◌=ᵗ◌,
}
use subx_core.Config.Types.{OverflowStrategy, block, drop_new, expand, drop_oldest, reject}
use subx_core.Scheduler.Queue.{PendingTask, remove_at, enqueue, select_next}

-- The messages of the code, by their cause; a task's own results are numbers.
pub data TaskResult : Type 0 where
  finished : ℕ → TaskResult
  dropped_by_overflow : TaskResult
  queue_full : TaskResult
  interrupted : TaskResult

pub data TaskStatus : Type 0 where
  pending running : TaskStatus
  completed : TaskResult → TaskStatus

pub record SchedulerConfig : Type 0 where
  pub max_concurrent_jobs : ℕ
  pub task_queue_size : ℕ
  pub enable_task_priorities : Bool
  pub overflow : OverflowStrategy

-- `arriving` holds the submitters before the overflow check, `admitted` those past it that have not
-- pushed their task yet; `executing` the spawned executions, each with a permit; `replies` what was
-- sent on the channels or returned at once, newest first, and `cancelled` the submitters that were
-- dropped before they had queued their task. `active` is the map of active tasks.
pub record Scheduler : Type 0 where
  pub config : SchedulerConfig
  pub arriving : List PendingTask
  pub admitted : List PendingTask
  pub queue : List PendingTask
  pub executing : List PendingTask
  pub permits : ℕ
  pub replies : List (PendingTask × TaskResult)
  pub cancelled : List PendingTask
  pub active : List (Text × TaskStatus)

unfoldable pub remove_active : Text → List (Text × TaskStatus) → List (Text × TaskStatus)
remove_active id [] = []
remove_active id ((k, s) ∷ rest) =
    if k =ᵗ id then remove_active id rest else (k, s) ∷ remove_active id rest

unfoldable pub get_active : Text → List (Text × TaskStatus) → Option TaskStatus
get_active id [] = none
get_active id ((k, s) ∷ rest) = if k =ᵗ id then some s else get_active id rest

unfoldable pub insert_active :
    Text → TaskStatus → List (Text × TaskStatus) → List (Text × TaskStatus)
unfolding remove_active
insert_active id s active = (id, s) ∷ remove_active id active

-- `if let Some(info) = active.get_mut(id) { .. }`
unfoldable pub update_active :
    Text → TaskStatus → List (Text × TaskStatus) → List (Text × TaskStatus)
update_active id s [] = []
update_active id s ((k, old) ∷ rest) = (k, if k =ᵗ id then s else old) ∷ update_active id s rest

unfoldable pub init : SchedulerConfig → Scheduler
init c = record {
  config = c;
  arriving = [];
  admitted = [];
  queue = [];
  executing = [];
  permits = c.max_concurrent_jobs;
  replies = [];
  cancelled = [];
  active = [];
}

-- The caller's task is registered.
unfoldable pub register : Scheduler → PendingTask → Scheduler
unfolding insert_active
register s t = record s {
  arriving = t ∷ s.arriving;
  active = insert_active t.task_id pending s.active;
}

-- `self.get_queue_size() >= self._config.task_queue_size`
unfoldable pub is_full : Scheduler → Bool
is_full s = leb s.config.task_queue_size (length s.queue)

-- `DropOldest`: the front of the queue is told that it was dropped and loses its entry.
unfoldable pub evict_oldest : Scheduler → Scheduler
unfolding remove_active
evict_oldest s = elim s.queue [
  | [] ↦ s
  | oldest ∷ rest ↦ record s {
    queue = rest;
    replies = (oldest, dropped_by_overflow) ∷ s.replies;
    active = remove_active oldest.task_id s.active;
  }
]

unfoldable pub admit : Scheduler → PendingTask → Scheduler
admit s t = record s { admitted = t ∷ s.admitted }

-- The submission returns at once, and its guard removes the active entry.
unfoldable pub turn_away : Scheduler → PendingTask → TaskResult → Scheduler
unfolding remove_active
turn_away s t r = record s {
  replies = (t, r) ∷ s.replies;
  active = remove_active t.task_id s.active;
}

-- The overflow check for the submitter `t`, which has left `arriving`. A blocked one goes back.
unfoldable pub overflow_check : Scheduler → PendingTask → Scheduler
unfolding admit evict_oldest turn_away is_full
overflow_check s t =
    if is_full s
    then (elim s.config.overflow [
      | block ↦ record s { arriving = t ∷ s.arriving }
      | drop_oldest ↦ admit (evict_oldest s) t
      | reject ↦ turn_away s t queue_full
      | drop_new ↦ turn_away s t dropped_by_overflow
      | expand ↦ admit s t
    ])
    else admit s t

unfoldable pub check_arriving : Scheduler → ℕ → Scheduler
unfolding overflow_check
check_arriving s i = elim (remove_at i s.arriving) [
  | none ↦ s
  | some (t, rest) ↦ overflow_check (record s { arriving = rest }) t
]

-- The admitted submitter pushes its task.
unfoldable pub push_admitted : Scheduler → ℕ → Scheduler
push_admitted s i = elim (remove_at i s.admitted) [
  | none ↦ s
  | some (t, rest) ↦ record s {
    admitted = rest;
    queue = enqueue s.config.enable_task_priorities t s.queue;
  }
]

-- One round of the background loop: a permit and a task, or nothing.
unfoldable pub dispatch : Scheduler → Scheduler
unfolding update_active
dispatch s = elim s.permits [
  | zero ↦ s
  | suc permits' ↦ elim (select_next s.config.enable_task_priorities s.queue) [
    | none ↦ s
    | some (t, rest) ↦ record s {
      queue = rest;
      executing = t ∷ s.executing;
      permits = permits';
      active = update_active t.task_id running s.active;
    }
  ]
]

-- A spawned execution ends with a result, sends it, and gives its permit back.
unfoldable pub complete : Scheduler → ℕ → ℕ → Scheduler
unfolding update_active
complete s i value = elim (remove_at i s.executing) [
  | none ↦ s
  | some (t, rest) ↦ record s {
    executing = rest;
    permits = suc s.permits;
    replies = (t, finished value) ∷ s.replies;
    active = update_active t.task_id (completed (finished value)) s.active;
  }
]

-- A spawned execution panics: its channel and its permit are dropped, and the submitter is told that it
-- was interrupted.
unfoldable pub interrupt : Scheduler → ℕ → Scheduler
interrupt s i = elim (remove_at i s.executing) [
  | none ↦ s
  | some (t, rest) ↦ record s {
    executing = rest;
    permits = suc s.permits;
    replies = (t, interrupted) ∷ s.replies;
  }
]

-- A submitter that waits for room is cancelled: its task is dropped, and its guard removes the entry.
unfoldable pub cancel : Scheduler → ℕ → Scheduler
unfolding remove_active
cancel s i = elim (remove_at i s.arriving) [
  | none ↦ s
  | some (t, rest) ↦ record s {
    arriving = rest;
    cancelled = t ∷ s.cancelled;
    active = remove_active t.task_id s.active;
  }
]

-- The submitter has its result, or was cancelled while its task was queued or executing, and its guard
-- removes the entry.
unfoldable pub drop_guard : Scheduler → Text → Scheduler
unfolding remove_active
drop_guard s id = record s { active = remove_active id s.active }

pub data Action : Type 0 where
  registers : PendingTask → Action
  checks : ℕ → Action
  pushes : ℕ → Action
  dispatches : Action
  completes : ℕ → ℕ → Action
  interrupts : ℕ → Action
  cancels : ℕ → Action
  drops_guard : Text → Action

unfoldable pub step : Scheduler → Action → Scheduler
step s (registers t) = register s t
step s (checks i) = check_arriving s i
step s (pushes i) = push_admitted s i
step s dispatches = dispatch s
step s (completes i value) = complete s i value
step s (interrupts i) = interrupt s i
step s (cancels i) = cancel s i
step s (drops_guard id) = drop_guard s id

unfoldable pub run : Scheduler → List Action → Scheduler
run s [] = s
run s (a ∷ rest) = run (step s a) rest
