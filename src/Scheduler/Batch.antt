-- ===== src/Scheduler/Batch.antt =====
-- `submit_batch_tasks` of src/core/parallel/scheduler.rs: registering and enqueuing a batch, and the
-- entries that an overflow leaves in the map of active tasks.
use subx_core.Prelude.{
  ◌≡◌, refl, List, [], ◌∷◌, ◌++◌, some, arith, true, false, Text, if◌then◌else◌, ◌=ᵗ◌, =ᵗ-refl,
  =ᵗ-sound, Bool-cases, inl, inr,
}
use subx_core.Config.Types.{block, drop_new, expand, drop_oldest, reject}
use subx_core.Scheduler.Queue.{PendingTask, enqueue}
use subx_core.Scheduler.Actions.{
  Scheduler, TaskStatus, pending, get_active, remove_active, insert_active, is_full, evict_oldest,
}

-- How the enqueuing part of the call ends: it goes on to await the receivers; it returned early
-- with no results; or it still waits for room, with the tasks that are left.
pub data Batch : Type 0 where
  awaiting : Scheduler → List PendingTask → Batch
  rejected : Scheduler → Batch
  blocked : Scheduler → List PendingTask → List PendingTask → Batch

unfoldable pub register_batch : Scheduler → PendingTask → Scheduler
unfolding insert_active
register_batch s t = record s { active = insert_active t.task_id pending s.active }

unfoldable pub push_batch : Scheduler → PendingTask → Scheduler
push_batch s t = record s { queue = enqueue s.config.enable_task_priorities t s.queue }

unfoldable pub enqueue_batch : Scheduler → List PendingTask → List PendingTask → Batch
unfolding register_batch push_batch
enqueue_batch s [] receivers = awaiting s receivers
enqueue_batch s (t ∷ ts) receivers =
    let s' = register_batch s t in
    let pushed = enqueue_batch (push_batch s' t) ts (receivers ++ t ∷ []) in
    let replaced = enqueue_batch (push_batch (evict_oldest s') t) ts (receivers ++ t ∷ []) in
    let skipped = enqueue_batch s' ts receivers in
    if is_full s'
    then (elim s.config.overflow [
      | block ↦ blocked s' (t ∷ ts) receivers
      | drop_oldest ↦ replaced
      | reject ↦ rejected s'
      | drop_new ↦ skipped
      | expand ↦ pushed
    ])
    else pushed

-- After the results are in, the entries of the receivers are removed, and no others.
unfoldable pub clean_up : Scheduler → List PendingTask → Scheduler
clean_up s [] = s
clean_up s (t ∷ ts) = clean_up (record s { active = remove_active t.task_id s.active }) ts

get_active-insert :
    (id : Text) (st : TaskStatus) (active : List (Text × TaskStatus))
    → get_active id (insert_active id st active) ≡ some st
unfolding get_active insert_active
get_active-insert id st active = rw (=ᵗ-refl id)

get_active-remove_other :
    (id k : Text) (active : List (Text × TaskStatus))
    → (k =ᵗ id) ≡ false
    → get_active id (remove_active k active) ≡ get_active id active
unfolding get_active remove_active
get_active-remove_other id k [] h = refl
get_active-remove_other id k ((j, s) ∷ rest) h = elim (Bool-cases (j =ᵗ k)) [
  | inl same ↦
      let elsewhere : (j =ᵗ id) ≡ false = rw (=ᵗ-sound j k same) h in
      ground (arith, elsewhere, get_active-remove_other id k rest h)
  | inr other ↦ ground (arith, get_active-remove_other id k rest h)
]

abbrev Pending : Scheduler → Text → Type 0
Pending s id = get_active id s.active ≡ some pending

register_batch-Pending :
    (s : Scheduler) (t : PendingTask) (id : Text) → Pending s id → Pending (register_batch s t) id
unfolding register_batch get_active insert_active
register_batch-Pending s t id h = ground (arith, get_active-remove_other id t.task_id s.active)

abbrev AllPending : Scheduler → List PendingTask → Type 0
AllPending s [] = Unit {0}
AllPending s (t ∷ ts) = Pending s t.task_id × AllPending s ts

-- What `Drop` does to a batch that meets a full queue.
pub record Skipped (s : Scheduler) (ts receivers : List PendingTask) : Type 0 where
  pub after : Scheduler
  pub outcome : enqueue_batch s ts receivers ≡ awaiting after receivers
  pub queue_same : after.queue ≡ s.queue
  pub entries : AllPending after ts
  pub kept : (id : Text) → Pending s id → Pending after id

skip_batch :
    (ts : List PendingTask) (s : Scheduler) (receivers : List PendingTask)
    → is_full s ≡ true
    → s.config.overflow ≡ drop_new
    → Skipped s ts receivers
unfolding enqueue_batch is_full
skip_batch [] s receivers full drops = record {
  after = s;
  outcome = refl;
  queue_same = refl;
  entries = tt;
  kept = λ id h. h;
}
skip_batch (t ∷ ts) s receivers full drops =
    let rest = skip_batch ts (register_batch s t) receivers full drops in
    record {
      after = rest.after;
      outcome = ground (arith, rest.outcome);
      queue_same = rest.queue_same;
      entries = (
        rest.kept t.task_id (unfold register_batch in get_active-insert t.task_id pending s.active),
        rest.entries,
      );
      kept = λ id h. rest.kept id (register_batch-Pending s t id h);
    }

-- When the queue is full under `Drop`, a batch puts none of its tasks into the queue and awaits none,
-- yet every one of them stays in the map of active tasks as pending, also after the clean-up.
pub enqueue_batch-leaves_entries :
    (s : Scheduler) (ts : List PendingTask)
    → is_full s ≡ true
    → s.config.overflow ≡ drop_new
    → (s' : Scheduler) × (enqueue_batch s ts [] ≡ awaiting s' [])
      × (s'.queue ≡ s.queue)
      × AllPending (clean_up s' []) ts
unfolding clean_up
enqueue_batch-leaves_entries s ts full drops =
    let r = skip_batch ts s [] full drops in (r.after, r.outcome, r.queue_same, r.entries)
