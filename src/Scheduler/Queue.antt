-- ===== src/Scheduler/Queue.antt =====
-- src/core/parallel/scheduler.rs: pending tasks, their priorities, and the two ways in and out of the
-- queue.
use subx_core.Prelude.{
  ℕ, zero, suc, Bool, true, false, List, [], ◌∷◌, ◌++◌, Option, none, some, Text, ltb, leb,
  if◌then◌else◌, max,
}

pub data TaskPriority : Type 0 where
  low normal high critical : TaskPriority

unfoldable pub rank : TaskPriority → ℕ
rank low = 0
rank normal = 1
rank high = 2
rank critical = 3

-- `sender` names the oneshot channel on which the submitter waits.
pub record PendingTask : Type 0 where
  pub task_id : Text
  pub sender : ℕ
  pub priority : TaskPriority

-- `impl Ord for PendingTask` compares the priorities alone.
unfoldable pub level : PendingTask → ℕ
unfolding rank
level t = rank t.priority

module _ {ℓ} {A : Type ℓ} where
  -- `VecDeque::remove(idx)`: the element and the others in order.
  unfoldable pub remove_at : ℕ → List A → Option (A × List A)
  remove_at i [] = none
  remove_at zero (x ∷ xs) = some (x, xs)
  remove_at (suc i) (x ∷ xs) = elim (remove_at i xs) [
    | none ↦ none
    | some (y, rest) ↦ some (y, x ∷ rest)
  ]

-- `q.iter().position(|t| t.priority < pending.priority)` and `q.insert(pos, pending)`, or the back.
unfoldable pub insert_by_priority : PendingTask → List PendingTask → List PendingTask
insert_by_priority t [] = t ∷ []
insert_by_priority t (x ∷ xs) =
    if ltb (level x) (level t) then t ∷ x ∷ xs else x ∷ insert_by_priority t xs

unfoldable pub enqueue : Bool → PendingTask → List PendingTask → List PendingTask
enqueue true t q = insert_by_priority t q
enqueue false t q = q ++ t ∷ []

-- `enumerate().max_by_key(|(_, t)| t.priority)`: of equal maxima the last one stays. `i` is the index
-- of the head of the list, `best` and `top` the maximum so far.
unfoldable pub max_index : ℕ → ℕ → ℕ → List PendingTask → ℕ
max_index i best top [] = best
max_index i best top (x ∷ xs) =
    max_index (suc i) (if leb top (level x) then i else best) (max top (level x)) xs

unfoldable pub select_by_priority : List PendingTask → Option (PendingTask × List PendingTask)
select_by_priority [] = none
select_by_priority (x ∷ xs) = remove_at (max_index 1 0 (level x) xs) (x ∷ xs)

unfoldable pub select_next : Bool → List PendingTask → Option (PendingTask × List PendingTask)
select_next true q = select_by_priority q
select_next false q = remove_at 0 q
