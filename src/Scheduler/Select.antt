-- ===== src/Scheduler/Select.antt =====
-- What the selection by priority of src/core/parallel/scheduler.rs takes out of a queue.
use subx_core.Prelude.{
  ℕ, suc, ◌+◌, ◌≤◌, ◌<◌, ◌≡◌, ◌≢◌, refl, ap, subst, sym, ◌∙◌, List, [], ◌∷◌, ◌++◌, some, arith, leb,
  if◌then◌else◌, max, length, Bool-cases, inl, inr, le→leb,
}
use subx_core.Scheduler.Queue.{PendingTask, level, remove_at, max_index, select_by_priority}

abbrev pub AllLe : ℕ → List PendingTask → Type 0
AllLe n [] = Unit {0}
AllLe n (x ∷ xs) = (level x ≤ n) × AllLe n xs

abbrev pub AllLt : ℕ → List PendingTask → Type 0
AllLt n [] = Unit {0}
AllLt n (x ∷ xs) = (level x < n) × AllLt n xs

pub AllLe-AllLt : (m n : ℕ) (xs : List PendingTask) → m < n → AllLe m xs → AllLt n xs
AllLe-AllLt m n [] h a = tt
AllLe-AllLt m n (x ∷ xs) h a = (omega arith, AllLe-AllLt m n xs h a.1)

pub AllLt-AllLe : (n : ℕ) (xs : List PendingTask) → AllLt n xs → AllLe n xs
AllLt-AllLe n [] a = tt
AllLt-AllLe n (x ∷ xs) a = (omega arith, AllLt-AllLe n xs a.1)

pub AllLe-mono : (m n : ℕ) (xs : List PendingTask) → m ≤ n → AllLe m xs → AllLe n xs
AllLe-mono m n [] h a = tt
AllLe-mono m n (x ∷ xs) h a = (omega arith, AllLe-mono m n xs h a.1)

pub AllLe-append : (n : ℕ) (xs ys : List PendingTask) → AllLe n xs → AllLe n ys → AllLe n (xs ++ ys)
AllLe-append n [] ys a b = b
AllLe-append n (x ∷ xs) ys a b = (a.0, AllLe-append n xs ys a.1 b)

max_index_low :
    (i best top : ℕ) (ys : List PendingTask) → AllLt top ys → max_index i best top ys ≡ best
unfolding max_index
max_index_low i best top [] a = refl
max_index_low i best top (y ∷ ys) a =
    ground (arith, max_index_low (suc i) best (max top (level y)) ys)

max_index_first :
    (i best top : ℕ) (x : PendingTask) (ys : List PendingTask)
    → top ≤ level x
    → AllLt (level x) ys
    → max_index i best top (x ∷ ys) ≡ i
unfolding max_index
max_index_first i best top x ys h b =
    let e : max top (level x) ≡ level x = omega arith in
    rw (le→leb top (level x) h, e) (max_index_low (suc i) i (level x) ys b)

max_index_at :
    (i best top : ℕ) (xs : List PendingTask) (x : PendingTask) (ys : List PendingTask)
    → top ≤ level x
    → AllLe (level x) xs
    → AllLt (level x) ys
    → max_index i best top (xs ++ x ∷ ys) ≡ i + length xs
unfolding max_index
max_index_at i best top [] x ys h a b = max_index_first i best top x ys h b ∙ omega arith
max_index_at i best top (w ∷ xs) x ys h a b =
    max_index_at (suc i) (if leb top (level w) then i else best) (max top (level w)) xs x ys
      (omega arith) a.1 b
    ∙ omega arith

remove_at_middle {ℓ} :
    {A : Type ℓ} (xs : List A) (x : A) (ys : List A)
    → remove_at (length xs) (xs ++ x ∷ ys) ≡ some (x, xs ++ ys)
unfolding remove_at
remove_at_middle [] x ys = refl
remove_at_middle (w ∷ xs) x ys = rw (remove_at_middle xs x ys, remove_at)

-- The last of the tasks of the highest priority is taken, and the others stay in order.
pub select_by_priority_middle :
    (xs : List PendingTask) (x : PendingTask) (ys : List PendingTask)
    → AllLe (level x) xs
    → AllLt (level x) ys
    → select_by_priority (xs ++ x ∷ ys) ≡ some (x, xs ++ ys)
unfolding select_by_priority remove_at
select_by_priority_middle [] x ys a b = rw (max_index_low 1 0 (level x) ys b)
select_by_priority_middle (w ∷ xs) x ys a b =
    let e : 1 + length xs ≡ suc (length xs) = omega arith in
    rw (max_index_at 1 0 (level w) xs x ys a.0 a.1 b, e) (rw (remove_at_middle xs x ys, remove_at))

abbrev pub Split : List PendingTask → Type 0
Split q =
    (xs : List PendingTask) × (x : PendingTask) × (ys : List PendingTask) × (q ≡ xs ++ x ∷ ys)
    × AllLe (level x) xs
    × AllLt (level x) ys

last_max : (x : PendingTask) (q : List PendingTask) → Split (x ∷ q)
last_max x [] = ([], x, [], refl, tt, tt)
last_max x (y ∷ q) =
    let (xs, m, ys, e, a, b) = last_max y q in
    elim (Bool-cases (leb (level x) (level m))) [
      | inl le ↦ (x ∷ xs, m, ys, ap (◌∷◌ x) e, (ground arith, a), b)
      | inr gt ↦ (
        [],
        x,
        y ∷ q,
        refl,
        tt,
        AllLe-AllLt (level m) (level x) (y ∷ q) (ground arith) (
            subst (AllLe (level m)) (sym e)
              (AllLe-append (level m) xs (m ∷ ys) a (omega arith, AllLt-AllLe (level m) ys b))),
      )
    ]

-- Every non-empty queue splits at the last of its tasks of the highest priority, and the selection
-- takes exactly that task and keeps all others in order.
pub select_by_priority-last_max :
    (q : List PendingTask)
    → q ≢ []
    → (xs : List PendingTask) × (x : PendingTask) × (ys : List PendingTask) × (q ≡ xs ++ x ∷ ys)
      × AllLe (level x) xs
      × AllLt (level x) ys
      × (select_by_priority q ≡ some (x, xs ++ ys))
select_by_priority-last_max [] h = absurd (h refl)
select_by_priority-last_max (t ∷ q) h =
    let (xs, x, ys, e, a, b) = last_max t q in
    (xs, x, ys, e, a, b, ap select_by_priority e ∙ select_by_priority_middle xs x ys a b)
