-- ===== src/System/Counts.antt =====
-- Sums over the queues, and the number of tasks in a queue.
use file_read_speed_test.Base.{
  ℕ, zero, suc, ◌+◌, ◌*◌, ◌<◌, ◌≤◌, ◌≡◌, ◌≢◌, inl, inr, refl, ap, ◌∙◌, false, some, List, [], ◌∷◌,
  length, length-append, ◌==◌, ==_iff, Bool-cases, arith,
}
use file_read_speed_test.TaskQueue.{TaskQueues, IsFifo}
use file_read_speed_test.ReadTask.{Task}

-- The sum of the first `n` values.
abbrev pub sum : (ℕ → ℕ) → ℕ → ℕ
sum f zero = 0
sum f (suc n) = sum f n + f n

pub sum_same : (f g : ℕ → ℕ) (n : ℕ) → ((j : ℕ) → j < n → g j ≡ f j) → sum g n ≡ sum f n
sum_same f g zero same = refl
sum_same f g (suc n) same =
    omega (arith, sum_same f g n (λ j lt. same j (omega arith)), same n (omega arith))

-- Where one value changes, so does the sum.
pub sum_change :
    (f g : ℕ → ℕ) (n i : ℕ)
    → i < n
    → ((j : ℕ) → j < n → i ≢ j → g j ≡ f j)
    → sum g n + f i ≡ sum f n + g i
sum_change f g zero i lt others = absurd (omega arith)
sum_change f g (suc n) i lt others = elim (Bool-cases (i == n)) [
  | inl last ↦
      let last' : i ≡ n = (==_iff i n).0 last in
      let before = sum_same f g n (λ j below. others j (omega arith) (λ e. omega arith)) in
      rw last' (omega (arith, before))
  | inr earlier ↦
      let ne : i ≢ n = λ e. let yes = (==_iff i n).1 e in cc in
      omega (
        arith,
        sum_change f g n i (omega arith) (λ j below. others j (omega arith)),
        others n (omega arith) ne,
      )
]

pub le_sum : (f : ℕ → ℕ) (n i : ℕ) → i < n → f i ≤ sum f n
le_sum f zero i lt = absurd (omega arith)
le_sum f (suc n) i lt = elim (Bool-cases (i == n)) [
  | inl last ↦ let last' : i ≡ n = (==_iff i n).0 last in rw last' (omega arith)
  | inr earlier ↦
      let ne : i ≢ n = λ e. let yes = (==_iff i n).1 e in cc in
      omega (arith, le_sum f n i (omega arith))
]

module _ (q : TaskQueues Task) (fifo : IsFifo q) where
  abbrev pub tasks_in : (ℕ → q.Queue) → ℕ → ℕ
  tasks_in queues j = length (fifo.tasks (queues j))

  -- An open queue has one task more when one is added, and stays open.
  pub add_task-count :
      (task : Task) (u : q.Queue)
      → q.is_shutting_down u ≡ false
      → (length (fifo.tasks (q.add_task task u).1) ≡ length (fifo.tasks u) + 1)
        × (q.is_shutting_down (q.add_task task u).1 ≡ false)
  add_task-count task u is_open =
      let (order, still) = fifo.add_task_open task u is_open in
      (ap length order ∙ length-append (fifo.tasks u) (task ∷ []), still)

  -- And one task less when one is popped; whether it shuts down does not change.
  pub try_pop_task-count :
      (u u' : q.Queue) (task : Task)
      → q.try_pop_task u ≡ (some task, u')
      → (length (fifo.tasks u) ≡ length (fifo.tasks u') + 1)
        × (q.is_shutting_down u' ≡ q.is_shutting_down u)
  try_pop_task-count u u' task popped =
      let law = rw popped at (fifo.try_pop_task_lem u) in
      elim law.1 [
        | inl (nothing, _) ↦ cc
        | inr (first, is_first, order) ↦
            let counted = ap (λ (ts : List Task). length ts) order in
            (omega (arith, counted), law.0)
      ]

pub sum_zero : (f : ℕ → ℕ) (n : ℕ) → ((j : ℕ) → j < n → f j ≡ 0) → sum f n ≡ 0
sum_zero f zero none_left = refl
sum_zero f (suc n) none_left =
    omega (arith, sum_zero f n (λ j lt. none_left j (omega arith)), none_left n (omega arith))

pub sum_one : (f : ℕ → ℕ) (n : ℕ) → ((j : ℕ) → j < n → f j ≡ 1) → sum f n ≡ n
sum_one f zero ones = refl
sum_one f (suc n) ones =
    omega (arith, sum_one f n (λ j lt. ones j (omega arith)), ones n (omega arith))

-- Where a sum is positive, so is one of its values.
pub positive_in_sum : (f : ℕ → ℕ) (n : ℕ) → 0 < sum f n → (j : ℕ) × (j < n) × (0 < f j)
positive_in_sum f zero pos = absurd (omega arith)
positive_in_sum f (suc n) pos = elim (Bool-cases (f n == 0)) [
  | inl nothing ↦
      let nothing' : f n ≡ 0 = (==_iff (f n) 0).0 nothing in
      let (j, lt, above) = positive_in_sum f n (omega arith) in (j, omega arith, above)
  | inr something ↦
      let ne : f n ≢ 0 = λ e. let yes = (==_iff (f n) 0).1 e in cc in (n, omega arith, omega arith)
]

-- A bound on each value bounds the sum.
pub sum_bounded : (f : ℕ → ℕ) (n bound : ℕ) → ((j : ℕ) → j < n → f j ≤ bound) → sum f n ≤ n * bound
sum_bounded f zero bound each = omega arith
sum_bounded f (suc n) bound each =
    let before = sum_bounded f n bound (λ j lt. each j (omega arith)) in
    let last = each n (omega arith) in grind arith

-- Where all the values but one are 0, the sum is that one.
pub sum_single : (f : ℕ → ℕ) (n i : ℕ) → i < n → ((j : ℕ) → j < n → i ≢ j → f j ≡ 0) → sum f n ≡ f i
sum_single f n i lt others =
    omega (arith, sum_change (λ _. 0) f n i lt others, sum_zero (λ _. 0) n (λ j below. refl))

pub sum_add : (f g : ℕ → ℕ) (n : ℕ) → sum (λ j. f j + g j) n ≡ sum f n + sum g n
sum_add f g zero = refl
sum_add f g (suc n) = omega (arith, sum_add f g n)
