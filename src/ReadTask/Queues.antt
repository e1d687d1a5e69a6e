-- ===== src/ReadTask/Queues.antt =====
-- The queues under their numbers.
use mathlib.Core.Path.{subst}
use mathlib.Core.Option.{some-injective}
use file_read_speed_test.Base.{
  ℕ, ◌≤◌, ◌==◌, ==_iff, ◌≡◌, ◌≢◌, inl, inr, All, All-append_one, Bool-cases, some, arith,
}
use file_read_speed_test.TaskQueue.{TaskQueues, IsFifo}
use file_read_speed_test.ReadTask.{Task, update}

pub update_self : {A : Type 0} (f : ℕ → A) (i : ℕ) (a : A) → update f i a i ≡ a
update_self f i a = ground arith

pub update_ne : {A : Type 0} (f : ℕ → A) (i j : ℕ) (a : A) → i ≢ j → update f i a j ≡ f j
update_ne f i j a ne = ground arith

module _ (q : TaskQueues Task) (fifo : IsFifo q) (P : Task → Type 0) where
  -- A queue keeps a property of its tasks when a task with it is added, also when it refuses it.
  add_task-All :
      (task : Task) (u : q.Queue)
      → All P (fifo.tasks u)
      → P task
      → All P (fifo.tasks (q.add_task task u).1)
  add_task-All task u all p = elim (Bool-cases (q.is_shutting_down u)) [
    | inl closed ↦ rw (fifo.add_task_closed task u closed) all
    | inr is_open ↦
        rw (fifo.add_task_open task u is_open).0 (All-append_one P (fifo.tasks u) task all p)
  ]

  -- A task that is popped has it, and so have those that are left.
  pub try_pop_task-All :
      (u u' : q.Queue) (task : Task)
      → q.try_pop_task u ≡ (some task, u')
      → All P (fifo.tasks u)
      → P task × All P (fifo.tasks u')
  try_pop_task-All u u' task popped all =
      let law = rw popped at (fifo.try_pop_task_lem u) in
      elim law.1 [
        | inl (nothing, _) ↦ cc
        | inr (first, is_first, order) ↦ rw (some-injective _ _ is_first) (rw order at all)
      ]

-- A property of the tasks in each of the queues up to the number `n`.
module _ (q : TaskQueues Task) (fifo : IsFifo q) (P : ℕ → Task → Type 0) (n : ℕ) where
  abbrev pub AllQueues : (ℕ → q.Queue) → Type 0
  AllQueues queues = (j : ℕ) → j ≤ n → All (P j) (fifo.tasks (queues j))

  pub update-AllQueues :
      (queues : ℕ → q.Queue) (i : ℕ) (u : q.Queue)
      → AllQueues queues
      → All (P i) (fifo.tasks u)
      → AllQueues (update queues i u)
  update-AllQueues queues i u all at_i j le = elim (Bool-cases (i == j)) [
    | inl same ↦
        subst (λ (k : ℕ). All (P k) (fifo.tasks (update queues i u k))) ((==_iff i j).0 same)
          (rw (update_self queues i u) at_i)
    | inr other ↦
        let other' : i ≢ j = λ e. let yes = (==_iff i j).1 e in cc in
        rw (update_ne queues i j u other') (all j le)
  ]

  pub add-AllQueues :
      (queues : ℕ → q.Queue) (i : ℕ) (task : Task)
      → i ≤ n
      → P i task
      → AllQueues queues
      → AllQueues (update queues i (q.add_task task (queues i)).1)
  add-AllQueues queues i task le p all =
      update-AllQueues queues i _ all (add_task-All q fifo (P i) task (queues i) (all i le) p)

  pub pop-AllQueues :
      (queues : ℕ → q.Queue) (i : ℕ) (task : Task) (u : q.Queue)
      → i ≤ n
      → q.try_pop_task (queues i) ≡ (some task, u)
      → AllQueues queues
      → P i task × AllQueues (update queues i u)
  pop-AllQueues queues i task u le popped all =
      let (p, rest) = try_pop_task-All q fifo (P i) (queues i) u task popped (all i le) in
      (p, update-AllQueues queues i u all rest)
