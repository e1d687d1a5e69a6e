-- ===== src/System/Balance.antt =====
-- The balance between the tasks in the queues and the counter of completed threads.
use mathlib.Core.Path.{subst}
use file_read_speed_test.Base.{
  ℕ, ◌+◌, ◌<◌, ◌≡◌, ◌≢◌, inl, inr, ap, ◌∙◌, true, false, some, List, length, ◌==◌, ==_iff,
  Bool-cases, arith,
}
use file_read_speed_test.TaskQueue.{TaskQueues, IsFifo}
use file_read_speed_test.ReadTask.{Task, update}
use file_read_speed_test.ReadTask.Queues.{update_self, update_ne}
use file_read_speed_test.System.Counts.{
  sum, sum_same, sum_change, le_sum, tasks_in, add_task-count, try_pop_task-count,
}

module _ (q : TaskQueues Task) (fifo : IsFifo q) where
  -- Each thread is counted once: it has told the main thread, its message waits, or its task does.
  -- The queues of the threads are open, and the main queue is until all have told.
  pub record IsBalanced (n : ℕ) (queues : ℕ → q.Queue) (completed : ℕ) : Type 0 where
    pub balance : completed + tasks_in q fifo queues n + sum (tasks_in q fifo queues) n ≡ n
    pub workers_open : (j : ℕ) → j < n → q.is_shutting_down (queues j) ≡ false
    pub main_open : completed < n → q.is_shutting_down (queues n) ≡ false
    pub main_closed : 0 < n → completed ≡ n → q.is_shutting_down (queues n) ≡ true

  module _ (n completed : ℕ) (queues : ℕ → q.Queue) (even : IsBalanced n queues completed) where
    module _ (j : ℕ) (lt : j < n) (u : q.Queue) (task : Task)
        (popped : q.try_pop_task (queues j) ≡ (some task, u)) (new : Task) where
      abbrev pub rest : ℕ → q.Queue
      rest = update queues j u

      -- A thread pops its task and adds another one to its own queue.
      pub again-IsBalanced : IsBalanced n (update rest j (q.add_task new (rest j)).1) completed
      again-IsBalanced =
          let (fewer, same_open) = try_pop_task-count q fifo (queues j) u task popped in
          let at_j : rest j ≡ u = update_self queues j u in
          let open_u : q.is_shutting_down u ≡ false = same_open ∙ even.workers_open j lt in
          let (more, open_v) = add_task-count q fifo new u open_u in
          let v = (q.add_task new (rest j)).1 in
          let here : update rest j v j ≡ (q.add_task new u).1 =
            update_self rest j v ∙ ap (λ (x : q.Queue). (q.add_task new x).1) at_j in
          let there : (i : ℕ) → j ≢ i → update rest j v i ≡ queues i =
            λ i ne. update_ne rest j i v ne ∙ update_ne queues j i u ne in
          let main_same = there n (λ e. omega arith) in
          let balance = even.balance in
          let same_here : tasks_in q fifo (update rest j v) j ≡ tasks_in q fifo queues j =
            omega (arith, ap (λ (x : q.Queue). length (fifo.tasks x)) here) in
          let sums =
            sum_change (tasks_in q fifo queues) (tasks_in q fifo (update rest j v)) n j lt
              (λ i below ne. ap (λ (x : q.Queue). length (fifo.tasks x)) (there i ne)) in
          let main_count = ap (λ (x : q.Queue). length (fifo.tasks x)) main_same in
          record {
            balance = omega (arith, balance, same_here, sums, main_count);
            workers_open = λ i below. elim (Bool-cases (j == i)) [
              | inl same ↦
                  subst (λ (k : ℕ). q.is_shutting_down (update rest j v k) ≡ false)
                    ((==_iff j i).0 same) (ap q.is_shutting_down here ∙ open_v)
              | inr other ↦
                  let ne : j ≢ i = λ e. let yes = (==_iff j i).1 e in cc in
                  ap q.is_shutting_down (there i ne) ∙ even.workers_open i below
            ];
            main_open = λ early. ap q.is_shutting_down main_same ∙ even.main_open early;
            main_closed = λ some_thread all.
                ap q.is_shutting_down main_same ∙ even.main_closed some_thread all;
          }

      -- A thread pops its task and tells the main queue.
      pub last-IsBalanced : IsBalanced n (update rest n (q.add_task new (rest n)).1) completed
      last-IsBalanced =
          let (fewer, same_open) = try_pop_task-count q fifo (queues j) u task popped in
          let j_ne : j ≢ n = λ e. omega arith in
          let n_ne : n ≢ j = λ e. omega arith in
          let at_n : rest n ≡ queues n = update_ne queues j n u j_ne in
          let balance = even.balance in
          let early : completed < n =
            omega (arith, balance, fewer, le_sum (tasks_in q fifo queues) n j lt) in
          let (more, open_v) = add_task-count q fifo new (queues n) (even.main_open early) in
          let v = (q.add_task new (rest n)).1 in
          let main : update rest n v n ≡ (q.add_task new (queues n)).1 =
            update_self rest n v ∙ ap (λ (x : q.Queue). (q.add_task new x).1) at_n in
          let here : update rest n v j ≡ u = update_ne rest n j v n_ne ∙ update_self queues j u in
          let there : (i : ℕ) → i < n → j ≢ i → update rest n v i ≡ queues i =
            λ i below ne. update_ne rest n i v (λ e. omega arith) ∙ update_ne queues j i u ne in
          let here_count = ap (λ (x : q.Queue). length (fifo.tasks x)) here in
          let main_count = ap (λ (x : q.Queue). length (fifo.tasks x)) main in
          let sums =
            sum_change (tasks_in q fifo queues) (tasks_in q fifo (update rest n v)) n j lt
              (λ i below ne. ap (λ (x : q.Queue). length (fifo.tasks x)) (there i below ne)) in
          record {
            balance = omega (arith, balance, fewer, more, here_count, main_count, sums);
            workers_open = λ i below. elim (Bool-cases (j == i)) [
              | inl same ↦
                  subst (λ (k : ℕ). q.is_shutting_down (update rest n v k) ≡ false)
                    ((==_iff j i).0 same)
                    (ap q.is_shutting_down here ∙ same_open ∙ even.workers_open j lt)
              | inr other ↦
                  let ne : j ≢ i = λ e. let yes = (==_iff j i).1 e in cc in
                  ap q.is_shutting_down (there i below ne) ∙ even.workers_open i below
            ];
            main_open = λ _. ap q.is_shutting_down main ∙ open_v;
            main_closed = λ some_thread all. absurd (omega (arith, early));
          }

    module _ (u : q.Queue) (task : Task) (popped : q.try_pop_task (queues n) ≡ (some task, u)) where
      -- The main thread pops a message and counts it, and its queue becomes `v`, which has the tasks
      -- of `u` and is open until the count is full.
      pub told-IsBalanced :
          (queues' : ℕ → q.Queue)
          → ((i : ℕ) → n ≢ i → queues' i ≡ queues i)
          → fifo.tasks (queues' n) ≡ fifo.tasks u
          → (completed + 1 < n → q.is_shutting_down (queues' n) ≡ q.is_shutting_down u)
          → (completed + 1 ≡ n → q.is_shutting_down (queues' n) ≡ true)
          → IsBalanced n queues' (completed + 1)
      told-IsBalanced queues' others same_tasks same_shut full =
          let (fewer, same_open) = try_pop_task-count q fifo (queues n) u task popped in
          let balance = even.balance in
          let counted = ap (λ (ts : List Task). length ts) same_tasks in
          let sums = sum_same (tasks_in q fifo queues) (tasks_in q fifo queues') n (λ i below.
            ap (λ (x : q.Queue). length (fifo.tasks x)) (others i (λ e. omega arith))) in
          record {
            balance = omega (arith, balance, fewer, counted, sums);
            workers_open = λ i below.
                ap q.is_shutting_down (others i (λ e. omega arith)) ∙ even.workers_open i below;
            main_open = λ early. same_shut early ∙ same_open ∙ even.main_open (omega arith);
            main_closed = λ some_thread all. full all;
          }
