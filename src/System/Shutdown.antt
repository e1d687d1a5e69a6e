-- ===== src/System/Shutdown.antt =====
-- When the main queue shuts down, which ends the loop of `main`.
use mathlib.Core.Path.{subst}
use file_read_speed_test.Base.{
  ℕ, ◌<◌, ◌≤◌, ◌≡◌, ◌≢◌, ◌↔◌, inl, inr, sym, ap, ◌∙◌, ◌==◌, ==_iff, Bool-cases, true, false, some,
  arith,
}
use file_read_speed_test.Words.{Platform, size_mod}
use file_read_speed_test.Win32.{Win32}
use file_read_speed_test.TaskQueue.{TaskQueues, IsFifo}
use file_read_speed_test.ReadTask.{
  OverlappedIoFileReadTask, Finished, Task, read_task, finished_task, Shared,
}
use file_read_speed_test.ReadTask.Steps.{next_task, last_task}
use file_read_speed_test.EntryPoint.{Depths}
use file_read_speed_test.System.{
  with_queue, Step, worker_step, main_step, world_step, Steps, here, and_then,
}
use file_read_speed_test.System.Invariant.{Invariant}
use file_read_speed_test.System.Safety.{Step-Invariant, worker-Moves}
use file_read_speed_test.System.Tells.{Tells, main-Tells}
use file_read_speed_test.System.Moves.{Moves}
use file_read_speed_test.System.Counts.{try_pop_task-count, le_sum, sum_zero, tasks_in}
use file_read_speed_test.System.Balance.{
  IsBalanced, again-IsBalanced, last-IsBalanced, told-IsBalanced,
}

module _ (os : Win32) (q : TaskQueues Task) (platform : Platform) (fifo : IsFifo q) (d : Depths)
    (few : d.thread_count < size_mod platform) where
  abbrev pub IsEven : Shared os q → Type 0
  IsEven s = IsBalanced q fifo d.thread_count s.queues s.completed_threads

  Moves-IsBalanced :
      (s s' : Shared os q) (j : ℕ) (u : q.Queue) (t : OverlappedIoFileReadTask)
      → j < d.thread_count
      → q.try_pop_task (s.queues j) ≡ (some (read_task t), u)
      → IsEven s
      → Moves os q platform fifo d t j (with_queue os q platform d.thread_count s j u) s'
      → IsEven s'
  Moves-IsBalanced s s' j u t lt popped even moves = elim moves.goes [
    | inl (_, _, _, own) ↦
        rw (moves.same_completed_threads, own)
          (again-IsBalanced q fifo d.thread_count s.completed_threads s.queues even j lt u
            (read_task t) popped (read_task (next_task platform t)))
    | inr (_, main) ↦
        rw (moves.same_completed_threads, main)
          (last-IsBalanced q fifo d.thread_count s.completed_threads s.queues even j lt u
            (read_task t) popped (last_task t))
  ]

  -- While a message waits, not all the threads have been counted.
  pub early :
      (s : Shared os q) (f : Finished) (u : q.Queue)
      → q.try_pop_task (s.queues d.thread_count) ≡ (some (finished_task f), u)
      → IsEven s
      → s.completed_threads < d.thread_count
  early s f u popped even =
      let (fewer, _) =
        try_pop_task-count q fifo (s.queues d.thread_count) u (finished_task f) popped in
      let balance = even.balance in omega (arith, fewer, balance)

  Tells-IsBalanced :
      (s s' : Shared os q) (f : Finished) (u : q.Queue)
      → q.try_pop_task (s.queues d.thread_count) ≡ (some (finished_task f), u)
      → IsEven s
      → Tells os q platform fifo d few s s' u
      → IsEven s'
  Tells-IsBalanced s s' f u popped even tells = rw tells.counts (
      told-IsBalanced q fifo d.thread_count s.completed_threads s.queues even u (finished_task f)
        popped s'.queues tells.others tells.same_tasks tells.same_shut tells.shuts)

  pub Step-IsBalanced :
      (s s' : Shared os q)
      → Step os q platform d.thread_count s s'
      → Invariant os q fifo d s
      → IsEven s
      → IsEven s'
  Step-IsBalanced s s' (worker_step j t u completion k lt popped points in_range runs) inv even =
      Moves-IsBalanced s s' j u t lt popped even
        (worker-Moves os q platform fifo d s s' j t u completion k inv lt popped points in_range
          runs).1
  Step-IsBalanced s s' (main_step f u popped runs) inv even =
      Tells-IsBalanced s s' f u popped even
        (main-Tells os q platform fifo d few s s' f u inv (early s f u popped even) popped runs)
  Step-IsBalanced s s' (world_step w e) inv even = subst IsEven (sym e) (record {
    balance = even.balance;
    workers_open = even.workers_open;
    main_open = even.main_open;
    main_closed = even.main_closed;
  })

  pub Steps-IsBalanced :
      (s s' : Shared os q)
      → Steps os q platform d.thread_count s s'
      → Invariant os q fifo d s
      → IsEven s
      → Invariant os q fifo d s' × IsEven s'
  Steps-IsBalanced s s' here inv even = (inv, even)
  Steps-IsBalanced s s'' (and_then s' _ before step) inv even =
      let (inv', even') = Steps-IsBalanced s s' before inv even in
      (Step-Invariant os q platform fifo d s' s'' step inv', Step-IsBalanced s' s'' step inv' even')

  pub none_left :
      (s : Shared os q)
      → IsEven s
      → q.is_shutting_down (s.queues d.thread_count) ≡ true
      → (j : ℕ) → j ≤ d.thread_count
      → tasks_in q fifo s.queues j ≡ 0
  none_left s even shut j le =
      let balance = even.balance in
      elim (Bool-cases (s.completed_threads == d.thread_count)) [
        | inl all ↦
            let all' = (==_iff _ d.thread_count).0 all in
            elim (Bool-cases (j == d.thread_count)) [
              | inl main ↦
                  let at_main = ap (tasks_in q fifo s.queues) ((==_iff j _).0 main) in
                  omega (arith, at_main, balance)
              | inr worker ↦
                  let ne : j ≢ d.thread_count = λ e. let yes = (==_iff j _).1 e in cc in
                  omega (
                    arith,
                    balance,
                    le_sum (tasks_in q fifo s.queues) d.thread_count j (omega arith),
                  )
            ]
        | inr some_left ↦
            let ne : s.completed_threads ≢ d.thread_count =
              λ e. let yes = (==_iff _ d.thread_count).1 e in cc in
            let is_open = even.main_open (omega (arith, balance)) in
            absurd (let contra : true ≡ false = sym shut ∙ is_open in cc)
      ]

  -- If there is at least one thread, and fewer than a `size_t` holds, then from balanced shared
  -- objects with the invariant, after any steps in any order, the main queue shuts down exactly
  -- when no task is left in the queue of a thread or in the main one.
  pub main_queue_closes :
      (s s' : Shared os q)
      → 0 < d.thread_count
      → Invariant os q fifo d s
      → IsEven s
      → Steps os q platform d.thread_count s s'
      → (q.is_shutting_down (s'.queues d.thread_count) ≡ true)
        ↔ ((j : ℕ) → j ≤ d.thread_count → tasks_in q fifo s'.queues j ≡ 0)
  main_queue_closes s s' some_thread inv even steps =
      let (_, even') = Steps-IsBalanced s s' steps inv even in
      let balance = even'.balance in
      (
        λ shut j le. none_left s' even' shut j le,
        λ empty.
            let workers =
              sum_zero (tasks_in q fifo s'.queues) d.thread_count (λ j lt. empty j (omega arith)) in
            let main = empty d.thread_count (omega arith) in
            even'.main_closed some_thread (omega (arith, balance, workers, main)),
      )
