-- ===== src/System/Ready.antt =====
-- What must hold for `main` to start, and what the initial tasks then leave.
use file_read_speed_test.Base.{
  List, ◌∷◌, ◌++◌, ℕ, ◌+◌, ◌*◌, ◌<◌, ◌≤◌, ◌≡◌, ◌≢◌, ◌%◌, refl, ap, ◌∙◌, ◌==◌, inl, inr, [], length,
  false, ==_iff, Bool-cases, All, mul-block-le, arith,
}
use file_read_speed_test.Words.{Platform, size_mod, quad_limit}
use file_read_speed_test.Win32.{Win32}
use file_read_speed_test.FileRead.{OverlappedIoFileRead}
use file_read_speed_test.TaskQueue.{TaskQueues, IsFifo}
use file_read_speed_test.ReadTask.{Task, Shared}
use file_read_speed_test.ReadTask.Chain.{IsAligned, IsPrepared}
use file_read_speed_test.EntryPoint.{Depths, initial_task}
use file_read_speed_test.EntryPoint.InitialTasks.{task_of, IsGiven}
use file_read_speed_test.System.Counts.{sum_one, tasks_in}
use file_read_speed_test.System.Balance.{IsBalanced}
use file_read_speed_test.System.Invariant.{IsSound, IsTaskOf, Invariant, Invariant-transport}

module _ (os : Win32) (q : TaskQueues Task) (platform : Platform) (fifo : IsFifo q)
    (d : Depths) where
  -- The file is prepared, its size is no multiple of the buffer's, the queue is not deeper than the
  -- number of contexts, the queues are empty and open, and the sums and products fit.
  pub record IsReadyToStart (s : Shared os q) : Type 0 where
    pub prepared : IsPrepared d.buffer_size s
    pub ragged : s.file_read.file_size % d.buffer_size ≢ 0
    pub room : s.file_read.file_size + d.queue_depth * d.buffer_size < quad_limit
    pub starts_fit : (d.thread_count + d.queue_depth) * d.buffer_size < quad_limit
    pub interval : d.queue_depth * d.buffer_size < size_mod platform
    pub few_threads : d.thread_count < size_mod platform
    pub shallow : d.queue_depth ≤ length s.file_read.contexts
    pub few_reads : d.queue_depth < size_mod platform
    pub all_empty : (j : ℕ) → j ≤ d.thread_count → fifo.tasks (s.queues j) ≡ []
    pub none_completed : s.completed_threads ≡ 0
    pub main_open : q.is_shutting_down (s.queues d.thread_count) ≡ false
    pub all_open : (j : ℕ) → j < d.thread_count → q.is_shutting_down (s.queues j) ≡ false

  initial_task-IsSound :
      (j : ℕ)
      → j < d.thread_count
      → (d.thread_count + d.queue_depth) * d.buffer_size < quad_limit
      → IsAligned d.buffer_size (initial_task platform d (j * d.buffer_size) j)
      → IsSound d j (initial_task platform d (j * d.buffer_size) j)
  initial_task-IsSound j lt fit aligned = record {
    aligned = aligned;
    depth = refl;
    count = refl;
    own_queue = refl;
    main_queue = refl;
    fits =
        let block = mul-block-le j d.thread_count d.buffer_size lt in
        let strides = aligned.strides in omega (arith, block, strides, fit);
  }

  given-All :
      (s s' : Shared os q)
      → IsReadyToStart s
      → IsGiven os q platform fifo d 0 s s'
      → ((j : ℕ) → IsAligned d.buffer_size (initial_task platform d (j * d.buffer_size) j))
      → (j : ℕ) → j ≤ d.thread_count
      → All (IsTaskOf d j) (fifo.tasks (s'.queues j))
  given-All s s' ready given aligned j le = elim (Bool-cases (j == d.thread_count)) [
    | inl last ↦
        let last' = (==_iff j _).0 last in
        rw (ap fifo.tasks (given.kept j (inr (omega arith))) ∙ ready.all_empty j le) tt
    | inr other ↦
        let other' : j ≢ d.thread_count = λ e. let yes = (==_iff j _).1 e in cc in
        let lt : j < d.thread_count = omega arith in
        rw (given.given j (omega arith) lt, ready.all_empty j le)
          ((lt, initial_task-IsSound j lt ready.starts_fit (aligned j)), tt)
  ]

  pub given-Invariant :
      (s s' : Shared os q)
      → IsReadyToStart s
      → IsGiven os q platform fifo d 0 s s'
      → ((j : ℕ) → IsAligned d.buffer_size (initial_task platform d (j * d.buffer_size) j))
      → Invariant os q fifo d s'
  given-Invariant s s' ready given aligned =
      let at_rest : Invariant os q fifo d s = record {
        prepared = ready.prepared;
        ragged = ready.ragged;
        room = ready.room;
        all_tasks = λ j le. rw (ready.all_empty j le) tt;
      } in
      Invariant-transport os q fifo d s s'
        (ap (λ (r : OverlappedIoFileRead). length r.contexts) given.same_file_read)
        (ap (λ (r : OverlappedIoFileRead). r.file_size) given.same_file_read)
        (given-All s s' ready given aligned) at_rest

  pub given-IsBalanced :
      (s s' : Shared os q)
      → IsReadyToStart s
      → IsGiven os q platform fifo d 0 s s'
      → IsBalanced q fifo d.thread_count s'.queues s'.completed_threads
  given-IsBalanced s s' ready given =
      let n = d.thread_count in
      let none_completed = given.same_completed_threads ∙ ready.none_completed in
      let main_kept = given.kept n (inr (omega arith)) in
      let main : tasks_in q fifo s'.queues n ≡ 0 =
        ap (λ (u : q.Queue). length (fifo.tasks u)) main_kept
        ∙ ap (λ (ts : List Task). length ts) (ready.all_empty n (omega arith)) in
      let ones : (j : ℕ) → j < n → tasks_in q fifo s'.queues j ≡ 1 = λ j lt.
        ap (λ (ts : List Task). length ts)
          (given.given j (omega arith) lt
            ∙ ap (λ (ts : List Task). ts ++ (task_of os q platform fifo d j ∷ []))
                (ready.all_empty j (omega arith))) in
      let total = sum_one (tasks_in q fifo s'.queues) n ones in
      record {
        balance = omega (arith, none_completed, main, total);
        workers_open = λ j lt. given.stays_open j (omega arith) lt;
        main_open = λ early. ap q.is_shutting_down main_kept ∙ ready.main_open;
        main_closed = λ some_thread all. absurd (omega (arith, none_completed));
      }
