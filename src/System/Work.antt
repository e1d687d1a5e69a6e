-- ===== src/System/Work.antt =====
-- How much work is left in the queues: a bound on the number of the runs of tasks.
use file_read_speed_test.Base.{
  ℕ, suc, ◌+◌, ◌-◌, ◌<◌, ◌≤◌, ◌≡◌, ◌≢◌, inl, inr, ap, ◌∙◌, some, List, [], ◌∷◌, ◌++◌, length, arith,
  Bool-cases,
}
use file_read_speed_test.Words.{Platform, size_mod}
use file_read_speed_test.Win32.{Win32}
use file_read_speed_test.FileRead.{OverlappedIoFileRead}
use file_read_speed_test.TaskQueue.{TaskQueues, IsFifo}
use file_read_speed_test.ReadTask.{
  OverlappedIoFileReadTask, Finished, Task, read_task, finished_task, Shared, update,
}
use file_read_speed_test.ReadTask.Steps.{next_task, last_task}
use file_read_speed_test.ReadTask.Chain.{successor}
use file_read_speed_test.ReadTask.Queues.{update_self, update_ne}
use file_read_speed_test.EntryPoint.{Depths}
use file_read_speed_test.System.{
  with_queue, Step, worker_step, main_step, world_step, Steps, here, and_then,
}
use file_read_speed_test.System.Counts.{sum, sum_change}
use file_read_speed_test.System.Invariant.{IsSound, Invariant}
use file_read_speed_test.System.Safety.{worker-Moves}
use file_read_speed_test.System.Shutdown.{IsEven, Steps-IsBalanced, early}
use file_read_speed_test.System.Tells.{Tells, main-Tells}
use file_read_speed_test.System.Moves.{Moves}

-- A read task may run once for each context from its own on, and once to tell the main queue, whose
-- message runs once.
abbrev pub weight : ℕ → Task → ℕ
weight count (read_task t) = count - t.context_index + 2
weight count (finished_task f) = 1

abbrev pub weights : ℕ → List Task → ℕ
weights count [] = 0
weights count (task ∷ tasks) = weight count task + weights count tasks

weights_append :
    (count : ℕ) (xs ys : List Task) → weights count (xs ++ ys) ≡ weights count xs + weights count ys
weights_append count [] ys = omega arith
weights_append count (x ∷ xs) ys = omega (arith, weights_append count xs ys)

module _ (q : TaskQueues Task) (fifo : IsFifo q) (count : ℕ) where
  abbrev pub work_of : q.Queue → ℕ
  work_of u = weights count (fifo.tasks u)

  add_task-work :
      (task : Task) (u : q.Queue) → work_of (q.add_task task u).1 ≤ work_of u + weight count task
  add_task-work task u = elim (Bool-cases (q.is_shutting_down u)) [
    | inl closed ↦ rw (fifo.add_task_closed task u closed) (omega arith)
    | inr is_open ↦
        let added = ap (weights count) (fifo.add_task_open task u is_open).0 in
        omega (arith, added, weights_append count (fifo.tasks u) (task ∷ []))
  ]

  pop-work :
      (u u' : q.Queue) (task : Task)
      → q.try_pop_task u ≡ (some task, u')
      → work_of u ≡ weight count task + work_of u'
  pop-work u u' task popped =
      let law = rw popped at (fifo.try_pop_task_lem u) in
      elim law.1 [
        | inl (nothing, _) ↦ cc
        | inr (first, is_first, order) ↦
            let same : first ≡ task = cc in
            ap (weights count) order ∙ ap (λ (x : Task). weight count x + work_of u') same
      ]

  -- The work in the first `n` queues and the main one.
  abbrev pub total : ℕ → (ℕ → q.Queue) → ℕ
  total n queues = sum (λ j. work_of (queues j)) (suc n)

  total_change :
      (n i : ℕ) (queues queues' : ℕ → q.Queue)
      → i ≤ n
      → ((j : ℕ) → i ≢ j → queues' j ≡ queues j)
      → total n queues' + work_of (queues i) ≡ total n queues + work_of (queues' i)
  total_change n i queues queues' le others =
      sum_change (λ j. work_of (queues j)) (λ j. work_of (queues' j)) (suc n) i (omega arith)
        (λ j lt ne. ap work_of (others j ne))

  total-update :
      (n i : ℕ) (queues : ℕ → q.Queue) (u : q.Queue)
      → i ≤ n
      → total n (update queues i u) + work_of (queues i) ≡ total n queues + work_of u
  total-update n i queues u le =
      let at_i = ap work_of (update_self queues i u) in
      omega (
        arith,
        at_i,
        total_change n i queues (update queues i u) le (λ j ne. update_ne queues i j u ne),
      )

  -- A task is popped of one queue, and another one is added to a queue.
  hand_over :
      (n i j : ℕ) (queues : ℕ → q.Queue) (u : q.Queue) (task new : Task)
      → i ≤ n
      → j ≤ n
      → q.try_pop_task (queues j) ≡ (some task, u)
      → total n (update (update queues j u) i (q.add_task new (update queues j u i)).1)
          + weight count task
        ≤ total n queues + weight count new
  hand_over n i j queues u task new le_i le_j popped =
      let rest = update queues j u in
      omega (
        arith,
        total-update n j queues u le_j,
        pop-work (queues j) u task popped,
        total-update n i rest (q.add_task new (rest i)).1 le_i,
        add_task-work new (rest i),
      )

module _ {os : Win32} {q : TaskQueues Task} {platform : Platform} {thread_count : ℕ} where
  -- 1 for a step that runs a task, 0 for one of the world.
  abbrev pub run_of : {s s' : Shared os q} → Step os q platform thread_count s s' → ℕ
  run_of (worker_step j t u completion k lt popped points in_range runs) = 1
  run_of (main_step f u popped runs) = 1
  run_of (world_step w e) = 0

  abbrev pub runs_in : {s s' : Shared os q} → Steps os q platform thread_count s s' → ℕ
  runs_in here = 0
  runs_in (and_then s' s'' before step) = runs_in before + run_of step

module _ (os : Win32) (q : TaskQueues Task) (platform : Platform) (fifo : IsFifo q) (d : Depths)
    (few : d.thread_count < size_mod platform) (some_depth : 0 < d.queue_depth) where
  abbrev pub work : Shared os q → ℕ
  work s = total q fifo (length s.file_read.contexts) d.thread_count s.queues

  next-weight :
      (t : OverlappedIoFileReadTask) (count : ℕ)
      → t.queue_depth ≡ d.queue_depth
      → successor t < count
      → (next_task platform t).context_index ≡ successor t
      → weight count (read_task (next_task platform t)) + 1 ≤ weight count (read_task t)
  next-weight t count same_depth lt same = omega (arith, same_depth, lt, same)

  Moves-work :
      (s s' : Shared os q) (j : ℕ) (t : OverlappedIoFileReadTask) (u : q.Queue)
      → j < d.thread_count
      → q.try_pop_task (s.queues j) ≡ (some (read_task t), u)
      → IsSound d j t
      → Moves os q platform fifo d t j (with_queue os q platform d.thread_count s j u) s'
      → 1 + work s' ≤ work s
  Moves-work s s' j t u lt popped sound moves =
      let n = d.thread_count in
      let count = length s.file_read.contexts in
      let over = λ (i : ℕ) (new : Task) (le : i ≤ n).
        hand_over q fifo count n i j s.queues u (read_task t) new le (omega arith) popped in
      let same_count = ap (λ (c : ℕ). total q fifo c n s'.queues) moves.same_count in
      let same_queues = λ (queues : ℕ → q.Queue) (e : s'.queues ≡ queues).
        same_count ∙ ap (total q fifo count n) e in
      elim moves.goes [
        | inl (_, in_count, same, own) ↦ omega (
          arith,
          next-weight t count sound.depth in_count same,
          over j (read_task (next_task platform t)) (omega arith),
          same_queues _ own,
        )
        | inr (_, main) ↦ omega (arith, over n (last_task t) (omega arith), same_queues _ main)
      ]

  Tells-work :
      (s s' : Shared os q) (f : Finished) (u : q.Queue)
      → q.try_pop_task (s.queues d.thread_count) ≡ (some (finished_task f), u)
      → Tells os q platform fifo d few s s' u
      → 1 + work s' ≤ work s
  Tells-work s s' f u popped tells =
      let n = d.thread_count in
      let count = length s.file_read.contexts in
      let same_count =
        ap (λ (r : OverlappedIoFileRead). total q fifo (length r.contexts) n s'.queues)
          tells.same_file_read in
      omega (
        arith,
        same_count,
        ap (weights count) tells.same_tasks,
        pop-work q fifo count (s.queues n) u (finished_task f) popped,
        total_change q fifo count n n s.queues s'.queues (omega arith) tells.others,
      )

  pub Step-work :
      (s s' : Shared os q) (step : Step os q platform d.thread_count s s')
      → Invariant os q fifo d s
      → IsEven os q platform fifo d few s
      → run_of step + work s' ≤ work s
  Step-work s s' (worker_step j t u completion k lt popped points in_range runs) inv even =
      let (sound, moves, _) =
        worker-Moves os q platform fifo d s s' j t u completion k inv lt popped points in_range
          runs in
      Moves-work s s' j t u lt popped sound moves
  Step-work s s' (main_step f u popped runs) inv even = Tells-work s s' f u popped (
      main-Tells os q platform fifo d few s s' f u inv
        (early os q platform fifo d few s f u popped even) popped runs)
  Step-work s s' (world_step w e) inv even = rw (ap work e) (omega arith)

  pub Steps-work :
      (s s' : Shared os q) (steps : Steps os q platform d.thread_count s s')
      → Invariant os q fifo d s
      → IsEven os q platform fifo d few s
      → runs_in steps + work s' ≤ work s
  Steps-work s s' here inv even = omega arith
  Steps-work s s'' (and_then s' _ before step) inv even =
      let (inv', even') = Steps-IsBalanced os q platform fifo d few s s' before inv even in
      omega (arith, Steps-work s s' before inv even, Step-work s' s'' step inv' even')
