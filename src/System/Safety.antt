-- ===== src/System/Safety.antt =====
-- No order of the steps makes a task undefined.
use mathlib.Core.Path.{subst}
use mathlib.Core.Option.{some-injective}
use file_read_speed_test.Base.{
  ℕ, ◌+◌, ◌%◌, ◌<◌, ◌≤◌, ◌≡◌, inl, inr, refl, sym, ap, ◌∙◌, some, length, arith, Bool-cases, ◌==◌,
  Option,
}
use file_read_speed_test.Words.{Platform, size_mod}
use file_read_speed_test.Win32.{Win32, Completion}
use file_read_speed_test.TaskQueue.{TaskQueues, IsFifo}
use file_read_speed_test.ReadTask.{
  OverlappedIoFileReadTask, Finished, Task, read_task, finished_task, Shared, run_read_task,
  run_finished,
}
use file_read_speed_test.EntryPoint.{Depths}
use file_read_speed_test.System.{
  with_queue, Step, worker_step, main_step, world_step, Steps, here, and_then,
}
use file_read_speed_test.System.Moves.{Moves, run_read_task-Invariant}
use file_read_speed_test.System.Invariant.{
  IsSound, IsTaskOf, Invariant, Invariant-transport, Invariant-popped, Invariant-update,
}

module _ (os : Win32) (q : TaskQueues Task) (platform : Platform) (fifo : IsFifo q)
    (d : Depths) where
  -- The message of a thread also runs to an end, and keeps the invariant.
  pub run_finished-Invariant :
      (f : Finished) (s : Shared os q)
      → f.main_task_queue ≡ d.thread_count
      → Invariant os q fifo d s
      → (s' : Shared os q) × (run_finished os q platform f s ≡ some (tt, s'))
        × Invariant os q fifo d s'
  unfolding run_finished
  run_finished-Invariant f s to_main inv =
      let completed = (s.completed_threads + 1) % size_mod platform in
      let counted : Shared os q = record s { completed_threads = completed } in
      let inv' : Invariant os q fifo d counted =
        Invariant-transport os q fifo d s counted refl refl inv.all_tasks inv in
      let closed = q.shutdown (s.queues f.main_task_queue) in
      elim (Bool-cases (completed == f.thread_count)) [
        | inl last ↦ (
          with_queue os q platform d.thread_count counted f.main_task_queue closed,
          rw last refl,
          Invariant-update os q fifo d platform counted inv' f.main_task_queue closed (
              rw (fifo.shutdown_lem (s.queues f.main_task_queue)).1
                (inv.all_tasks f.main_task_queue (omega arith))),
        )
        | inr more ↦ (counted, rw more refl, inv')
      ]

  pub same_result :
      {s s' : Shared os q} {r : Option (Unit {0} × Shared os q)}
      → r ≡ some (tt, s)
      → r ≡ some (tt, s')
      → s ≡ s'
  same_result e e' = ap (λ (p : Unit {0} × Shared os q). p.1) (some-injective _ _ (sym e ∙ e'))

  -- What a step of the thread number `j` does.
  pub worker-Moves :
      (s s' : Shared os q) (j : ℕ) (t : OverlappedIoFileReadTask) (u : q.Queue)
      (completion : Completion) (k : ℕ)
      → Invariant os q fifo d s
      → j < d.thread_count
      → q.try_pop_task (s.queues j) ≡ (some (read_task t), u)
      → completion.context ≡ some k
      → k < length s.file_read.contexts
      → run_read_task os q platform t completion (with_queue os q platform d.thread_count s j u)
        ≡ some (tt, s')
      → IsSound d j t
        × Moves os q platform fifo d t j (with_queue os q platform d.thread_count s j u) s'
        × Invariant os q fifo d s'
  worker-Moves s s' j t u completion k inv lt popped points in_range runs =
      let (sound, inv') =
        Invariant-popped os q fifo d platform s inv j u (read_task t) (omega arith) popped in
      let before = with_queue os q platform d.thread_count s j u in
      let (s'', runs', kept, moves) =
        run_read_task-Invariant os q platform fifo d j t before completion k lt sound.1 points
          in_range inv' in
      let same = same_result runs' runs in
      (
        sound.1,
        subst (Moves os q platform fifo d t j before) same moves,
        subst (Invariant os q fifo d) same kept,
      )

  -- A step of any kind keeps the invariant.
  pub Step-Invariant :
      (s s' : Shared os q)
      → Step os q platform d.thread_count s s'
      → Invariant os q fifo d s
      → Invariant os q fifo d s'
  Step-Invariant s s' (worker_step j t u completion k lt popped points in_range runs) inv =
      (worker-Moves s s' j t u completion k inv lt popped points in_range runs).2
  Step-Invariant s s' (main_step f u popped runs) inv =
      let (sound, inv') =
        Invariant-popped os q fifo d platform s inv d.thread_count u (finished_task f) (omega arith)
          popped in
      let (s'', runs', kept) = run_finished-Invariant f _ sound.2 inv' in
      subst (Invariant os q fifo d) (same_result runs' runs) kept
  Step-Invariant s s' (world_step w e) inv =
      subst (Invariant os q fifo d) (sym e)
        (Invariant-transport os q fifo d s _ refl refl inv.all_tasks inv)

  Steps-Invariant :
      (s s' : Shared os q)
      → Steps os q platform d.thread_count s s'
      → Invariant os q fifo d s
      → Invariant os q fifo d s'
  Steps-Invariant s s' here inv = inv
  Steps-Invariant s s'' (and_then s' _ before step) inv =
      Step-Invariant s' s'' step (Steps-Invariant s s' before inv)

  -- The task comes to an end: a read task on the completion of any context that exists.
  abbrev pub IsDefined : Task → Shared os q → Type 0
  IsDefined (read_task t) s =
      (completion : Completion) (k : ℕ)
      → completion.context ≡ some k
      → k < length s.file_read.contexts
      → (s' : Shared os q) × (run_read_task os q platform t completion s ≡ some (tt, s'))
  IsDefined (finished_task f) s =
      (s' : Shared os q) × (run_finished os q platform f s ≡ some (tt, s'))

  sound-IsDefined :
      (j : ℕ) (task : Task) (s : Shared os q)
      → IsTaskOf d j task
      → Invariant os q fifo d s
      → IsDefined task s
  sound-IsDefined j (read_task t) s (lt, sound) inv = λ completion k points in_range.
      let (s', runs, _, _) =
        run_read_task-Invariant os q platform fifo d j t s completion k lt sound points in_range
          inv in
      (s', runs)
  sound-IsDefined j (finished_task f) s sound inv =
      let (s', runs, _) = run_finished-Invariant f s sound.2 inv in (s', runs)

  -- From shared objects with the invariant (a prepared file whose size is no multiple of the
  -- buffer's, room in 63 bits, and sound tasks in every queue), after any steps of the threads, the
  -- main thread and the world in any order, every task that is popped of a queue runs to an end, a
  -- read task on the completion of any context that exists.
  pub popped-IsDefined :
      (s s' : Shared os q) (j : ℕ) (task : Task) (u : q.Queue)
      → Invariant os q fifo d s
      → Steps os q platform d.thread_count s s'
      → j ≤ d.thread_count
      → q.try_pop_task (s'.queues j) ≡ (some task, u)
      → IsDefined task (with_queue os q platform d.thread_count s' j u)
  popped-IsDefined s s' j task u inv steps le popped =
      let (sound, inv') =
        Invariant-popped os q fifo d platform s' (Steps-Invariant s s' steps inv) j u task le
          popped in
      sound-IsDefined j task _ sound inv'
