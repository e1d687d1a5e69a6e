-- ===== src/System.antt =====
-- The threads together: the steps that the tasks of Code/OverlappedIOFileReadTask.cpp take over the
-- shared objects, in any order, while Code/EntryPoint.cpp waits in its loop.
pub mod Invariant
pub mod Moves
pub mod Safety
pub mod Ready
pub mod Launch
pub mod Counts
pub mod Balance
pub mod Tells
pub mod Shutdown
pub mod Skipped
pub mod Work
pub mod Progress
pub mod Termination
pub mod Reads
pub mod Turns
pub mod Following
pub mod Visits
pub mod Once
pub mod Share
pub mod Flight
use file_read_speed_test.Base.{ℕ, ◌<◌, ◌≡◌, some, length}
use file_read_speed_test.Words.{Platform}
use file_read_speed_test.Win32.{Win32, Completion}
use file_read_speed_test.TaskQueue.{TaskQueues}
use file_read_speed_test.ReadTask.{
  OverlappedIoFileReadTask, Finished, Task, read_task, finished_task, Shared, update, run_read_task,
  run_finished,
}

module _ (os : Win32) (q : TaskQueues Task) (platform : Platform) (thread_count : ℕ) where
  -- The shared objects when the queue number `j` has become `u`.
  abbrev pub with_queue : Shared os q → ℕ → q.Queue → Shared os q
  with_queue s j u = record s { queues = update s.queues j u }

  -- One step: a thread pops a task of its queue and runs it on the completion of a context that
  -- exists, the main thread pops a task of the main queue and runs it, or the world goes on.
  pub data Step (s s' : Shared os q) : Type 0 where
    worker_step :
        (j : ℕ) (t : OverlappedIoFileReadTask) (u : q.Queue) (completion : Completion) (k : ℕ)
        → j < thread_count
        → q.try_pop_task (s.queues j) ≡ (some (read_task t), u)
        → completion.context ≡ some k
        → k < length s.file_read.contexts
        → run_read_task os q platform t completion (with_queue s j u) ≡ some (tt, s')
        → Step s s'
    main_step :
        (f : Finished) (u : q.Queue)
        → q.try_pop_task (s.queues thread_count) ≡ (some (finished_task f), u)
        → run_finished os q platform f (with_queue s thread_count u) ≡ some (tt, s')
        → Step s s'
    world_step : (w : os.World) → s' ≡ record s { world = w } → Step s s'

  -- Any number of steps.
  pub data Steps (s : Shared os q) : Shared os q → Type 0 where
    here : Steps s s
    and_then : (s' s'' : Shared os q) → Steps s s' → Step s' s'' → Steps s s''
