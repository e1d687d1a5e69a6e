-- ===== src/System/Invariant.antt =====
-- What holds between the steps of the threads, and that what a task does keeps it.
use file_read_speed_test.Base.{ℕ, ◌+◌, ◌*◌, ◌%◌, ◌<◌, ◌≤◌, ◌≡◌, ◌≢◌, refl, some, length, All}
use file_read_speed_test.Words.{Platform, quad_limit}
use file_read_speed_test.Win32.{Win32}
use file_read_speed_test.TaskQueue.{TaskQueues, IsFifo}
use file_read_speed_test.ReadTask.{OverlappedIoFileReadTask, Task, read_task, finished_task, Shared}
use file_read_speed_test.ReadTask.Queues.{AllQueues, update-AllQueues, add-AllQueues, pop-AllQueues}
use file_read_speed_test.ReadTask.Steps.{added}
use file_read_speed_test.ReadTask.Chain.{IsAligned, IsPrepared}
use file_read_speed_test.EntryPoint.{Depths}
use file_read_speed_test.System.{with_queue}

-- A read task that stands in the queue of the thread number `j`.
pub record IsSound (d : Depths) (j : ℕ) (t : OverlappedIoFileReadTask) : Type 0 where
  pub aligned : IsAligned d.buffer_size t
  pub depth : t.queue_depth ≡ d.queue_depth
  pub count : t.thread_count ≡ d.thread_count
  pub own_queue : t.task_queue ≡ j
  pub main_queue : t.main_task_queue ≡ d.thread_count
  pub fits : t.current_read_start + t.buffer_interval_in_bytes < quad_limit

-- The queues of the threads hold such tasks, and the main queue the messages of the threads.
abbrev pub IsTaskOf : Depths → ℕ → Task → Type 0
IsTaskOf d j (read_task t) = (j < d.thread_count) × IsSound d j t
IsTaskOf d j (finished_task f) =
    (j ≡ d.thread_count) × (f.thread_count ≡ d.thread_count) × (f.main_task_queue ≡ d.thread_count)

module _ (os : Win32) (q : TaskQueues Task) (fifo : IsFifo q) (d : Depths) where
  -- The file's size is no multiple of the buffer's, and offsets have room in 63 bits.
  pub record Invariant (s : Shared os q) : Type 0 where
    pub prepared : IsPrepared d.buffer_size s
    pub ragged : s.file_read.file_size % d.buffer_size ≢ 0
    pub room : s.file_read.file_size + d.queue_depth * d.buffer_size < quad_limit
    pub all_tasks : AllQueues q fifo (IsTaskOf d) d.thread_count s.queues

  -- It does not depend on the world, on the times and the marks of the contexts, and on the counter.
  pub Invariant-transport :
      (s s' : Shared os q)
      → length s'.file_read.contexts ≡ length s.file_read.contexts
      → s'.file_read.file_size ≡ s.file_read.file_size
      → ((j : ℕ) → j ≤ d.thread_count → All (IsTaskOf d j) (fifo.tasks (s'.queues j)))
      → Invariant s
      → Invariant s'
  Invariant-transport s s' same_count same_size tasks inv =
      let p = inv.prepared in
      record {
        prepared = record {
          positive = p.positive;
          covered = rw (same_count, same_size) p.covered;
          few = rw same_size p.few;
          small = rw same_size p.small;
        };
        ragged = rw same_size inv.ragged;
        room = rw same_size inv.room;
        all_tasks = tasks;
      }

  module _ (platform : Platform) (s : Shared os q) (inv : Invariant s) (i : ℕ) where
    pub Invariant-update :
        (u : q.Queue)
        → All (IsTaskOf d i) (fifo.tasks u)
        → Invariant (with_queue os q platform d.thread_count s i u)
    Invariant-update u all =
        Invariant-transport s _ refl refl
          (update-AllQueues q fifo (IsTaskOf d) d.thread_count s.queues i u inv.all_tasks all) inv

    pub Invariant-added :
        (task : Task)
        → i ≤ d.thread_count
        → IsTaskOf d i task
        → Invariant (added os q platform s i task)
    Invariant-added task le sound =
        Invariant-transport s _ refl refl
          (add-AllQueues q fifo (IsTaskOf d) d.thread_count s.queues i task le sound inv.all_tasks)
          inv

    pub Invariant-popped :
        (u : q.Queue) (task : Task)
        → i ≤ d.thread_count
        → q.try_pop_task (s.queues i) ≡ (some task, u)
        → IsTaskOf d i task × Invariant (with_queue os q platform d.thread_count s i u)
    Invariant-popped u task le popped =
        let (sound, rest) =
          pop-AllQueues q fifo (IsTaskOf d) d.thread_count s.queues i task u le popped
            inv.all_tasks in
        (sound, Invariant-transport s _ refl refl rest inv)
