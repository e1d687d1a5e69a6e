-- ===== src/EntryPoint/Beginning.antt =====
-- What `main` makes before it starts the threads, and that it is ready to start.
use file_read_speed_test.Base.{
  ℕ, zero, suc, ◌+◌, ◌-◌, ◌*◌, ◌/◌, ◌%◌, ◌<◌, ◌≤◌, ◌≡◌, ◌≢◌, refl, false, List, [], ◌∷◌, All, arith,
}
use file_read_speed_test.Words.{Platform, size_mod, dword_mod, quad_limit}
use file_read_speed_test.Win32.{Win32}
use file_read_speed_test.FileRead.{OverlappedIoFileRead}
use file_read_speed_test.FileRead.Preparation.{IsReady}
use file_read_speed_test.TaskQueue.{TaskQueues, IsFifo, TaskThreads}
use file_read_speed_test.ReadTask.{Task, Shared}
use file_read_speed_test.EntryPoint.{Depths, numbered}
use file_read_speed_test.System.Ready.{IsReadyToStart}

-- What the sizes must satisfy: no block ends at the end of the file, the queue is not deeper than
-- the number of buffers, and the sums and products fit.
pub record HasRoom (platform : Platform) (d : Depths) (size : ℕ) : Type 0 where
  pub positive : 0 < d.buffer_size
  pub few : (size + d.buffer_size - 1) / d.buffer_size < dword_mod
  pub ragged : size % d.buffer_size ≢ 0
  pub room : size + d.queue_depth * d.buffer_size < quad_limit
  pub starts_fit : (d.thread_count + d.queue_depth) * d.buffer_size < quad_limit
  pub interval : d.queue_depth * d.buffer_size < size_mod platform
  pub few_threads : d.thread_count < size_mod platform
  pub shallow : d.queue_depth ≤ (size + d.buffer_size - 1) / d.buffer_size
  pub few_reads : d.queue_depth < size_mod platform

module _ (os : Win32) (q : TaskQueues Task) (platform : Platform) (fifo : IsFifo q)
    (t : TaskThreads os.World q.Queue) where
  -- A queue is empty and open.
  abbrev pub IsFresh : q.Queue → Type 0
  IsFresh u = (fifo.tasks u ≡ []) × (q.is_shutting_down u ≡ false)

  abbrev pub AreFresh : List t.Thread → Type 0
  AreFresh threads = All (λ (thread : t.Thread). IsFresh (t.task_queue thread)) threads

  numbered-IsFresh :
      (threads : List t.Thread) (main_task_queue : q.Queue) (j : ℕ)
      → AreFresh threads
      → IsFresh main_task_queue
      → IsFresh (numbered os q platform t threads main_task_queue j)
  unfolding numbered
  numbered-IsFresh [] main_task_queue j all main_fresh = main_fresh
  numbered-IsFresh (thread ∷ threads) main_task_queue zero all main_fresh = all.0
  numbered-IsFresh (thread ∷ threads) main_task_queue (suc j) all main_fresh =
      numbered-IsFresh threads main_task_queue j all.1 main_fresh

  -- The objects that the tasks share, as `main` makes them.
  abbrev pub first_shared : OverlappedIoFileRead → List t.Thread → q.Queue → os.World → Shared os q
  first_shared r threads main_task_queue w = record {
    file_read = r;
    queues = numbered os q platform t threads main_task_queue;
    completed_threads = 0;
    world = w;
  }

  pub first_shared-IsReadyToStart :
      (d : Depths) (size handle : ℕ) (r : OverlappedIoFileRead) (threads : List t.Thread)
      (main_task_queue : q.Queue) (w : os.World)
      → HasRoom platform d size
      → IsReady d.buffer_size size handle r
      → AreFresh threads
      → IsFresh main_task_queue
      → IsReadyToStart os q platform fifo d (first_shared r threads main_task_queue w)
  first_shared-IsReadyToStart d size handle r threads main_task_queue w has_room ready all
        main_fresh =
      let fresh = λ (j : ℕ). numbered-IsFresh threads main_task_queue j all main_fresh in
      let size_fits = has_room.room in
      let shallow = has_room.shallow in
      let count = ready.has_contexts in
      let same = ready.has_size in
      record {
        prepared = record {
          positive = has_room.positive;
          covered = rw same count;
          few = rw same has_room.few;
          small = omega (arith, same, size_fits);
        };
        ragged = rw same has_room.ragged;
        room = rw same has_room.room;
        starts_fit = has_room.starts_fit;
        interval = has_room.interval;
        few_threads = has_room.few_threads;
        shallow = omega (arith, count, shallow);
        few_reads = has_room.few_reads;
        all_empty = λ j le. (fresh j).0;
        none_completed = refl;
        main_open = (fresh d.thread_count).1;
        all_open = λ j lt. (fresh j).1;
      }
