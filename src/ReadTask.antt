-- ===== src/ReadTask.antt =====
-- Code/OverlappedIOFileReadTask.hpp and Code/OverlappedIOFileReadTask.cpp: the tasks that the
-- threads run, over the objects that they share.
pub mod Queues
pub mod Steps
pub mod Chain
pub mod Requests
use file_read_speed_test.Base.{
  ℕ, ◌+◌, ◌%◌, ◌==◌, if◌then◌else◌, true, Option, none, some, get_elem?, set, Exec, ◌>>=◌, ◌>>◌,
  return, undefined, call,
}
use file_read_speed_test.Words.{Platform, size_mod}
use file_read_speed_test.Win32.{Win32, Completion}
use file_read_speed_test.FileRead.{OverlappedIoFileRead, get_new_read_offset, read}
use file_read_speed_test.TaskQueue.{TaskQueues, AddTaskError}

-- A queue is named by its address. The pointers to the file read and to the counter of completed
-- threads are the same in every task: they are the fields of `Shared`.
pub record OverlappedIoFileReadTask : Type 0 where
  pub current_read_start : ℕ
  pub buffer_interval_in_bytes : ℕ
  pub context_index : ℕ
  pub thread_count : ℕ
  pub queue_depth : ℕ
  pub task_queue : ℕ
  pub main_task_queue : ℕ

pub record Finished : Type 0 where
  pub thread_count : ℕ
  pub main_task_queue : ℕ

-- The arguments but for the pointers that every task shares, in the order of the constructor.
abbrev pub new_overlapped_io_file_read_task : ℕ → ℕ → ℕ → ℕ → ℕ → ℕ → ℕ → OverlappedIoFileReadTask
new_overlapped_io_file_read_task start interval index thread_count queue_depth queue main_queue =
    record {
      current_read_start = start;
      buffer_interval_in_bytes = interval;
      context_index = index;
      thread_count = thread_count;
      queue_depth = queue_depth;
      task_queue = queue;
      main_task_queue = main_queue;
    }

abbrev pub new_finished : ℕ → ℕ → Finished
new_finished thread_count main_task_queue = record {
  thread_count = thread_count;
  main_task_queue = main_task_queue;
}

pub data Task : Type 0 where
  read_task : OverlappedIoFileReadTask → Task
  finished_task : Finished → Task

pub record Shared (os : Win32) (q : TaskQueues Task) : Type 0 where
  pub file_read : OverlappedIoFileRead
  pub queues : ℕ → q.Queue
  pub completed_threads : ℕ
  pub world : os.World

abbrev pub update {ℓ} : {A : Type ℓ} → (ℕ → A) → ℕ → A → ℕ → A
update f i a j = if i == j then a else f j

module _ (os : Win32) (q : TaskQueues Task) where
  abbrev pub Run : Type 0 → Type 0
  Run = Exec (Shared os q)

  unfoldable pub in_world : {A : Type 0} → Exec os.World A → Run A
  in_world m s = elim (m s.world) [ none ↦ none | some (a, w) ↦ some (a, record s { world = w }) ]

  unfoldable pub read_shared : ℕ → Run (Unit {0})
  read_shared context_index s = elim (read os s.file_read context_index s.world) [
    | none ↦ none
    | some (r, w) ↦ some (tt, record s { file_read = r; world = w })
  ]

  unfoldable pub add_task : ℕ → Task → Run AddTaskError
  add_task queue task s =
      let (result, changed) = q.add_task task (s.queues queue) in
      some (result, record s { queues = update s.queues queue changed })

  -- `context` points to the element number `k` of `contexts_`.
  unfoldable pub mark_complete : ℕ → ℕ → Run (Unit {0})
  mark_complete k time s = elim (get_elem? s.file_read.contexts k) [
    | none ↦ none
    | some c ↦
        let completed = record c { request_complete_time = time; is_complete = true } in
        some (
          tt,
          record s {
            file_read = record s.file_read { contexts = set s.file_read.contexts k completed };
          },
        )
  ]

  -- What follows the wait for a completion. The result of `AddTask` is tested, and every branch of
  -- the test returns.
  unfoldable pub continue_read : Platform → OverlappedIoFileReadTask → Option ℕ → Run (Unit {0})
  unfolding read_shared add_task
  continue_read platform t none = do
    add_task_result ←
        add_task t.main_task_queue (finished_task (new_finished t.thread_count t.main_task_queue))
    return tt
  continue_read platform t (some new_read_offset) = do
    let new_context_index = (t.context_index + t.queue_depth) % size_mod platform
    read_shared new_context_index
    add_task_result ← add_task t.task_queue (
        read_task (
          new_overlapped_io_file_read_task new_read_offset t.buffer_interval_in_bytes
            new_context_index t.thread_count t.queue_depth t.task_queue t.main_task_queue))
    return tt

  -- `OverlappedIOFileReadTask::Run` from the return of `GetQueuedCompletionStatus` on: the wait has
  -- no other effect, and what it gave is an argument. A null pointer is read from.
  unfoldable pub run_read_task : Platform → OverlappedIoFileReadTask → Completion → Run (Unit {0})
  unfolding in_world mark_complete continue_read
  run_read_task platform t completion = elim completion.context [
    | none ↦ undefined
    | some k ↦ do
      time ← in_world (call os.now)
      mark_complete k time
      λ s.
          continue_read platform t
            (get_new_read_offset s.file_read.file_size t.current_read_start
              t.buffer_interval_in_bytes)
            s
  ]

  -- `OverlappedIOFileReadTask::Run`, with the wait.
  unfoldable pub wait_and_run : Platform → OverlappedIoFileReadTask → Run (Unit {0})
  unfolding in_world run_read_task
  wait_and_run platform t s =
      (do
        completion ←
            in_world (call (os.get_queued_completion_status s.file_read.completion_port.handle))
        run_read_task platform t completion)
        s

  -- `Finished::Run`.
  unfoldable pub run_finished : Platform → Finished → Run (Unit {0})
  run_finished platform f s =
      let completed = (s.completed_threads + 1) % size_mod platform in
      let counted = record s { completed_threads = completed } in
      if completed == f.thread_count
      then some (
        tt,
        record counted {
          queues = update s.queues f.main_task_queue (q.shutdown (s.queues f.main_task_queue));
        },
      )
      else some (tt, counted)
