-- ===== src/EntryPoint.antt =====
-- Code/EntryPoint.cpp: the steps of `main`.
pub mod Main
pub mod InitialTasks
pub mod InitialReads
pub mod Exits
pub mod Ending
pub mod Sessions
pub mod Reported
pub mod Beginning
pub mod Orderly
pub mod Bytes
pub mod Default
pub mod Whole
use file_read_speed_test.Base.{
  ℕ, zero, suc, ◌+◌, ◌*◌, ◌%◌, if◌then◌else◌, Option, none, some, List, [], ◌∷◌, String, length,
  Exec, ◌>>=◌, ◌>>◌, return, call, ℤ, pos, negsuc,
}
use file_read_speed_test.Words.{Platform, dword_mod, quad_mod, size_mod}
use file_read_speed_test.Win32.{Win32, text_line, number_line}
use file_read_speed_test.Handles.{destroy}
use file_read_speed_test.FileRead.{
  OverlappedIoFile, OverlappedIoFileRead, Expected, expected, unexpected, create_overlapped_io_file,
  get_ideal_buffer_size, prepare_to_read_file, print_results,
}
use file_read_speed_test.TaskQueue.{
  TaskQueues, AddTaskError, okay, shutting_down, could_not_set_event, TaskThreads,
}
use file_read_speed_test.ReadTask.{
  OverlappedIoFileReadTask, new_overlapped_io_file_read_task, Task, read_task, Shared, update, Run,
  in_world, read_shared, add_task,
}
use file_read_speed_test.StateMachine.{StateMachines}
use file_read_speed_test.CommandLine.{
  SuccessAction, Action, success_action, error_action, NodeIndices, Locals, CLibrary,
  process_command_line_parameters,
}
use file_read_speed_test.ThreadPool.{create_thread_pool, create_best_thread_pool, destroy_threads}

-- What `main` reads by, once it has been set up.
pub record Depths : Type 0 where
  pub buffer_size : ℕ
  pub queue_depth : ℕ
  pub thread_count : ℕ

-- The task for the thread number `i`: the threads' queues have the numbers below `thread_count`, and
-- the main queue has `thread_count`. The interval is a product of `size_t`s.
abbrev pub initial_task : Platform → Depths → ℕ → ℕ → OverlappedIoFileReadTask
initial_task platform d current_read_start i =
    new_overlapped_io_file_read_task current_read_start
      ((d.queue_depth * d.buffer_size) % size_mod platform) i d.thread_count d.queue_depth i
      d.thread_count

module _ (os : Win32) (q : TaskQueues Task) (platform : Platform) where
  -- The loop over the threads, of which `rounds` are left, that adds the initial read tasks. The
  -- first result that is not okay ends it.
  unfoldable pub add_initial_tasks : Depths → ℕ → ℕ → ℕ → Run os q AddTaskError
  add_initial_tasks d zero current_read_start i = return okay
  add_initial_tasks d (suc rounds) current_read_start i = do
    result ← add_task os q i (read_task (initial_task platform d current_read_start i))
    elim result [
      | okay ↦
          add_initial_tasks d rounds ((current_read_start + d.buffer_size) % quad_mod)
            ((i + 1) % size_mod platform)
      | shutting_down ↦ return shutting_down
      | could_not_set_event ↦ return could_not_set_event
    ]

  -- The loop that issues the initial reads, with the rounds that are left.
  unfoldable pub issue_reads : ℕ → ℕ → Run os q (Unit {0})
  issue_reads zero i = return tt
  issue_reads (suc rounds) i = do
    read_shared os q i
    issue_reads rounds ((i + 1) % size_mod platform)

  -- From `read_issue_time_` on.
  unfoldable pub issue_initial_reads : Depths → Run os q (Unit {0})
  issue_initial_reads d = do
    read_issue_time ← in_world os q (call os.now)
    λ s.
        issue_reads d.queue_depth 0
          (record s { file_read = record s.file_read { read_issue_time = read_issue_time } })

  -- `Shutdown` of the queues of the threads, from the number `i` on.
  unfoldable pub shutdown_queues : ℕ → ℕ → Run os q (Unit {0})
  shutdown_queues zero i s = some (tt, s)
  shutdown_queues (suc rounds) i s =
      shutdown_queues rounds (i + 1)
        (record s { queues = update s.queues i (q.shutdown (s.queues i)) })

  module _ (t : TaskThreads os.World q.Queue) where
    unfoldable pub join_threads : List t.Thread → Exec os.World (List t.Thread)
    join_threads [] = return []
    join_threads (thread ∷ threads) = do
      joined ← call (t.join thread)
      rest ← join_threads threads
      return (joined ∷ rest)

    -- The queues of the threads under the numbers from 0 on, and then the main queue.
    unfoldable pub numbered : List t.Thread → q.Queue → ℕ → q.Queue
    numbered [] main_task_queue i = main_task_queue
    numbered (thread ∷ threads) main_task_queue zero = t.task_queue thread
    numbered (thread ∷ threads) main_task_queue (suc i) = numbered threads main_task_queue i

    unfoldable pub choose_thread_pool : SuccessAction → Exec os.World (Option (List t.Thread))
    choose_thread_pool action = elim action.thread_count [
      | some thread_count ↦ create_thread_pool os t thread_count
      | none ↦ create_best_thread_pool os t
    ]

    -- `return -1`: the file and the threads are destroyed, the last one first.
    unfoldable pub clean_up : OverlappedIoFile → List t.Thread → Exec os.World ℤ
    clean_up file threads = do
      destroy os file.handle_object
      destroy_threads os t threads
      return (negsuc 0)

    unfoldable pub destroy_file_read : OverlappedIoFileRead → Exec os.World (Unit {0})
    destroy_file_read r =
        destroy os r.completion_port >> destroy os r.overlapped_io_file.handle_object

    unfoldable pub choose_buffer_size : SuccessAction → OverlappedIoFile → Exec os.World (Option ℕ)
    choose_buffer_size action file = elim action.buffer_size [
      | some buffer_size ↦ do
        call (os.write_line (number_line "Using supplied buffer size: " buffer_size))
        return (some buffer_size)
      | none ↦ do
        buffer_size_optional ← get_ideal_buffer_size os file
        elim buffer_size_optional [
          | none ↦ return none
          | some buffer_size ↦ do
            call (os.write_line (number_line "Using calculated ideal buffer size: " buffer_size))
            return (some buffer_size)
        ]
    ]

    unfoldable pub choose_queue_depth : SuccessAction → ℕ → Exec os.World ℕ
    choose_queue_depth action thread_count = elim action.queue_depth [
      | some queue_depth ↦ do
        call (os.write_line (number_line "Using supplied queue_depth: " queue_depth))
        return queue_depth
      | none ↦ do
        call (os.write_line (number_line "Using queue depth = thread count: " thread_count))
        return thread_count
    ]
