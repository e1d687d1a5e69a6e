-- ===== src/EntryPoint/Main.antt =====
-- `main` of Code/EntryPoint.cpp, from its last step to its first one.
use file_read_speed_test.Base.{
  ℕ, ◌%◌, if◌then◌else◌, Option, none, some, List, String, length, Exec, ◌>>=◌, ◌>>◌, return,
  undefined, call, ℤ, pos, negsuc,
}
use file_read_speed_test.Words.{Platform, dword_mod}
use file_read_speed_test.Win32.{Win32, text_line, number_line}
use file_read_speed_test.Handles.{destroy}
use file_read_speed_test.FileRead.{
  OverlappedIoFile, OverlappedIoFileRead, Expected, expected, unexpected, create_overlapped_io_file,
  prepare_to_read_file, print_results,
}
use file_read_speed_test.TaskQueue.{
  TaskQueues, okay, shutting_down, could_not_set_event, TaskThreads,
}
use file_read_speed_test.ReadTask.{Task, Shared, Run, in_world}
use file_read_speed_test.StateMachine.{StateMachines}
use file_read_speed_test.CommandLine.{
  SuccessAction, Action, success_action, error_action, NodeIndices, Locals, CLibrary,
  process_command_line_parameters,
}
use file_read_speed_test.ThreadPool.{destroy_threads}
use file_read_speed_test.EntryPoint.{
  Depths, add_initial_tasks, issue_initial_reads, shutdown_queues, join_threads, numbered,
  choose_thread_pool, clean_up, destroy_file_read, choose_buffer_size, choose_queue_depth,
}

module _ (os : Win32) (q : TaskQueues Task) (platform : Platform) (t : TaskThreads os.World q.Queue)
    (c : CLibrary) (m : StateMachines NodeIndices Locals)
    (task_runner_loop : ℕ → Run os q (Unit {0})) where
  abbrev pub say : String → Exec os.World (Unit {0})
  say text = call (os.write_line (text_line text))

  unfoldable pub print_shared : ℕ → Run os q (Unit {0})
  print_shared pre_open_time s = elim (print_results os pre_open_time s.file_read s.world) [
    | none ↦ none
    | some (r, w) ↦ some (tt, record s { file_read = r; world = w })
  ]

  -- From the initial tasks to the results: the exit code, and the threads as they are then. What the
  -- threads do meanwhile is part of `task_runner_loop`, on the main queue.
  unfoldable pub session : Depths → ℕ → List t.Thread → Run os q (ℤ × List t.Thread)
  session d pre_open_time threads = do
    add_task_result ← add_initial_tasks os q platform d d.thread_count 0 0
    elim add_task_result [
      | okay ↦ do
        issue_initial_reads os q platform d
        task_runner_loop d.thread_count
        shutdown_queues os q platform d.thread_count 0
        joined ← in_world os q (join_threads os q platform t threads)
        print_shared pre_open_time
        return (pos 0, joined)
      | shutting_down ↦ return (negsuc 0, threads)
      | could_not_set_event ↦ return (negsuc 0, threads)
    ]

  -- The objects of `main` are destroyed, the last one first. The file has been moved from.
  unfoldable pub leave :
      Depths → OverlappedIoFile → ℤ × List t.Thread → Shared os q → Option (ℤ × os.World)
  leave d file (code, threads) s =
      (do
        call (t.destroy_task_queue (s.queues d.thread_count))
        destroy_file_read os q platform t s.file_read
        destroy os file.handle_object
        destroy_threads os t threads
        return code)
        s.world

  unfoldable pub with_main_task_queue :
      Depths
      → ℕ
      → List t.Thread
      → OverlappedIoFile
      → OverlappedIoFileRead
      → q.Queue
      → Exec os.World ℤ
  with_main_task_queue d pre_open_time threads file r main_task_queue w =
      elim (session d pre_open_time threads (record {
        file_read = r;
        queues = numbered os q platform t threads main_task_queue;
        completed_threads = 0;
        world = w;
      })) [ none ↦ none | some (result, s) ↦ leave d file result s ]

  unfoldable pub with_preparation :
      Depths
      → ℕ
      → List t.Thread
      → Expected OverlappedIoFileRead × OverlappedIoFile
      → Exec os.World ℤ
  with_preparation d pre_open_time threads (unexpected error, file) = do
    say "Error reading file\n"
    clean_up os q platform t file threads
  with_preparation d pre_open_time threads (expected r, file) = do
    main_task_queue ← call t.create_task_queue
    elim main_task_queue [
      | none ↦ do
        say "Could not create main task queue\n"
        destroy_file_read os q platform t r
        clean_up os q platform t file threads
      | some queue ↦ with_main_task_queue d pre_open_time threads file r queue
    ]

  -- The number of the worker threads goes into a `DWORD`.
  unfoldable pub with_buffer_size :
      SuccessAction → ℕ → List t.Thread → OverlappedIoFile → Option ℕ → Exec os.World ℤ
  with_buffer_size action pre_open_time threads file none = do
    say "Error finding ideal buffer size\n"
    clean_up os q platform t file threads
  with_buffer_size action pre_open_time threads file (some buffer_size) = do
    let thread_count = length threads
    queue_depth ← choose_queue_depth os q platform t action thread_count
    overlapped_io_file_read ← prepare_to_read_file os file (thread_count % dword_mod) buffer_size
    with_preparation
        (record {
          buffer_size = buffer_size;
          queue_depth = queue_depth;
          thread_count = thread_count;
        })
        pre_open_time threads overlapped_io_file_read

  unfoldable pub with_file :
      SuccessAction → List t.Thread → ℕ × Option OverlappedIoFile → Exec os.World ℤ
  with_file action threads (pre_open_time, none) = do
    say "Error opening file\n"
    destroy_threads os t threads
    return (negsuc 0)
  with_file action threads (pre_open_time, some file) = do
    buffer_size ← choose_buffer_size os q platform t action file
    with_buffer_size action pre_open_time threads file buffer_size

  unfoldable pub with_thread_pool : SuccessAction → Option (List t.Thread) → Exec os.World ℤ
  with_thread_pool action none = do say "Could not create thread pool\n"; return (negsuc 0)
  with_thread_pool action (some threads) = do
    call (os.write_line (number_line "Worker thread count: " (length threads)))
    file ← create_overlapped_io_file os action.file_path
    with_file action threads file

  -- What `std::visit` does with the action, and the rest. `std::exit` leaves at once.
  unfoldable pub execute : Action → Exec os.World ℤ
  execute (error_action error_message) = do say error_message; return (negsuc 0)
  execute (success_action action) = do
    say (if os.clock_is_steady then "Clock is steady" else "Clock is not steady")
    thread_pool ← choose_thread_pool os q platform t action
    with_thread_pool action thread_pool

  unfoldable pub main : List String → ℕ → Exec os.World ℤ
  main argv errno = elim (process_command_line_parameters c platform m argv errno) [
    | none ↦ undefined
    | some action ↦ execute action
  ]
