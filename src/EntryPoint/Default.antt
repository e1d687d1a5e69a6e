-- ===== src/EntryPoint/Default.antt =====
-- `main` up to its session, step by step, with the queue depth that it chooses itself.
use file_read_speed_test.Base.{
  ℕ, ◌%◌, ◌≡◌, Option, none, some, List, length, bind_some, if◌then◌else◌,
}
use file_read_speed_test.Words.{Platform, dword_mod}
use file_read_speed_test.Win32.{Win32, text_line, number_line}
use file_read_speed_test.FileRead.{
  OverlappedIoFile, OverlappedIoFileRead, Expected, create_overlapped_io_file, prepare_to_read_file,
}
use file_read_speed_test.TaskQueue.{TaskQueues, TaskThreads}
use file_read_speed_test.ReadTask.{Task, Run}
use file_read_speed_test.StateMachine.{StateMachines}
use file_read_speed_test.CommandLine.{SuccessAction, success_action, NodeIndices, Locals, CLibrary}
use file_read_speed_test.EntryPoint.{
  Depths, choose_thread_pool, choose_buffer_size, choose_queue_depth,
}
use file_read_speed_test.EntryPoint.Main.{
  with_preparation, with_buffer_size, with_file, with_thread_pool, execute,
}

-- The depths when the command line gives no queue depth.
abbrev pub default_depths : ℕ → ℕ → Depths
default_depths buffer_size thread_count = record {
  buffer_size = buffer_size;
  queue_depth = thread_count;
  thread_count = thread_count;
}

module _ (os : Win32) (q : TaskQueues Task) (platform : Platform) (t : TaskThreads os.World q.Queue)
    (c : CLibrary) (m : StateMachines NodeIndices Locals)
    (task_runner_loop : ℕ → Run os q (Unit {0})) (action : SuccessAction) where
  -- The worlds after what `main` prints on its way.
  abbrev pub clock_told : os.World → os.World
  clock_told w =
      (os.write_line
        (text_line (if os.clock_is_steady then "Clock is steady" else "Clock is not steady")) w).1

  abbrev pub count_told : ℕ → os.World → os.World
  count_told n w = (os.write_line (number_line "Worker thread count: " n) w).1

  abbrev pub depth_told : ℕ → os.World → os.World
  depth_told n w = (os.write_line (number_line "Using queue depth = thread count: " n) w).1

  pub with_buffer_size-default :
      (pre_open_time b : ℕ) (threads : List t.Thread) (file : OverlappedIoFile)
      (prepared : Expected OverlappedIoFileRead × OverlappedIoFile) (w w' : os.World)
      → action.queue_depth ≡ none
      → prepare_to_read_file os file (length threads % dword_mod) b (depth_told (length threads) w)
        ≡ some (prepared, w')
      → with_buffer_size os q platform t c m task_runner_loop action pre_open_time threads file
          (some b)
          w
        ≡ with_preparation os q platform t c m task_runner_loop
            (default_depths b (length threads))
            pre_open_time
            threads
            prepared
            w'
  unfolding with_buffer_size choose_queue_depth
  with_buffer_size-default pre_open_time b threads file prepared w w' no_depth prepares =
      rw (no_depth, with_buffer_size, choose_queue_depth)
        (bind_some (prepare_to_read_file os file (length threads % dword_mod) b) _ _ prepares)

  pub with_file-runs :
      (pre_open_time b : ℕ) (threads : List t.Thread) (file : OverlappedIoFile) (w w' : os.World)
      → choose_buffer_size os q platform t action file w ≡ some (some b, w')
      → with_file os q platform t c m task_runner_loop action threads (pre_open_time, some file) w
        ≡ with_buffer_size os q platform t c m task_runner_loop action pre_open_time threads file
            (some b)
            w'
  unfolding with_file
  with_file-runs pre_open_time b threads file w w' chooses =
      bind_some (choose_buffer_size os q platform t action file) _ w chooses

  pub with_thread_pool-runs :
      (threads : List t.Thread) (file : ℕ × Option OverlappedIoFile) (w w' : os.World)
      → create_overlapped_io_file os action.file_path (count_told (length threads) w)
        ≡ some (file, w')
      → with_thread_pool os q platform t c m task_runner_loop action (some threads) w
        ≡ with_file os q platform t c m task_runner_loop action threads file w'
  unfolding with_thread_pool
  with_thread_pool-runs threads file w w' opens =
      bind_some (create_overlapped_io_file os action.file_path) _ _ opens

  pub execute-success :
      (pool : Option (List t.Thread)) (w w' : os.World)
      → choose_thread_pool os q platform t action (clock_told w) ≡ some (pool, w')
      → execute os q platform t c m task_runner_loop (success_action action) w
        ≡ with_thread_pool os q platform t c m task_runner_loop action pool w'
  unfolding execute
  execute-success pool w w' chooses =
      bind_some (choose_thread_pool os q platform t action) _ _ chooses
