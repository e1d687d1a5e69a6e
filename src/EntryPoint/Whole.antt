-- ===== src/EntryPoint/Whole.antt =====
-- `main` from the command line to its exit code 0, with the queue depth that it chooses itself.
use file_read_speed_test.Base.{
  All, ◌++◌, ℕ, ◌+◌, ◌*◌, ◌%◌, ◌<◌, ◌≤◌, ◌≡◌, ◌≢◌, refl, ◌∙◌, true, none, some, List, String,
  length, get_elem?, pos, ◌>>◌, arith,
}
use file_read_speed_test.Words.{Platform, dword_mod}
use file_read_speed_test.Win32.{Win32}
use file_read_speed_test.FileRead.{
  IoContext, OverlappedIoFile, OverlappedIoFileRead, expected, create_overlapped_io_file,
  prepare_to_read_file,
}
use file_read_speed_test.FileRead.Coverage.{Covers}
use file_read_speed_test.FileRead.Preparation.{IsReady, prepare_to_read_file-Prepared}
use file_read_speed_test.TaskQueue.{TaskQueues, IsFifo, IsResponsive, TaskThreads, IsDestructible}
use file_read_speed_test.ReadTask.{Task, Shared, Run}
use file_read_speed_test.ReadTask.Requests.{IsRequestOf, asked, reads_between}
use file_read_speed_test.StateMachine.{StateMachines, IsFirstMatch}
use file_read_speed_test.CommandLine.{
  SuccessAction, success_action, NodeIndices, same_node, Locals, CLibrary,
}
use file_read_speed_test.CommandLine.Grammar.{IsStrtoull, command_line_action}
use file_read_speed_test.CommandLine.Refinement.{process-command_line_action}
use file_read_speed_test.EntryPoint.{
  add_initial_tasks, issue_initial_reads, choose_thread_pool, choose_buffer_size,
}
use file_read_speed_test.EntryPoint.Main.{with_preparation, main}
use file_read_speed_test.EntryPoint.Beginning.{HasRoom, IsFresh, AreFresh, first_shared}
use file_read_speed_test.EntryPoint.Bytes.{every_byte_is_read}
use file_read_speed_test.System.Reads.{times}
use file_read_speed_test.System.Flight.{Flight, FlightSteps, all_requests, all_reads}
use file_read_speed_test.System.Flight.Sequence.{launched}
use file_read_speed_test.EntryPoint.Default.{
  default_depths, clock_told, count_told, depth_told, with_buffer_size-default, with_file-runs,
  with_thread_pool-runs, execute-success,
}

one_block : (n b : ℕ) → 0 < n → b ≤ n * b
one_block n b more = grind arith

module _ (os : Win32) (q : TaskQueues Task) (platform : Platform) (fifo : IsFifo q)
    (t : TaskThreads os.World q.Queue) (c : CLibrary) (m : StateMachines NodeIndices Locals)
    (task_runner_loop : ℕ → Run os q (Unit {0})) (action : SuccessAction) where
  -- What `main` does up to its session, where all that it asks for can be had.
  pub record IsServed (w : os.World) (b : ℕ) (threads : List t.Thread)
      (file left : OverlappedIoFile) (r : OverlappedIoFileRead) (main_task_queue : q.Queue)
      (size pre_open_time : ℕ) (w' : os.World) : Type 0 where
    pub before_file : os.World
    pub before_size : os.World
    pub before_depth : os.World
    pub before_queue : os.World
    pub has_threads :
        choose_thread_pool os q platform t action
          (clock_told os q platform t c m task_runner_loop action w)
        ≡ some (some threads, before_file)
    pub has_file :
        create_overlapped_io_file os action.file_path
          (count_told os q platform t c m task_runner_loop action (length threads) before_file)
        ≡ some ((pre_open_time, some file), before_size)
    pub has_buffer_size :
        choose_buffer_size os q platform t action file before_size ≡ some (some b, before_depth)
    pub knows_size :
        (os.get_file_size file.handle
          (depth_told os q platform t c m task_runner_loop action (length threads) before_depth)).0
        ≡ some size
    pub has_read :
        prepare_to_read_file os file
          (length threads % dword_mod)
          b
          (depth_told os q platform t c m task_runner_loop action (length threads) before_depth)
        ≡ some ((expected r, left), before_queue)
    pub has_queue : t.create_task_queue before_queue ≡ (some main_task_queue, w')

  module _ (w : os.World) (b : ℕ) (threads : List t.Thread) (file left : OverlappedIoFile)
      (r : OverlappedIoFileRead) (main_task_queue : q.Queue) (size pre_open_time : ℕ)
      (w' : os.World)
      (served : IsServed w b threads file left r main_task_queue size pre_open_time w') where
    served-IsReady :
        0 < length threads
        → b < dword_mod
        → HasRoom platform (default_depths b (length threads)) size
        → IsReady b size file.handle r
    served-IsReady some_thread narrow has_room =
        let room = has_room.room in
        let prepared =
          prepare_to_read_file-Prepared os file (length threads % dword_mod) b size
            has_room.positive narrow (omega (arith, room, one_block (length threads) b some_thread))
            has_room.few _ served.knows_size in
        (rw served.has_read at prepared).0

    main-with_preparation :
        (s : IsStrtoull c) (argv : List String) (errno : ℕ)
        → IsFirstMatch same_node m
        → errno ≢ c.erange
        → command_line_action c platform s argv ≡ success_action action
        → action.queue_depth ≡ none
        → main os q platform t c m task_runner_loop argv errno w
          ≡ with_preparation os q platform t c m task_runner_loop
              (default_depths b (length threads))
              pre_open_time
              threads
              (expected r, left)
              served.before_queue
    unfolding main
    main-with_preparation s argv errno law fresh accepted no_depth =
        rw (process-command_line_action c platform m s errno fresh law argv, accepted, main)
          (execute-success os q platform t c m task_runner_loop action (some threads) w
              served.before_file served.has_threads
            ∙ with_thread_pool-runs os q platform t c m task_runner_loop action threads
                (pre_open_time, some file) served.before_file served.before_size served.has_file
            ∙ with_file-runs os q platform t c m task_runner_loop action pre_open_time b threads
                file served.before_size served.before_depth served.has_buffer_size
            ∙ with_buffer_size-default os q platform t c m task_runner_loop action pre_open_time b
                threads file (expected r, left) served.before_depth served.before_queue no_depth
                served.has_read)

    -- Where the grammar accepts the command line with no queue depth, `errno` is not ERANGE at the
    -- call, the state machine picks the first match, the pool, the file, the buffer size, the size
    -- of the file, the preparation and the main queue can all be had, there is at least one thread,
    -- the buffer size is below 2 ^ 32, the buffer size is not 0 and the file's size no multiple of
    -- it, the file has fewer than 2 ^ 32 buffers and no fewer than the queue is deep, the sums and
    -- products of the counts and sizes fit, the file has at most 4 GiB, the queues are responsive,
    -- and empty and open at first, and threads can be destroyed once they are joined: if the loop
    -- over the main queue comes back after steps of the threads in any order, in which `ReadFile`
    -- makes reads pending, each wait is given a pending one and reads may be lost, with the main
    -- queue shut down, then `main` is defined and ends with 0, and when the loop comes back each
    -- byte of the file is asked for by a context that is complete and that `ReadFile` has been
    -- given exactly once, and by no context of another number; and all that `ReadFile` has been
    -- given in the meantime are requests of a context: the file's handle, and the context's buffer,
    -- size and offset.
    pub main-reads_bytes :
        (s : IsStrtoull c) (argv : List String) (errno : ℕ) (s₁ : Shared os q) (f : Flight os q)
        → IsFirstMatch same_node m
        → errno ≢ c.erange
        → command_line_action c platform s argv ≡ success_action action
        → action.queue_depth ≡ none
        → IsResponsive q
        → IsDestructible t
        → 0 < length threads
        → b < dword_mod
        → HasRoom platform (default_depths b (length threads)) size
        → size ≤ dword_mod
        → AreFresh os q platform fifo t threads
        → IsFresh os q platform fifo t main_task_queue
        → let d = default_depths b (length threads) in
          (add_initial_tasks os q platform d (length threads) 0 0
                >> issue_initial_reads os q platform d)
              (first_shared os q platform fifo t r threads main_task_queue w')
            ≡ some (tt, s₁)
          → task_runner_loop (length threads) s₁ ≡ some (tt, f.shared)
          → (steps : FlightSteps os q platform d
              (launched os q
                (first_shared os q platform fifo t r threads main_task_queue w')
                s₁
                (length threads))
              f)
          → q.is_shutting_down (f.shared.queues (length threads)) ≡ true
          → ((v : os.World) × (main os q platform t c m task_runner_loop argv errno w
                ≡ some (pos 0, v)))
            × ((p : ℕ)
                → p < size
                → (k : ℕ) × (x : IoContext) × (get_elem? f.shared.file_read.contexts k ≡ some x)
                  × Covers x p
                  × (x.is_complete ≡ true)
                  × (times k (all_reads os q steps)
                        + times k (
                            reads_between os q
                              (first_shared os q platform fifo t r threads main_task_queue w')
                              s₁)
                      ≡ 1)
                  × ((i : ℕ) (y : IoContext)
                      → get_elem? r.contexts i ≡ some y
                      → Covers y p
                      → i ≡ k))
            × All (IsRequestOf f.shared.file_read) (all_requests os q steps ++ asked os w' s₁.world)
    main-reads_bytes s argv errno s₁ f first_match fresh accepted no_depth responsive law
          some_thread narrow has_room low all main_fresh starts loops steps shut =
        let d = default_depths b (length threads) in
        let ((v, returns), bytes, requests) =
          every_byte_is_read os q platform fifo d t c m task_runner_loop size file.handle
            pre_open_time r threads left main_task_queue served.before_queue w' s₁ f responsive law
            refl refl some_thread has_room low (served-IsReady some_thread narrow has_room) all
            main_fresh served.has_queue starts loops steps shut in
        (
          (v, main-with_preparation s argv errno first_match fresh accepted no_depth ∙ returns),
          bytes,
          requests,
        )
