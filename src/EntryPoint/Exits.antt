-- ===== src/EntryPoint/Exits.antt =====
-- How `main` ends early.
use file_read_speed_test.Base.{
  ℕ, ◌*◌, ◌<◌, ◌≡◌, ◌≢◌, refl, ◌∙◌, ap, false, none, some, List, ◌∷◌, String, length, negsuc,
  bind_some, bind_none, arith,
}
use file_read_speed_test.Words.{Platform, size_mod, quad_mod}
use file_read_speed_test.Win32.{Win32, text_line}
use file_read_speed_test.Handles.{destroy, destroy_lem}
use file_read_speed_test.FileRead.{
  OverlappedIoFile, OverlappedIoFileRead, PrepareToReadFileError, unexpected,
}
use file_read_speed_test.TaskQueue.{TaskQueues, IsFifo, IsResponsive, TaskThreads, IsJoinable}
use file_read_speed_test.ReadTask.{Task, Shared, Run}
use file_read_speed_test.StateMachine.{StateMachines, IsFirstMatch}
use file_read_speed_test.CommandLine.{
  SuccessAction, error_action, NodeIndices, same_node, Locals, CLibrary,
}
use file_read_speed_test.CommandLine.Grammar.{IsStrtoull, command_line_action}
use file_read_speed_test.CommandLine.Refinement.{process-command_line_action}
use file_read_speed_test.ThreadPool.{destroy_threads}
use file_read_speed_test.EntryPoint.{Depths, clean_up, add_initial_tasks, issue_initial_reads}
use file_read_speed_test.EntryPoint.Main.{
  session, with_file, with_buffer_size, with_preparation, execute, main,
}
use file_read_speed_test.EntryPoint.InitialTasks.{add_initial_tasks-IsAligned}
use file_read_speed_test.EntryPoint.InitialReads.{issue_initial_reads_out_of_range}

module _ (os : Win32) (q : TaskQueues Task) (platform : Platform) (t : TaskThreads os.World q.Queue)
    (c : CLibrary) (m : StateMachines NodeIndices Locals)
    (task_runner_loop : ℕ → Run os q (Unit {0})) where
  -- A command line that the grammar refuses, with an `errno` other than ERANGE at the call, makes
  -- `main` print the message of the grammar, do nothing else, and end with -1.
  pub main-refused :
      IsFirstMatch same_node m
      → (s : IsStrtoull c) (argv : List String) (errno : ℕ) (message : String) (w : os.World)
      → errno ≢ c.erange
      → command_line_action c platform s argv ≡ error_action message
      → main os q platform t c m task_runner_loop argv errno w
        ≡ some (negsuc 0, (os.write_line (text_line message) w).1)
  unfolding main execute
  main-refused law s argv errno message w fresh refused =
      rw (process-command_line_action c platform m s errno fresh law argv, refused, main) refl

  module _ (joinable : IsJoinable t) (thread : t.Thread) (threads : List t.Thread) (v : os.World)
      (created : (t.create_task_thread v).0 ≡ some thread) where
    destroy_threads-created : (w : os.World) → destroy_threads os t (thread ∷ threads) w ≡ none
    unfolding destroy_threads
    destroy_threads-created w =
        bind_none (t.destroy_task_thread thread) _ w (joinable.destroy_created v w thread created)

    clean_up-created :
        (file : OverlappedIoFile) (w : os.World)
        → clean_up os q platform t file (thread ∷ threads) w ≡ none
    unfolding clean_up
    clean_up-created file w =
        let (w', destroyed) = destroy_lem os file.handle_object w in
        bind_some (destroy os file.handle_object) _ w destroyed
        ∙ bind_none (destroy_threads os t (thread ∷ threads)) _ w' (destroy_threads-created w')

    -- With a pool whose first thread was created and not joined, the three exits of `main` after a
    -- file that cannot be opened, a buffer size that cannot be found and a read that cannot be
    -- prepared terminate the program.
    pub error_exits_terminate :
        (action : SuccessAction) (pre_open_time : ℕ) (d : Depths) (file : OverlappedIoFile)
        (error : PrepareToReadFileError) (w : os.World)
        → (with_file os q platform t c m task_runner_loop action
              (thread ∷ threads)
              (pre_open_time, none)
              w
            ≡ none)
          × (with_buffer_size os q platform t c m task_runner_loop action pre_open_time
                (thread ∷ threads)
                file
                none
                w
              ≡ none)
          × (with_preparation os q platform t c m task_runner_loop d pre_open_time
                (thread ∷ threads)
                (unexpected error, file)
                w
              ≡ none)
    unfolding with_file with_buffer_size with_preparation
    error_exits_terminate action pre_open_time d file error w = (
      bind_none (destroy_threads os t (thread ∷ threads)) _ _ (destroy_threads-created _),
      clean_up-created file _,
      clean_up-created file _,
    )

  -- With queues that are open and responsive and products that fit, a session whose queue is to be
  -- deeper than the number of contexts is undefined.
  pub session-too_deep :
      IsFifo q
      → IsResponsive q
      → (d : Depths) (pre_open_time : ℕ) (threads : List t.Thread) (s : Shared os q)
      → d.thread_count * d.buffer_size < quad_mod
      → d.thread_count < size_mod platform
      → d.queue_depth * d.buffer_size < size_mod platform
      → ((j : ℕ) → j < d.thread_count → q.is_shutting_down (s.queues j) ≡ false)
      → length s.file_read.contexts < d.queue_depth
      → length s.file_read.contexts < size_mod platform
      → session os q platform t c m task_runner_loop d pre_open_time threads s ≡ none
  unfolding session
  session-too_deep fifo responsive d pre_open_time threads s fits few interval all_open deep short =
      let (s', runs, given, _) =
        add_initial_tasks-IsAligned os q platform fifo d responsive fits few interval s all_open in
      let same_count = ap (λ (r : OverlappedIoFileRead). length r.contexts) given.same_file_read in
      bind_some (add_initial_tasks os q platform d d.thread_count 0 0) _ s runs
      ∙ bind_none (issue_initial_reads os q platform d) _ s' (
          issue_initial_reads_out_of_range os q platform d s' (omega (arith, same_count))
            (omega (arith, same_count)))
