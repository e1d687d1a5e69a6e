-- ===== src/Tests/Start.antt =====
-- Runs of parts of `main`.
use file_read_speed_test.Base.{ℕ, ◌≡◌, ◌*◌, refl, false, none, some, [], ◌∷◌, negsuc, arith}
use file_read_speed_test.Words.{x64}
use file_read_speed_test.Win32.{text_line}
use file_read_speed_test.FileRead.{unexpected, could_not_get_file_size}
use file_read_speed_test.TaskQueue.{okay, TaskThreads, IsJoinable}
use file_read_speed_test.ReadTask.{Shared, Run}
use file_read_speed_test.ReadTask.Chain.{IsAligned}
use file_read_speed_test.CommandLine.{SuccessAction, error_action, no_file_provided}
use file_read_speed_test.CommandLine.Grammar.{finish, read_flags, command_line_action}
use file_read_speed_test.EntryPoint.{Depths, initial_task, add_initial_tasks, issue_initial_reads}
use file_read_speed_test.EntryPoint.Main.{
  session, with_file, with_buffer_size, with_preparation, main,
}
use file_read_speed_test.EntryPoint.InitialTasks.{IsGiven, add_initial_tasks-IsAligned}
use file_read_speed_test.EntryPoint.InitialReads.{
  first_reads, timed, AreIssued, issue_initial_reads_in_range,
}
use file_read_speed_test.ReadTask.Requests.{Asks}
use file_read_speed_test.EntryPoint.Exits.{main-refused, error_exits_terminate, session-too_deep}
use file_read_speed_test.Tests.Windows.{SmallWorld, fresh_world, small_windows}
use file_read_speed_test.Tests.Libraries.{
  ListQueue, list_queues, list_queues-IsFifo, list_queues-IsResponsive, list_machines,
  list_machines-IsFirstMatch, digits_library, digits_library-IsStrtoull,
}
use file_read_speed_test.Tests.Files.{small_file}
use file_read_speed_test.Tests.Tasks.{shared_of}

abbrev pub by_two : Depths
by_two = record { buffer_size = 4; queue_depth = 2; thread_count = 2 }

abbrev too_deep : Depths
too_deep = record { buffer_size = 4; queue_depth = 5; thread_count = 2 }

add_initial_tasks-IsAligned_example :
    (s' : Shared small_windows list_queues) × (add_initial_tasks small_windows list_queues x64
        by_two 2 0 0
        (shared_of 10)
      ≡ some (okay, s'))
    × IsGiven small_windows list_queues x64 list_queues-IsFifo by_two 0 (shared_of 10) s'
    × ((j : ℕ) → IsAligned 4 (initial_task x64 by_two (j * 4) j))
add_initial_tasks-IsAligned_example =
    add_initial_tasks-IsAligned small_windows list_queues x64 list_queues-IsFifo by_two
      list_queues-IsResponsive (omega arith) (omega arith) (omega arith) (shared_of 10)
      (λ j lt. refl)

issue_initial_reads_in_range_example :
    (s' : Shared small_windows list_queues) × (issue_initial_reads small_windows list_queues x64
        by_two
        (shared_of 10)
      ≡ some (tt, s'))
    × AreIssued small_windows list_queues x64 0 2
        (timed small_windows list_queues x64 (shared_of 10))
        s'
    × Asks small_windows list_queues (shared_of 10) s' (first_reads 2)
issue_initial_reads_in_range_example =
    issue_initial_reads_in_range small_windows list_queues x64 by_two (shared_of 10) (omega arith)
      (omega arith)

-- Threads are numbers, each with an empty queue, and none has been joined.
abbrev pub idle_threads : TaskThreads SmallWorld ListQueue
idle_threads = record {
  Thread = ℕ;
  create_task_queue = λ w. (some (record { items = []; closed = false }), w);
  destroy_task_queue = λ q w. (tt, w);
  create_task_thread = λ w. (some w.clock, w);
  task_queue = λ thread. record { items = []; closed = false };
  join = λ thread w. (thread, w);
  destroy_task_thread = λ thread w. none;
}

idle_threads-IsJoinable : IsJoinable idle_threads
idle_threads-IsJoinable = record { destroy_created = λ w w' thread e. refl }

abbrev no_loop : ℕ → Run small_windows list_queues (Unit {0})
no_loop main_task_queue s = some (tt, s)

no_file_action :
    command_line_action digits_library x64 digits_library-IsStrtoull ("test.exe" ∷ [])
    ≡ error_action no_file_provided
unfolding command_line_action finish read_flags
no_file_action = refl

main-refused_example :
    main small_windows list_queues x64 idle_threads digits_library list_machines no_loop
      ("test.exe" ∷ [])
      0
      fresh_world
    ≡ some (negsuc 0, (small_windows.write_line (text_line no_file_provided) fresh_world).1)
main-refused_example =
    main-refused small_windows list_queues x64 idle_threads digits_library list_machines no_loop
      list_machines-IsFirstMatch digits_library-IsStrtoull ("test.exe" ∷ []) 0 no_file_provided
      fresh_world (omega arith) no_file_action

abbrev no_options : SuccessAction
no_options = record {
  file_path = "a.txt";
  buffer_size = none;
  thread_count = none;
  queue_depth = none;
}

error_exits_terminate_example :
    (with_file small_windows list_queues x64 idle_threads digits_library list_machines no_loop
        no_options
        (0 ∷ [])
        (0, none)
        fresh_world
      ≡ none)
    × (with_buffer_size small_windows list_queues x64 idle_threads digits_library list_machines
          no_loop no_options 0
          (0 ∷ [])
          small_file
          none
          fresh_world
        ≡ none)
    × (with_preparation small_windows list_queues x64 idle_threads digits_library list_machines
          no_loop by_two 0
          (0 ∷ [])
          (unexpected could_not_get_file_size, small_file)
          fresh_world
        ≡ none)
error_exits_terminate_example =
    error_exits_terminate small_windows list_queues x64 idle_threads digits_library list_machines
      no_loop idle_threads-IsJoinable 0 [] fresh_world refl no_options 0 by_two small_file
      could_not_get_file_size fresh_world

session-too_deep_example :
    session small_windows list_queues x64 idle_threads digits_library list_machines no_loop too_deep
      0
      (0 ∷ 1 ∷ [])
      (shared_of 10)
    ≡ none
session-too_deep_example =
    session-too_deep small_windows list_queues x64 idle_threads digits_library list_machines no_loop
      list_queues-IsFifo list_queues-IsResponsive too_deep 0 (0 ∷ 1 ∷ []) (shared_of 10)
      (omega arith) (omega arith) (omega arith) (λ j lt. refl) (omega arith) (omega arith)
