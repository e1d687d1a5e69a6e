-- ===== src/Tests/Tasks.antt =====
-- Runs of tasks.
use file_read_speed_test.Base.{ℕ, ◌≡◌, refl, true, false, none, some, [], get_elem?, arith}
use file_read_speed_test.Words.{x64}
use file_read_speed_test.Win32.{Completion}
use file_read_speed_test.FileRead.{IoContext}
use file_read_speed_test.ReadTask.{OverlappedIoFileReadTask, read_task, Shared, run_read_task}
use file_read_speed_test.ReadTask.Steps.{next_task, marked, added, has_read}
use file_read_speed_test.ReadTask.Chain.{IsAligned, run_read_task-IsAligned, run_read_task_at_end}
use file_read_speed_test.Tests.Windows.{fresh_world, small_windows}
use file_read_speed_test.Tests.Libraries.{list_queues}
use file_read_speed_test.Tests.Files.{small_file, context_of, three_contexts}

-- A file of some size with three contexts, read by one thread; queue 1 is the main queue.
abbrev pub shared_of : ℕ → Shared small_windows list_queues
shared_of size = record {
  file_read = record {
    overlapped_io_file = small_file;
    completion_port = record { handle = 8 };
    contexts = three_contexts;
    file_size = size;
    read_issue_time = 0;
  };
  queues = λ i. record { items = []; closed = false };
  completed_threads = 0;
  world = fresh_world;
}

abbrev pub task_at : ℕ → ℕ → OverlappedIoFileReadTask
task_at index start = record {
  current_read_start = start;
  buffer_interval_in_bytes = 4;
  context_index = index;
  thread_count = 1;
  queue_depth = 1;
  task_queue = 0;
  main_task_queue = 1;
}

abbrev pub completion_of : ℕ → Completion
completion_of k = record { result = true; completion_key = 0; context = some k }

run_read_task-IsAligned_example :
    (d : IoContext) × (get_elem?
        (marked small_windows list_queues x64
          (shared_of 10)
          0
          (context_of 4 0 655_360)).file_read.contexts
        1
      ≡ some d)
    × (run_read_task small_windows list_queues x64 (task_at 0 0) (completion_of 0) (shared_of 10)
        ≡ some (
          tt,
          added small_windows list_queues x64
              (has_read small_windows list_queues x64
                (marked small_windows list_queues x64 (shared_of 10) 0 (context_of 4 0 655_360))
                1
                d)
              0
              (read_task (next_task x64 (task_at 0 0))),
        ))
    × IsAligned 4 (next_task x64 (task_at 0 0))
run_read_task-IsAligned_example =
    run_read_task-IsAligned small_windows list_queues x64 4 (task_at 0 0) (shared_of 10)
      (completion_of 0) 0 (context_of 4 0 655_360) (omega arith) (omega arith) refl refl
      (omega arith)

run_read_task_at_end_example :
    run_read_task small_windows list_queues x64 (task_at 2 8) (completion_of 2) (shared_of 12)
    ≡ none
run_read_task_at_end_example =
    run_read_task_at_end small_windows list_queues x64 4 (task_at 2 8) (shared_of 12)
      (completion_of 2) 2 (context_of 4 8 524_288) (omega arith) (omega arith) refl refl
      (omega arith)
