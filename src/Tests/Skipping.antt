-- ===== src/Tests/Skipping.antt =====
-- One thread with two reads in flight: it leaves every second context from the number 2 on.
use file_read_speed_test.Base.{◌≡◌, refl, false, some, List, [], ◌∷◌, ◌>>◌, arith}
use file_read_speed_test.Words.{x64}
use file_read_speed_test.FileRead.{IoContext, get_new_read_offset, read}
use file_read_speed_test.ReadTask.{
  OverlappedIoFileReadTask, read_task, Shared, in_world, mark_complete, read_shared, add_task,
  continue_read, run_read_task,
}
use file_read_speed_test.ReadTask.Steps.{next_task, marked, added, has_read}
use file_read_speed_test.EntryPoint.{
  Depths, initial_task, add_initial_tasks, issue_reads, issue_initial_reads,
}
use file_read_speed_test.System.{worker_step, Step, here, and_then, with_queue}
use file_read_speed_test.System.Ready.{IsReadyToStart}
use file_read_speed_test.System.Skipped.{HasStartTime, never_read}
use file_read_speed_test.Tests.Windows.{fresh_world, small_windows}
use file_read_speed_test.Tests.Libraries.{list_queues, list_queues-IsFifo, list_queues-IsResponsive}
use file_read_speed_test.Tests.Files.{context_of}
use file_read_speed_test.Tests.Tasks.{shared_of, completion_of}

abbrev State : Type 0
State = Shared small_windows list_queues

abbrev pub two_in_flight : Depths
two_in_flight = record { buffer_size = 4; queue_depth = 2; thread_count = 1 }

abbrev four_contexts : List IoContext
four_contexts =
    context_of 4 0 655_360
    ∷ context_of 4 4 589_824
    ∷ context_of 4 8 524_288
    ∷ context_of 4 12 458_752
    ∷ []

-- Fourteen bytes, in four contexts.
abbrev pub at_rest : State
at_rest = record (shared_of 14) {
  file_read = record (shared_of 14).file_read { contexts = four_contexts };
}

pub at_rest-IsReady :
    IsReadyToStart small_windows list_queues x64 list_queues-IsFifo two_in_flight at_rest
at_rest-IsReady = record {
  prepared = omega arith;
  ragged = omega arith;
  room = omega arith;
  starts_fit = omega arith;
  interval = omega arith;
  few_threads = omega arith;
  shallow = omega arith;
  few_reads = omega arith;
  all_empty = λ j le. refl;
  none_completed = refl;
  main_open = refl;
  all_open = λ j lt. refl;
}

abbrev pub first_task : OverlappedIoFileReadTask
first_task = initial_task x64 two_in_flight 0 0

abbrev pub timed : State
timed = record (added small_windows list_queues x64 at_rest 0 (read_task first_task)) {
  world = record fresh_world { clock = 1 };
}

abbrev pub started : State
started =
    has_read small_windows list_queues x64
      (has_read small_windows list_queues x64 timed 0 (context_of 4 0 655_360)) 1
      (context_of 4 4 589_824)

starts :
    (add_initial_tasks small_windows list_queues x64 two_in_flight 1 0 0
        >> issue_initial_reads small_windows list_queues x64 two_in_flight)
      at_rest
    ≡ some (tt, started)
unfolding add_initial_tasks issue_reads issue_initial_reads in_world read_shared add_task read
starts = refl

-- The thread reads the context number 2, and will next be past the end.
abbrev pub after_one : State
after_one =
    added small_windows list_queues x64
      (has_read small_windows list_queues x64
        (marked small_windows list_queues x64
          (with_queue small_windows list_queues x64 1 started 0
            (record { items = []; closed = false }))
          0 (record (context_of 4 0 655_360) { request_start_time = 1 }))
        2 (context_of 4 8 524_288))
      0 (read_task (next_task x64 first_task))

one_step : Step small_windows list_queues x64 1 started after_one
unfolding run_read_task mark_complete continue_read in_world read_shared add_task read
    get_new_read_offset
one_step =
    worker_step 0 first_task (record { items = []; closed = false }) (completion_of 0) 0
      (omega arith) refl refl (omega arith) refl

never_read_example :
    HasStartTime small_windows list_queues x64 list_queues-IsFifo two_in_flight
      (omega arith)
      (omega arith)
      3
      0
      after_one
never_read_example =
    never_read small_windows list_queues x64 list_queues-IsFifo two_in_flight (omega arith)
      (omega arith) at_rest started after_one 3 (context_of 4 12 458_752) list_queues-IsResponsive
      at_rest-IsReady (omega arith) (omega arith) refl (omega arith) starts
      (and_then started after_one here one_step)
