-- ===== src/Tests/Whole.antt =====
-- `main` on a command line, with one thread that reads ten bytes in two buffers.
use file_read_speed_test.Base.{
  All, ◌++◌, ℕ, ◌+◌, ◌<◌, ◌≡◌, refl, true, false, none, some, List, [], ◌∷◌, String, get_elem?, pos,
  ◌>>◌, arith,
}
use file_read_speed_test.Words.{x64}
use file_read_speed_test.Win32.{number_line, file_size_line}
use file_read_speed_test.Allocator.{allocate}
use file_read_speed_test.FileRead.{
  IoContext, OverlappedIoFile, OverlappedIoFileRead, create_overlapped_io_file,
  prepare_to_read_file, prepare_port, prepare_contexts, finish_preparation, create_io_contexts,
  create_contexts_loop, create_completion_port, read, get_new_read_offset,
}
use file_read_speed_test.Handles.{move_construct}
use file_read_speed_test.FileRead.Coverage.{Covers}
use file_read_speed_test.ReadTask.{
  OverlappedIoFileReadTask, read_task, new_finished, Run, update, in_world, mark_complete,
  read_shared, add_task, continue_read, run_read_task, run_finished,
}
use file_read_speed_test.ReadTask.Requests.{IsRequestOf, asked, reads_between}
use file_read_speed_test.ReadTask.Steps.{next_task, last_task, marked, added, has_read}
use file_read_speed_test.CommandLine.{SuccessAction, success_action}
use file_read_speed_test.CommandLine.Grammar.{
  finish, read_flags, command_line_action, flag_of, assign,
}
use file_read_speed_test.ThreadPool.{create_threads, create_thread_pool}
use file_read_speed_test.EntryPoint.{
  initial_task, numbered, add_initial_tasks, issue_reads, issue_initial_reads, choose_thread_pool,
  choose_buffer_size,
}
use file_read_speed_test.EntryPoint.Main.{main}
use file_read_speed_test.EntryPoint.Beginning.{HasRoom, first_shared}
use file_read_speed_test.EntryPoint.Default.{default_depths, clock_told, count_told, depth_told}
use file_read_speed_test.EntryPoint.Whole.{IsServed, main-reads_bytes}
use file_read_speed_test.System.{with_queue}
use file_read_speed_test.System.Reads.{times}
use file_read_speed_test.System.Flight.{
  Flight, FlightStep, thread_step, count_step, FlightSteps, on_ground, flown, all_requests,
  all_reads,
}
use file_read_speed_test.System.Flight.Sequence.{launched}
use file_read_speed_test.Tests.Windows.{SmallWorld, fresh_world, small_windows}
use file_read_speed_test.Tests.Libraries.{
  list_queues, list_queues-IsFifo, list_queues-IsResponsive, digits_library,
  digits_library-IsStrtoull, list_machines, list_machines-IsFirstMatch,
}
use file_read_speed_test.Tests.Files.{context_of}
use file_read_speed_test.Tests.Tasks.{completion_of}
use file_read_speed_test.Tests.OneThread.{
  State, queue_of, joinable_threads, joinable_threads-IsDestructible,
}

abbrev argv : List String
argv = "test.exe" ∷ "-i" ∷ "a.txt" ∷ "--thread_count" ∷ "1" ∷ "--buffer_size" ∷ "8" ∷ []

abbrev action : SuccessAction
action = record {
  file_path = "a.txt";
  buffer_size = some 8;
  thread_count = some 1;
  queue_depth = none;
}

accepted :
    command_line_action digits_library x64 digits_library-IsStrtoull argv ≡ success_action action
unfolding command_line_action finish read_flags flag_of assign digits_library-IsStrtoull
accepted = refl

-- The file when it is opened, and when it has been moved from.
abbrev opened : OverlappedIoFile
opened = record { handle_object = record { handle = 7 }; file_open_time = 1 }

abbrev moved : OverlappedIoFile
moved = record opened { handle_object = record { handle = 0xffff_ffff } }

abbrev first_context : IoContext
first_context = context_of 8 0 655_360

abbrev second_context : IoContext
second_context = context_of 8 8 589_824

abbrev prepared : OverlappedIoFileRead
prepared = record {
  overlapped_io_file = opened;
  completion_port = record { handle = 8 };
  contexts = first_context ∷ second_context ∷ [];
  file_size = 10;
  read_issue_time = 0;
}

abbrev no_loop : ℕ → Run small_windows list_queues (Unit {0})
no_loop main_task_queue s = some (tt, s)

abbrev told_clock : SmallWorld
told_clock =
    clock_told small_windows list_queues x64 joinable_threads digits_library list_machines no_loop
      action fresh_world

abbrev opened_in : SmallWorld
opened_in =
    record (count_told small_windows list_queues x64 joinable_threads digits_library list_machines
      no_loop action 1 told_clock) { clock = 2 }

abbrev sized_in : SmallWorld
sized_in = (small_windows.write_line (number_line "Using supplied buffer size: " 8) opened_in).1

abbrev prepared_in : SmallWorld
prepared_in =
    record (small_windows.write_line (file_size_line 10) (
      depth_told small_windows list_queues x64 joinable_threads digits_library list_machines no_loop
        action 1 sized_in)).1 { memory_left = 8 }

abbrev at_rest : State
at_rest =
    first_shared small_windows list_queues x64 list_queues-IsFifo joinable_threads prepared
      (false ∷ []) (queue_of []) prepared_in

abbrev first_task : OverlappedIoFileReadTask
first_task = initial_task x64 (default_depths 8 1) 0 0

abbrev given : State
given = added small_windows list_queues x64 at_rest 0 (read_task first_task)

abbrev timed : State
timed = record given {
  file_read = record prepared { read_issue_time = 2 };
  world = record prepared_in { clock = 3 };
}

abbrev started : State
started = has_read small_windows list_queues x64 timed 0 first_context

starts :
    (add_initial_tasks small_windows list_queues x64 (default_depths 8 1) 1 0 0
        >> issue_initial_reads small_windows list_queues x64 (default_depths 8 1))
      at_rest
    ≡ some (tt, started)
unfolding add_initial_tasks issue_reads issue_initial_reads in_world read_shared add_task read
    numbered
starts = refl

abbrev popped : State → ℕ → State
popped s j = with_queue small_windows list_queues x64 1 s j (queue_of [])

-- The thread reads the second context, then tells the main queue, which is then shut down.
abbrev half_way : State
half_way =
    added small_windows list_queues x64
      (has_read small_windows list_queues x64
        (marked small_windows list_queues x64 (popped started 0) 0
          (record first_context { request_start_time = 3 }))
        1 second_context)
      0 (read_task (next_task x64 first_task))

abbrev told : State
told =
    added small_windows list_queues x64
      (marked small_windows list_queues x64 (popped half_way 0) 1
        (record second_context { request_start_time = 5 }))
      1 (last_task first_task)

abbrev ended : State
ended = record (popped told 1) {
  queues = update (popped told 1).queues 1 (record { items = []; closed = true });
  completed_threads = 1;
}

abbrev flight : State → List ℕ → Flight small_windows list_queues
flight s pending = record { shared = s; issued = 1; pending = pending; lost = [] }

abbrev OneStep : State → List ℕ → State → List ℕ → Type 0
OneStep s before s' after =
    FlightStep small_windows list_queues x64 (default_depths 8 1) (flight s before)
      (flight s' after)

first : OneStep started (0 ∷ []) half_way (1 ∷ [])
unfolding run_read_task mark_complete continue_read in_world read_shared add_task read numbered
    get_new_read_offset
first =
    thread_step (flight started (0 ∷ [])) half_way 0 first_task (queue_of []) (completion_of 0) 0 []
      [] (omega arith) refl refl refl refl

second : OneStep half_way (1 ∷ []) told []
unfolding run_read_task mark_complete continue_read in_world read_shared add_task read numbered
    get_new_read_offset
second =
    thread_step (flight half_way (1 ∷ [])) told 0 (next_task x64 first_task) (queue_of [])
      (completion_of 1) 1 [] [] (omega arith) refl refl refl refl

third : OneStep told [] ended []
unfolding run_finished numbered
third = count_step (flight told []) ended (new_finished 1 1) (queue_of []) (omega arith) refl refl

abbrev steps :
    FlightSteps small_windows list_queues x64
      (default_depths 8 1)
      (launched small_windows list_queues at_rest started 1)
      (flight ended [])
steps = flown (flown (flown on_ground first) second) third

abbrev loop : ℕ → Run small_windows list_queues (Unit {0})
loop main_task_queue s = some (tt, ended)

has_room : HasRoom x64 (default_depths 8 1) 10
has_room = record {
  positive = omega arith;
  few = omega arith;
  ragged = omega arith;
  room = omega arith;
  starts_fit = omega arith;
  interval = omega arith;
  few_threads = omega arith;
  shallow = omega arith;
  few_reads = omega arith;
}

served :
    IsServed small_windows list_queues x64 list_queues-IsFifo joinable_threads digits_library
      list_machines loop action fresh_world 8
      (false ∷ [])
      opened
      moved
      prepared
      (queue_of [])
      10
      0
      prepared_in
unfolding choose_thread_pool create_thread_pool create_threads create_overlapped_io_file
    choose_buffer_size prepare_to_read_file prepare_port prepare_contexts finish_preparation
    create_io_contexts create_contexts_loop create_completion_port allocate move_construct
served = record {
  before_file = told_clock;
  before_size = opened_in;
  before_depth = sized_in;
  before_queue = prepared_in;
  has_threads = refl;
  has_file = refl;
  has_buffer_size = refl;
  knows_size = refl;
  has_read = refl;
  has_queue = refl;
}

main-reads_bytes_example :
    ((w : SmallWorld) × (main small_windows list_queues x64 joinable_threads digits_library
          list_machines loop argv 0 fresh_world
        ≡ some (pos 0, w)))
    × ((p : ℕ)
        → p < 10
        → (k : ℕ) × (x : IoContext) × (get_elem? ended.file_read.contexts k ≡ some x)
          × Covers x p
          × (x.is_complete ≡ true)
          × (times k (all_reads small_windows list_queues steps)
                + times k (reads_between small_windows list_queues at_rest started)
              ≡ 1)
          × ((i : ℕ) (y : IoContext) → get_elem? prepared.contexts i ≡ some y → Covers y p → i ≡ k))
    × All (IsRequestOf ended.file_read) (
        all_requests small_windows list_queues steps
        ++ asked small_windows prepared_in started.world)
main-reads_bytes_example =
    main-reads_bytes small_windows list_queues x64 list_queues-IsFifo joinable_threads
      digits_library list_machines loop action fresh_world 8 (false ∷ []) opened moved prepared
      (queue_of []) 10 0 prepared_in served digits_library-IsStrtoull argv 0 started
      (flight ended []) list_machines-IsFirstMatch (omega arith) accepted refl
      list_queues-IsResponsive joinable_threads-IsDestructible (omega arith) (omega arith) has_room
      (omega arith) ((refl, refl), tt) (refl, refl) starts refl steps refl
