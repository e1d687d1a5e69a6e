-- ===== src/Tests/OneThread.antt =====
-- One thread that reads six bytes, from the start to the end.
use file_read_speed_test.Base.{
  ℕ, ◌≡◌, refl, Bool, true, false, none, some, List, [], ◌∷◌, ◌>>◌, if◌then◌else◌, arith,
}
use file_read_speed_test.Words.{x64}
use file_read_speed_test.FileRead.{IoContext, OverlappedIoFileRead, read}
use file_read_speed_test.ReadTask.{
  Task, read_task, new_finished, Shared, update, in_world, mark_complete, read_shared, add_task,
  continue_read, run_read_task, run_finished,
}
use file_read_speed_test.FileRead.{get_new_read_offset}
use file_read_speed_test.ReadTask.Steps.{next_task, last_task, marked, added, has_read}
use file_read_speed_test.EntryPoint.{
  Depths, numbered, add_initial_tasks, issue_reads, issue_initial_reads,
}
use file_read_speed_test.System.{worker_step, main_step, Step, Steps, here, and_then, with_queue}
use file_read_speed_test.System.Ready.{IsReadyToStart}
use file_read_speed_test.FileRead.Preparation.{IsReady}
use file_read_speed_test.EntryPoint.Beginning.{first_shared, HasRoom, first_shared-IsReadyToStart}
use file_read_speed_test.TaskQueue.{TaskThreads, IsDestructible}
use file_read_speed_test.Tests.Windows.{SmallWorld, fresh_world, small_windows}
use file_read_speed_test.Tests.Libraries.{ListQueue, list_queues, list_queues-IsFifo}
use file_read_speed_test.Tests.Files.{context_of}
use file_read_speed_test.Tests.Tasks.{shared_of, task_at, completion_of}

abbrev pub State : Type 0
State = Shared small_windows list_queues

abbrev pub one_at_a_time : Depths
one_at_a_time = record { buffer_size = 4; queue_depth = 1; thread_count = 1 }

abbrev pub queue_of : List Task → ListQueue
queue_of tasks = record { items = tasks; closed = false }

abbrev pub two_contexts : List IoContext
two_contexts = context_of 4 0 655_360 ∷ context_of 4 4 589_824 ∷ []

abbrev pub two_read : OverlappedIoFileRead
two_read = record (shared_of 6).file_read { contexts = two_contexts }

-- Threads that say whether they have been joined, and can only then be destroyed.
abbrev pub joinable_threads : TaskThreads SmallWorld ListQueue
joinable_threads = record {
  Thread = Bool;
  create_task_queue = λ w. (some (queue_of []), w);
  destroy_task_queue = λ u w. (tt, w);
  create_task_thread = λ w. (some false, w);
  task_queue = λ thread. queue_of [];
  join = λ thread w. (true, w);
  destroy_task_thread = λ thread w. if thread then some (tt, w) else none;
}

-- Six bytes, in two contexts.
abbrev pub at_rest : State
at_rest =
    first_shared small_windows list_queues x64 list_queues-IsFifo joinable_threads two_read
      (false ∷ []) (queue_of []) fresh_world

pub six_bytes : HasRoom x64 one_at_a_time 6
six_bytes = record {
  positive = omega arith;
  few = omega arith;
  ragged = omega arith;
  room = omega arith;
  starts_fit = omega arith;
  interval = omega arith;
  few_threads = omega arith;
  shallow = omega arith;
  few_reads = omega arith;
}

pub two_read-IsReady : IsReady 4 6 7 two_read
two_read-IsReady = record {
  has_size = refl;
  has_handle = refl;
  has_port = omega arith;
  has_contexts = refl;
  all_contexts = (
    record {
      at_offset = refl;
      asks_offset = refl;
      asks_low = refl;
      asks_bytes = refl;
      of_file = refl;
      has_buffer = omega arith;
      is_pending = refl;
    },
    (
      record {
        at_offset = refl;
        asks_offset = refl;
        asks_low = refl;
        asks_bytes = refl;
        of_file = refl;
        has_buffer = omega arith;
        is_pending = refl;
      },
      tt,
    ),
  );
}

pub at_rest-IsReady :
    IsReadyToStart small_windows list_queues x64 list_queues-IsFifo one_at_a_time at_rest
at_rest-IsReady =
    first_shared-IsReadyToStart small_windows list_queues x64 list_queues-IsFifo joinable_threads
      one_at_a_time 6 7 two_read (false ∷ []) (queue_of []) fresh_world six_bytes two_read-IsReady
      ((refl, refl), tt) (refl, refl)

abbrev pub given : State
given = added small_windows list_queues x64 at_rest 0 (read_task (task_at 0 0))

abbrev pub timed : State
timed = record given { world = record fresh_world { clock = 1 } }

abbrev pub started : State
started = has_read small_windows list_queues x64 timed 0 (context_of 4 0 655_360)

pub starts :
    (add_initial_tasks small_windows list_queues x64 one_at_a_time 1 0 0
        >> issue_initial_reads small_windows list_queues x64 one_at_a_time)
      at_rest
    ≡ some (tt, started)
unfolding add_initial_tasks issue_reads issue_initial_reads in_world read_shared add_task read
    numbered
starts = refl

abbrev pub popped : State → ℕ → State
popped s j = with_queue small_windows list_queues x64 1 s j (queue_of [])

abbrev pub read_first : IoContext
read_first = record (context_of 4 0 655_360) { request_start_time = 1 }

-- The thread reads the second context.
abbrev pub half_way : State
half_way =
    added small_windows list_queues x64
      (has_read small_windows list_queues x64
        (marked small_windows list_queues x64 (popped started 0) 0 read_first) 1
        (context_of 4 4 589_824))
      0 (read_task (next_task x64 (task_at 0 0)))

unfoldable pub first_step : Step small_windows list_queues x64 1 started half_way
unfolding run_read_task mark_complete continue_read in_world read_shared add_task read numbered
    get_new_read_offset
first_step =
    worker_step 0 (task_at 0 0) (queue_of []) (completion_of 0) 0 (omega arith) refl refl
      (omega arith) refl

abbrev pub read_second : IoContext
read_second = record (context_of 4 4 589_824) { request_start_time = 3 }

-- The thread tells the main queue.
abbrev pub told : State
told =
    added small_windows list_queues x64
      (marked small_windows list_queues x64 (popped half_way 0) 1 read_second) 1
      (last_task (task_at 1 4))

unfoldable pub second_step : Step small_windows list_queues x64 1 half_way told
unfolding run_read_task mark_complete continue_read in_world read_shared add_task read numbered
    get_new_read_offset
second_step =
    worker_step 0 (task_at 1 4) (queue_of []) (completion_of 1) 1 (omega arith) refl refl
      (omega arith) refl

-- The main thread counts it, and shuts its queue down.
abbrev pub ended : State
ended = record (popped told 1) {
  queues = update (popped told 1).queues 1 (record { items = []; closed = true });
  completed_threads = 1;
}

unfoldable pub third_step : Step small_windows list_queues x64 1 told ended
unfolding run_finished numbered
third_step = main_step (new_finished 1 1) (queue_of []) refl refl

abbrev pub all_steps : Steps small_windows list_queues x64 1 started ended
all_steps =
    and_then told ended
      (and_then half_way told (and_then started half_way here first_step) second_step) third_step

pub ended_shut : list_queues.is_shutting_down (ended.queues 1) ≡ true
ended_shut = refl

pub joinable_threads-IsDestructible : IsDestructible joinable_threads
joinable_threads-IsDestructible = record { destroy_joined = λ w w' thread. (w', refl) }
