-- ===== src/Tests/Together.antt =====
-- Steps of the threads together.
use file_read_speed_test.Base.{
  true, ◌↔◌, ℕ, false, zero, suc, ◌≤◌, List, All, ◌≡◌, refl, some, [], ◌∷◌, ◌>>◌, arith,
}
use file_read_speed_test.Words.{x64}
use file_read_speed_test.ReadTask.{Task, read_task, Shared}
use file_read_speed_test.EntryPoint.{Depths, add_initial_tasks, issue_initial_reads}
use file_read_speed_test.System.{world_step, Steps, here, and_then, with_queue}
use file_read_speed_test.System.Invariant.{IsTaskOf, Invariant}
use file_read_speed_test.System.Safety.{IsDefined, popped-IsDefined}
use file_read_speed_test.System.Balance.{IsBalanced}
use file_read_speed_test.System.Counts.{tasks_in}
use file_read_speed_test.System.Shutdown.{IsEven, main_queue_closes}
use file_read_speed_test.System.Ready.{IsReadyToStart}
use file_read_speed_test.System.Launch.{start-Invariant}
use file_read_speed_test.Tests.Windows.{fresh_world, small_windows}
use file_read_speed_test.Tests.Libraries.{
  ListQueue, list_queues, list_queues-IsFifo, list_queues-IsResponsive,
}
use file_read_speed_test.Tests.Tasks.{shared_of, task_at}
use file_read_speed_test.Tests.Start.{by_two}

ready : IsReadyToStart small_windows list_queues x64 list_queues-IsFifo by_two (shared_of 10)
ready = record {
  prepared = omega arith;
  ragged = omega arith;
  room = omega arith;
  starts_fit = omega arith;
  interval = omega arith;
  few_threads = omega arith;
  shallow = omega arith;
  few_reads = omega arith;
  all_empty = λ j le. refl;
  none_completed = refl;
  main_open = refl;
  all_open = λ j lt. refl;
}

start-Invariant_example :
    (s' : Shared small_windows list_queues) × ((add_initial_tasks small_windows list_queues x64
            by_two 2 0 0
          >> issue_initial_reads small_windows list_queues x64 by_two)
        (shared_of 10)
      ≡ some (tt, s'))
    × Invariant small_windows list_queues list_queues-IsFifo by_two s'
    × IsBalanced list_queues list_queues-IsFifo 2 s'.queues s'.completed_threads
start-Invariant_example =
    start-Invariant small_windows list_queues x64 list_queues-IsFifo by_two list_queues-IsResponsive
      (shared_of 10) ready

-- One thread, whose queue has one task, in front of the last buffer.
abbrev one_thread : Depths
one_thread = record { buffer_size = 4; queue_depth = 1; thread_count = 1 }

abbrev queue_of : List Task → ListQueue
queue_of tasks = record { items = tasks; closed = false }

abbrev queues_from : List Task → ℕ → ListQueue
queues_from tasks zero = queue_of tasks
queues_from tasks (suc j) = queue_of []

abbrev busy : Shared small_windows list_queues
busy = record (shared_of 10) { queues = queues_from (read_task (task_at 1 4) ∷ []) }

busy-All : (j : ℕ) → j ≤ 1 → All (IsTaskOf one_thread j) (list_queues-IsFifo.tasks (busy.queues j))
busy-All zero le = (
  (
    omega arith,
    record {
      aligned = omega arith;
      depth = refl;
      count = refl;
      own_queue = refl;
      main_queue = refl;
      fits = omega arith;
    },
  ),
  tt,
)
busy-All (suc zero) le = tt
busy-All (suc (suc j)) le = absurd (omega arith)

busy-Invariant : Invariant small_windows list_queues list_queues-IsFifo one_thread busy
busy-Invariant = record {
  prepared = omega arith;
  ragged = omega arith;
  room = omega arith;
  all_tasks = busy-All;
}

-- The clock ticks, and then the task is popped.
abbrev later : Shared small_windows list_queues
later = record busy { world = record fresh_world { clock = 5 } }

clock_ticks : Steps small_windows list_queues x64 1 busy later
clock_ticks = and_then busy later here (world_step (record fresh_world { clock = 5 }) refl)

popped-IsDefined_example :
    IsDefined small_windows list_queues x64 list_queues-IsFifo one_thread
      (read_task (task_at 1 4))
      (with_queue small_windows list_queues x64 1 later 0 (queue_of []))
popped-IsDefined_example =
    popped-IsDefined small_windows list_queues x64 list_queues-IsFifo one_thread busy later 0
      (read_task (task_at 1 4)) (queue_of []) busy-Invariant clock_ticks (omega arith) refl

busy-open : (j : ℕ) → list_queues.is_shutting_down (busy.queues j) ≡ false
busy-open zero = refl
busy-open (suc j) = refl

busy-IsEven : IsEven small_windows list_queues x64 list_queues-IsFifo one_thread (omega arith) busy
busy-IsEven = record {
  balance = refl;
  workers_open = λ j lt. busy-open j;
  main_open = λ early. busy-open 1;
  main_closed = λ some_thread all. absurd (omega arith);
}

main_queue_closes_example :
    (list_queues.is_shutting_down (later.queues 1) ≡ true)
    ↔ ((j : ℕ) → j ≤ 1 → tasks_in list_queues list_queues-IsFifo later.queues j ≡ 0)
main_queue_closes_example =
    main_queue_closes small_windows list_queues x64 list_queues-IsFifo one_thread (omega arith) busy
      later (omega arith) busy-Invariant busy-IsEven clock_ticks
