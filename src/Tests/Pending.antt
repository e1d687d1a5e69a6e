-- ===== src/Tests/Pending.antt =====
-- One thread with two reads in flight: the loop of `main` ends while one of them is pending.
use file_read_speed_test.Base.{ℕ, ◌+◌, ◌≡◌, refl, true, some, List, [], ◌∷◌, length, arith}
use file_read_speed_test.Words.{x64}
use file_read_speed_test.FileRead.{read, get_new_read_offset}
use file_read_speed_test.TaskQueue.{okay}
use file_read_speed_test.ReadTask.{
  read_task, new_finished, update, in_world, mark_complete, read_shared, add_task, continue_read,
  run_read_task, run_finished,
}
use file_read_speed_test.ReadTask.Steps.{next_task, last_task, marked, added, has_read}
use file_read_speed_test.EntryPoint.{add_initial_tasks}
use file_read_speed_test.System.{with_queue}
use file_read_speed_test.System.Flight.{
  Flight, FlightStep, issue_step, thread_step, count_step, FlightSteps, on_ground, flown, take_off,
}
use file_read_speed_test.System.Flight.Landing.{lands_with_pending}
use file_read_speed_test.Tests.Windows.{small_windows}
use file_read_speed_test.Tests.Libraries.{list_queues, list_queues-IsFifo, list_queues-IsResponsive}
use file_read_speed_test.Tests.Files.{context_of}
use file_read_speed_test.Tests.Tasks.{completion_of}
use file_read_speed_test.Tests.OneThread.{State, queue_of}
use file_read_speed_test.Tests.Skipping.{
  two_in_flight, at_rest, at_rest-IsReady, first_task, timed, started, after_one,
}

abbrev given : State
given = added small_windows list_queues x64 at_rest 0 (read_task first_task)

adds :
    add_initial_tasks small_windows list_queues x64 two_in_flight 1 0 0 at_rest ≡ some (okay, given)
unfolding add_initial_tasks add_task
adds = refl

-- One of the two initial reads has been issued.
abbrev one_issued : State
one_issued = has_read small_windows list_queues x64 timed 0 (context_of 4 0 655_360)

abbrev told : State
told =
    added small_windows list_queues x64
      (marked small_windows list_queues x64
        (with_queue small_windows list_queues x64 1 after_one 0 (queue_of [])) 2
        (record (context_of 4 8 524_288) { request_start_time = 4 }))
      1 (last_task first_task)

abbrev ended : State
ended = record (with_queue small_windows list_queues x64 1 told 1 (queue_of [])) {
  queues =
      update (with_queue small_windows list_queues x64 1 told 1 (queue_of [])).queues 1
        (record { items = []; closed = true });
  completed_threads = 1;
}

abbrev flight : State → ℕ → List ℕ → Flight small_windows list_queues
flight s issued pending = record { shared = s; issued = issued; pending = pending; lost = [] }

abbrev OneStep : Flight small_windows list_queues → Flight small_windows list_queues → Type 0
OneStep = FlightStep small_windows list_queues x64 two_in_flight

first : OneStep (take_off small_windows list_queues given) (flight one_issued 1 (0 ∷ []))
unfolding read_shared read
first = issue_step (take_off small_windows list_queues given) one_issued (omega arith) refl

second : OneStep (flight one_issued 1 (0 ∷ [])) (flight started 2 (1 ∷ 0 ∷ []))
unfolding read_shared read
second = issue_step (flight one_issued 1 (0 ∷ [])) started (omega arith) refl

-- The thread is given the first read, and reads the context number 2.
third : OneStep (flight started 2 (1 ∷ 0 ∷ [])) (flight after_one 2 (2 ∷ 1 ∷ []))
unfolding run_read_task mark_complete continue_read in_world read_shared add_task read
    get_new_read_offset
third =
    thread_step (flight started 2 (1 ∷ 0 ∷ [])) after_one 0 first_task (queue_of [])
      (completion_of 0) 0 (1 ∷ []) [] (omega arith) refl refl refl refl

-- It is given that one, and tells the main queue.
fourth : OneStep (flight after_one 2 (2 ∷ 1 ∷ [])) (flight told 2 (1 ∷ []))
unfolding run_read_task mark_complete continue_read in_world read_shared add_task read
    get_new_read_offset
fourth =
    thread_step (flight after_one 2 (2 ∷ 1 ∷ [])) told 0 (next_task x64 first_task) (queue_of [])
      (completion_of 2) 2 [] (1 ∷ []) (omega arith) refl refl refl refl

fifth : OneStep (flight told 2 (1 ∷ [])) (flight ended 2 (1 ∷ []))
unfolding run_finished
fifth =
    count_step (flight told 2 (1 ∷ [])) ended (new_finished 1 1) (queue_of []) (omega arith) refl
      refl

abbrev steps :
    FlightSteps small_windows list_queues x64 two_in_flight
      (take_off small_windows list_queues given)
      (flight ended 2 (1 ∷ []))
steps = flown (flown (flown (flown (flown on_ground first) second) third) fourth) fifth

abbrev left_over : List ℕ
left_over = 1 ∷ []

abbrev nothing : List ℕ
nothing = []

lands_with_pending_example :
    ((flight ended 2 left_over).issued ≡ 2) × (length left_over + length nothing + 1 ≡ 2)
lands_with_pending_example =
    lands_with_pending small_windows list_queues x64 list_queues-IsFifo two_in_flight at_rest given
      (flight ended 2 left_over) (omega arith) list_queues-IsResponsive at_rest-IsReady adds steps
      refl
