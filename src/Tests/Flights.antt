-- ===== src/Tests/Flights.antt =====
-- One thread that reads six bytes, with the reads that are in flight.
use file_read_speed_test.Base.{
  All, ◌++◌, ℕ, ◌+◌, ◌*◌, ◌<◌, ◌≤◌, ◌≡◌, refl, Bool, true, false, some, List, [], ◌∷◌, ltb,
  if◌then◌else◌, get_elem?, pos, arith,
}
use file_read_speed_test.Words.{x64}
use file_read_speed_test.FileRead.{IoContext, expected, read, get_new_read_offset}
use file_read_speed_test.FileRead.Coverage.{Covers}
use file_read_speed_test.TaskQueue.{okay}
use file_read_speed_test.ReadTask.{
  new_finished, in_world, mark_complete, read_shared, add_task, continue_read, run_read_task,
  run_finished,
}
use file_read_speed_test.EntryPoint.{numbered, add_initial_tasks, issue_reads, issue_initial_reads}
use file_read_speed_test.EntryPoint.Main.{session, with_preparation}
use file_read_speed_test.EntryPoint.Sessions.{HasEnded}
use file_read_speed_test.EntryPoint.Reported.{session-reports_all}
use file_read_speed_test.EntryPoint.Bytes.{every_byte_is_read}
use file_read_speed_test.System.Counts.{sum}
use file_read_speed_test.System.Reads.{times}
use file_read_speed_test.System.Visits.{visits}
use file_read_speed_test.System.Flight.{
  Flight, FlightStep, issue_step, thread_step, count_step, FlightSteps, on_ground, flown, take_off,
  acts_in, all_requests, all_reads,
}
use file_read_speed_test.System.Flight.Reading.{IsComplete}
use file_read_speed_test.System.Flight.Return.{always_lands, all_read_in_the_end}
use file_read_speed_test.System.Flight.Requesting.{requests_are_of_contexts}
use file_read_speed_test.ReadTask.Requests.{IsRequestOf, asked, reads_between}
use file_read_speed_test.System.Flight.Termination.{acts_are_bounded}
use file_read_speed_test.System.Flight.Arrival.{reads_on_landing, contexts_on_landing}
use file_read_speed_test.System.Flight.Sequence.{all_pending, issue_initial_reads-FlightSteps}
use file_read_speed_test.Tests.Windows.{SmallWorld, fresh_world, small_windows}
use file_read_speed_test.Tests.Libraries.{
  list_queues, list_queues-IsFifo, list_queues-IsPrompt, list_queues-IsResponsive, digits_library,
  list_machines,
}
use file_read_speed_test.Tests.Files.{small_file}
use file_read_speed_test.Tests.Tasks.{task_at, completion_of}
use file_read_speed_test.Tests.OneThread.{
  joinable_threads-IsDestructible, State, one_at_a_time, queue_of, two_read, joinable_threads,
  at_rest, six_bytes, two_read-IsReady, at_rest-IsReady, given, started, starts, half_way, told,
  ended, ended_shut,
}
use file_read_speed_test.Tests.Schedules.{loop}

abbrev Small : Type 0
Small = Flight small_windows list_queues

abbrev flight : State → List ℕ → Small
flight s pending = record { shared = s; issued = 1; pending = pending; lost = [] }

adds :
    add_initial_tasks small_windows list_queues x64 one_at_a_time 1 0 0 at_rest ≡ some (okay, given)
unfolding add_initial_tasks add_task numbered
adds = refl

abbrev OneFlight : Small → Small → Type 0
OneFlight = FlightSteps small_windows list_queues x64 one_at_a_time

abbrev OneStep : Small → Small → Type 0
OneStep = FlightStep small_windows list_queues x64 one_at_a_time

-- `main` issues its read, the thread completes it and reads the second context, completes that one
-- and tells the main queue, and `main` counts the message.
first : OneStep (take_off small_windows list_queues given) (flight started (0 ∷ []))
unfolding read_shared read
first = issue_step (take_off small_windows list_queues given) started (omega arith) refl

second : OneStep (flight started (0 ∷ [])) (flight half_way (1 ∷ []))
unfolding run_read_task mark_complete continue_read in_world read_shared add_task read numbered
    get_new_read_offset
second =
    thread_step (flight started (0 ∷ [])) half_way 0 (task_at 0 0) (queue_of []) (completion_of 0) 0
      [] [] (omega arith) refl refl refl refl

third : OneStep (flight half_way (1 ∷ [])) (flight told [])
unfolding run_read_task mark_complete continue_read in_world read_shared add_task read numbered
    get_new_read_offset
third =
    thread_step (flight half_way (1 ∷ [])) told 0 (task_at 1 4) (queue_of []) (completion_of 1) 1 []
      [] (omega arith) refl refl refl refl

fourth : OneStep (flight told []) (flight ended [])
unfolding run_finished numbered
fourth = count_step (flight told []) ended (new_finished 1 1) (queue_of []) (omega arith) refl refl

abbrev after_start : OneFlight (flight started (0 ∷ [])) (flight ended [])
after_start = flown (flown (flown on_ground second) third) fourth

abbrev whole : OneFlight (take_off small_windows list_queues given) (flight ended [])
whole = flown (flown (flown (flown on_ground first) second) third) fourth

abbrev half : OneFlight (take_off small_windows list_queues given) (flight half_way (1 ∷ []))
half = flown (flown on_ground first) second

abbrev nothing : List ℕ
nothing = []

always_lands_example :
    (c : Small) × OneFlight (flight half_way (1 ∷ [])) c
    × (list_queues.is_shutting_down (c.shared.queues 1) ≡ true)
always_lands_example =
    always_lands small_windows list_queues x64 list_queues-IsFifo one_at_a_time at_rest given
      (flight half_way (1 ∷ [])) (omega arith) (omega arith) list_queues-IsResponsive
      list_queues-IsPrompt at_rest-IsReady adds half

all_read_in_the_end_example :
    (c : Small) × (later : OneFlight (flight half_way (1 ∷ [])) c) × (list_queues.is_shutting_down
        (c.shared.queues 1)
      ≡ true)
    × (c.pending ≡ nothing)
    × ((k : ℕ)
        → k < 2
        → (times k (all_reads small_windows list_queues later)
              + times k (all_reads small_windows list_queues half)
            ≡ 1)
          × IsComplete k c.shared.file_read.contexts)
all_read_in_the_end_example =
    all_read_in_the_end small_windows list_queues x64 list_queues-IsFifo one_at_a_time at_rest given
      (flight half_way (1 ∷ [])) refl (omega arith) refl list_queues-IsResponsive
      list_queues-IsPrompt at_rest-IsReady adds half

acts_are_bounded_example : acts_in small_windows list_queues whole ≤ 1 * (2 + 2) + 1
acts_are_bounded_example =
    acts_are_bounded small_windows list_queues x64 list_queues-IsFifo one_at_a_time at_rest given
      (flight ended []) (omega arith) list_queues-IsResponsive at_rest-IsReady adds whole

reads_on_landing_example :
    times 1 (all_reads small_windows list_queues whole)
    ≡ (if ltb 1 1 then 1 else 0) + (if ltb 1 2 then sum (visits 1 1) 1 else 0)
reads_on_landing_example =
    reads_on_landing small_windows list_queues x64 list_queues-IsFifo one_at_a_time at_rest given
      (flight ended []) 1 (omega arith) list_queues-IsResponsive at_rest-IsReady adds whole
      ended_shut

contexts_on_landing_example :
    (nothing ≡ [])
    × (nothing ≡ [])
    × ((k : ℕ)
        → k < 2
        → (times k (all_reads small_windows list_queues whole) ≡ 1)
          × IsComplete k ended.file_read.contexts)
contexts_on_landing_example =
    contexts_on_landing small_windows list_queues x64 list_queues-IsFifo one_at_a_time at_rest given
      (flight ended []) refl (omega arith) list_queues-IsResponsive at_rest-IsReady adds whole
      ended_shut

requests_are_of_contexts_example :
    All (IsRequestOf ended.file_read) (all_requests small_windows list_queues whole)
requests_are_of_contexts_example =
    requests_are_of_contexts small_windows list_queues x64 list_queues-IsFifo one_at_a_time at_rest
      given (flight ended []) list_queues-IsResponsive at_rest-IsReady adds whole

issues : issue_initial_reads small_windows list_queues x64 one_at_a_time given ≡ some (tt, started)
unfolding issue_reads issue_initial_reads in_world read_shared read
issues = refl

issue_initial_reads-FlightSteps_example :
    OneFlight
      (take_off small_windows list_queues given)
      (all_pending small_windows list_queues started 1)
issue_initial_reads-FlightSteps_example =
    issue_initial_reads-FlightSteps small_windows list_queues x64 one_at_a_time (omega arith) given
      started issues

session-reports_all_example :
    ((joined : List Bool) × (w : SmallWorld) × (s' : State) × (session small_windows list_queues x64
          joinable_threads digits_library list_machines loop one_at_a_time 0
          (false ∷ [])
          at_rest
        ≡ some ((pos 0, joined), s'))
      × HasEnded small_windows list_queues x64 list_queues-IsFifo joinable_threads digits_library
          list_machines loop one_at_a_time 0
          (false ∷ [])
          ended
          s'
          joined
          w)
    × (nothing ≡ [])
    × (nothing ≡ [])
    × ((k : ℕ)
        → k < 2
        → (times k (all_reads small_windows list_queues after_start)
              + times k (reads_between small_windows list_queues at_rest started)
            ≡ 1)
          × IsComplete k ended.file_read.contexts)
session-reports_all_example =
    session-reports_all small_windows list_queues x64 list_queues-IsFifo one_at_a_time
      joinable_threads digits_library list_machines loop 0 (false ∷ []) at_rest started
      (flight ended []) refl (omega arith) list_queues-IsResponsive at_rest-IsReady starts refl
      after_start ended_shut

every_byte_is_read_example :
    ((w' : SmallWorld) × (with_preparation small_windows list_queues x64 joinable_threads
          digits_library list_machines loop one_at_a_time 0
          (false ∷ [])
          (expected two_read, small_file)
          fresh_world
        ≡ some (pos 0, w')))
    × ((p : ℕ)
        → p < 6
        → (k : ℕ) × (x : IoContext) × (get_elem? ended.file_read.contexts k ≡ some x)
          × Covers x p
          × (x.is_complete ≡ true)
          × (times k (all_reads small_windows list_queues after_start)
                + times k (reads_between small_windows list_queues at_rest started)
              ≡ 1)
          × ((i : ℕ) (y : IoContext) → get_elem? two_read.contexts i ≡ some y → Covers y p → i ≡ k))
    × All (IsRequestOf ended.file_read) (
        all_requests small_windows list_queues after_start
        ++ asked small_windows fresh_world started.world)
every_byte_is_read_example =
    every_byte_is_read small_windows list_queues x64 list_queues-IsFifo one_at_a_time
      joinable_threads digits_library list_machines loop 6 7 0 two_read (false ∷ []) small_file
      (queue_of []) fresh_world fresh_world started (flight ended []) list_queues-IsResponsive
      joinable_threads-IsDestructible refl refl (omega arith) six_bytes (omega arith)
      two_read-IsReady ((refl, refl), tt) (refl, refl) refl starts refl after_start ended_shut
