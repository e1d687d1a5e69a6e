-- ===== src/Tests/Schedules.antt =====
-- What is proved of schedules, at whole schedules of one thread.
use file_read_speed_test.Base.{ℕ, ◌≡◌, refl, Bool, false, some, List, [], ◌∷◌, pos, arith}
use file_read_speed_test.Words.{x64}
use file_read_speed_test.ReadTask.{Run}
use file_read_speed_test.FileRead.{get_new_read_offset}
use file_read_speed_test.System.Work.{runs_in}
use file_read_speed_test.System.Reads.{first_reads, reads_of, reads_after}
use file_read_speed_test.EntryPoint.Main.{session}
use file_read_speed_test.EntryPoint.Sessions.{HasEnded, session-HasEnded}
use file_read_speed_test.Tests.Windows.{SmallWorld, small_windows}
use file_read_speed_test.Tests.Libraries.{
  list_queues, list_queues-IsFifo, list_queues-IsResponsive, digits_library, list_machines,
}
use file_read_speed_test.Tests.OneThread.{
  State, one_at_a_time, joinable_threads, at_rest, at_rest-IsReady, started, starts, first_step,
  second_step, ended, third_step, all_steps, ended_shut,
}

reads_run : reads_after (first_reads 1) all_steps ≡ 1 ∷ 0 ∷ []
unfolding first_step second_step third_step reads_of get_new_read_offset
reads_run = refl

runs_run : runs_in all_steps ≡ 3
unfolding first_step second_step third_step
runs_run = refl

-- A loop over the main queue in which the thread takes these steps.
abbrev pub loop : ℕ → Run small_windows list_queues (Unit {0})
loop main_task_queue s = some (tt, ended)

session-HasEnded_example :
    (joined : List Bool) × (w : SmallWorld) × (s' : State) × (session small_windows list_queues x64
        joinable_threads digits_library list_machines loop one_at_a_time 0
        (false ∷ [])
        at_rest
      ≡ some ((pos 0, joined), s'))
    × HasEnded small_windows list_queues x64 list_queues-IsFifo joinable_threads digits_library
        list_machines loop one_at_a_time 0
        (false ∷ [])
        ended
        s'
        joined
        w
session-HasEnded_example =
    session-HasEnded small_windows list_queues x64 list_queues-IsFifo joinable_threads
      digits_library list_machines loop one_at_a_time 0 (false ∷ []) at_rest started ended
      list_queues-IsResponsive (omega arith) at_rest-IsReady starts refl all_steps ended_shut
