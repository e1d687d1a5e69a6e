-- ===== src/Tests/Closing.antt =====
-- Handles that are moved, contexts that are waited for, and results that are printed.
use file_read_speed_test.Base.{
  ◌≡◌, refl, true, some, none, List, [], ◌∷◌, ◌>>◌, length, get_elem?, arith,
}
use file_read_speed_test.Win32.{Completion}
use file_read_speed_test.Handles.{
  destroy, move_construct, move_assign, move_construct-destroy, move_assign-destroy,
}
use file_read_speed_test.FileRead.{IoContext, OverlappedIoFileRead, print_results}
use file_read_speed_test.FileRead.Printing.{
  run_effects, report, freed, frees_of, live_buffers, print_results_frees_once,
}
use file_read_speed_test.FileRead.Waiting.{wait_for_threads_to_finish, slept, waits_until_done}
use file_read_speed_test.FileRead.Worker.{worker_thread, IsTold, worker_thread_returns}
use file_read_speed_test.Tests.Windows.{SmallWorld, fresh_world, small_windows}
use file_read_speed_test.Tests.Files.{context_of, small_file, three_contexts}
use file_read_speed_test.Tests.Tasks.{completion_of}

move_construct-destroy_example :
    ((destroy small_windows (move_construct small_windows (record { handle = 7 })).0
          >> destroy small_windows (move_construct small_windows (record { handle = 7 })).1)
        fresh_world
      ≡ destroy small_windows (record { handle = 7 }) fresh_world)
    × ((destroy small_windows (move_construct small_windows (record { handle = 7 })).1
            >> destroy small_windows (move_construct small_windows (record { handle = 7 })).0)
          fresh_world
        ≡ destroy small_windows (record { handle = 7 }) fresh_world)
move_construct-destroy_example =
    move_construct-destroy small_windows (record { handle = 7 }) fresh_world

move_assign-destroy_example :
    (destroy small_windows
          (move_assign small_windows (record { handle = 5 }) (record { handle = 7 })).0
        >> destroy small_windows
            (move_assign small_windows (record { handle = 5 }) (record { handle = 7 })).1)
      fresh_world
    ≡ destroy small_windows (record { handle = 7 }) fresh_world
move_assign-destroy_example =
    move_assign-destroy small_windows (record { handle = 5 }) (record { handle = 7 }) fresh_world

abbrev three_read : OverlappedIoFileRead
three_read = record {
  overlapped_io_file = small_file;
  completion_port = record { handle = 8 };
  contexts = three_contexts;
  file_size = 10;
  read_issue_time = 0;
}

print_results_frees_once_example :
    (print_results small_windows 0 three_read fresh_world
      ≡ some (freed three_read, run_effects small_windows (report 0 three_read) fresh_world))
    × (frees_of (report 0 three_read) ≡ live_buffers three_contexts)
    × (frees_of (report 0 (freed three_read)) ≡ [])
print_results_frees_once_example = print_results_frees_once small_windows 0 three_read fresh_world

abbrev one_complete : List IoContext
one_complete = record (context_of 4 0 655_360) { is_complete = true } ∷ []

abbrev one_pending : List IoContext
one_pending = context_of 4 0 655_360 ∷ []

waits_until_done_example :
    wait_for_threads_to_finish small_windows 0 three_read
      (one_pending ∷ one_complete ∷ [])
      fresh_world
    ≡ some (
      some (freed (record three_read { contexts = one_complete })),
      run_effects small_windows
          (report 0 (record three_read { contexts = one_complete }))
          (slept small_windows 2 fresh_world),
    )
waits_until_done_example =
    waits_until_done small_windows 0 three_read (one_pending ∷ []) one_complete [] fresh_world
      ((0, context_of 4 0 655_360, refl, refl), tt) (refl, tt)

abbrev signal : Completion
signal = record { result = true; completion_key = 0; context = none }

worker_thread_returns_example :
    (contexts' : List IoContext) × (w' : SmallWorld) × (worker_thread small_windows
        (completion_of 1 ∷ signal ∷ [])
        three_contexts
        fresh_world
      ≡ some ((some 0, contexts'), w'))
    × (length contexts' ≡ 3)
    × IsTold true (context_of 4 4 589_824) (get_elem? contexts' 1)
worker_thread_returns_example =
    worker_thread_returns small_windows (completion_of 1 ∷ []) signal [] three_contexts fresh_world
      1 (context_of 4 4 589_824) refl ((1, refl, omega arith), tt) refl
