-- ===== src/Tests/Threads.antt =====
-- Cores and thread pools.
use file_read_speed_test.Base.{
  ℕ, suc, ◌%◌, ◌≡◌, refl, Bool, true, false, Option, none, some, ltb, if◌then◌else◌, List, [], ◌∷◌,
  arith,
}
use file_read_speed_test.Words.{uint16_mod}
use file_read_speed_test.Win32.{ProcessorInformation}
use file_read_speed_test.TaskQueue.{TaskThreads, IsJoinable}
use file_read_speed_test.Cores.{
  ProcessorCoreInformation, count_core, count_cores, get_processor_core_information,
}
use file_read_speed_test.Cores.Counting.{count_of, Distinct}
use file_read_speed_test.Cores.Walk.{Tiles, occurrences, count_cores-groups}
use file_read_speed_test.ThreadPool.{no_best, find_best, create_thread_pool}
use file_read_speed_test.ThreadPool.Selection.{
  IsFirstBest, find_best-IsFirstBest, Pool, create_thread_pool-Pool, create_thread_pool-terminates,
}
use file_read_speed_test.Tests.Windows.{SmallWorld, fresh_world, small_windows, core_at}

abbrev three_cores : List ProcessorInformation
three_cores = core_at 0 ∷ core_at 32 ∷ core_at 64 ∷ []

three_cores-Tiles : Tiles core_at 96 0 three_cores
three_cores-Tiles = (
  omega arith,
  refl,
  omega arith,
  omega arith,
  (
    omega arith,
    refl,
    omega arith,
    omega arith,
    (omega arith, refl, omega arith, omega arith, omega arith),
  ),
)

count_cores-groups_example :
    (infos : List ProcessorCoreInformation) × (count_cores small_windows 97 core_at 96 0 []
      ≡ some infos)
    × Distinct infos
    × ((e : ℕ) (h : Bool)
        → count_of e h infos ≡ occurrences small_windows e h three_cores % uint16_mod)
count_cores-groups_example =
    count_cores-groups small_windows three_cores core_at 96 three_cores-Tiles

abbrev two_cores_of_class_1 : ProcessorCoreInformation
two_cores_of_class_1 = record { efficiency_class = 1; count = 2; has_hyperthreading = true }

abbrev one_core_of_class_0 : ProcessorCoreInformation
one_core_of_class_0 = record { efficiency_class = 0; count = 1; has_hyperthreading = false }

get_processor_core_information_run :
    (get_processor_core_information small_windows fresh_world).0
    ≡ some (some (two_cores_of_class_1 ∷ one_core_of_class_0 ∷ []))
unfolding get_processor_core_information count_cores count_core
get_processor_core_information_run = refl

find_best-IsFirstBest_example :
    IsFirstBest
      (one_core_of_class_0 ∷ two_cores_of_class_1 ∷ [])
      (find_best small_windows
        (one_core_of_class_0 ∷ two_cores_of_class_1 ∷ [])
        no_best
        fresh_world).0
find_best-IsFirstBest_example =
    find_best-IsFirstBest small_windows one_core_of_class_0 (two_cores_of_class_1 ∷ []) fresh_world
      (omega arith)

-- Threads are numbers, and none has been joined. The world has room for one thread.
abbrev small_thread : SmallWorld → Option ℕ × SmallWorld
small_thread w =
    if ltb w.clock 1 then (some w.clock, record w { clock = suc w.clock }) else (none, w)

abbrev small_threads : TaskThreads SmallWorld ℕ
small_threads = record {
  Thread = ℕ;
  create_task_queue = λ w. (some w.clock, w);
  destroy_task_queue = λ q w. (tt, w);
  create_task_thread = small_thread;
  task_queue = λ thread. thread;
  join = λ thread w. (thread, w);
  destroy_task_thread = λ thread w. none;
}

small_threads-IsJoinable : IsJoinable small_threads
small_threads-IsJoinable = record { destroy_created = λ w w' thread e. refl }

create_thread_pool-Pool_example :
    Pool small_windows small_threads 1
      (create_thread_pool small_windows small_threads 1 fresh_world)
create_thread_pool-Pool_example = create_thread_pool-Pool small_windows small_threads 1 fresh_world

create_thread_pool-terminates_example :
    create_thread_pool small_windows small_threads 3 fresh_world ≡ none
create_thread_pool-terminates_example =
    create_thread_pool-terminates small_windows small_threads small_threads-IsJoinable 1 fresh_world
      0 refl refl
