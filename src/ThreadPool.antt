-- ===== src/ThreadPool.antt =====
-- Code/ThreadPool.hpp and Code/ThreadPool.cpp. The task threads are those of the
-- library `max`.
pub mod Selection
use file_read_speed_test.Base.{
  ℕ, zero, suc, ◌%◌, ltb, leb, if◌then◌else◌, ◌||◌, Bool, Option, none, some, List, [], ◌∷◌, ◌++◌,
  Exec, ◌>>=◌, ◌>>◌, return, undefined, call,
}
use file_read_speed_test.Words.{uint16_mod}
use file_read_speed_test.Win32.{Win32, cores_line, text_line}
use file_read_speed_test.TaskQueue.{TaskThreads}
use file_read_speed_test.Cores.{ProcessorCoreInformation, get_processor_core_information}

-- `max_efficiency`, the bit pattern of an `int16_t`, and `max_efficiency_core_count`.
pub record Best : Type 0 where
  pub max_efficiency : ℕ
  pub max_efficiency_core_count : ℕ

-- A pattern from 2 ^ 15 on is a negative number, which is below every class.
unfoldable pub is_more_efficient : ℕ → Best → Bool
is_more_efficient efficiency_class b =
    leb 32_768 b.max_efficiency || ltb b.max_efficiency efficiency_class

unfoldable pub improve : ProcessorCoreInformation → Best → Best
unfolding is_more_efficient
improve i b =
    if is_more_efficient i.efficiency_class b
    then record {
      max_efficiency = i.efficiency_class % uint16_mod;
      max_efficiency_core_count = i.count;
    }
    else b

-- -1 and 0.
abbrev pub no_best : Best
no_best = record { max_efficiency = 65_535; max_efficiency_core_count = 0 }

module _ (os : Win32) where
  -- The loop over the groups, which also prints them.
  unfoldable pub find_best : List ProcessorCoreInformation → Best → os.World → Best × os.World
  find_best [] b w = (b, w)
  find_best (i ∷ infos) b w =
      find_best infos (improve i b)
        (os.write_line (cores_line i.count i.efficiency_class i.has_hyperthreading) w).1

  module _ {Queue : Type 0} (t : TaskThreads os.World Queue) where
    unfoldable pub destroy_threads : List t.Thread → Exec os.World (Unit {0})
    destroy_threads [] = return tt
    destroy_threads (thread ∷ threads) = t.destroy_task_thread thread >> destroy_threads threads

    -- The loop of `CreateThreadPool(size_t)`, with the rounds that are left. A thread that cannot be
    -- created ends it, and the vector with the threads before it is destroyed.
    unfoldable pub create_threads : ℕ → List t.Thread → Exec os.World (Option (List t.Thread))
    create_threads zero task_threads = return (some task_threads)
    create_threads (suc rounds) task_threads = do
      task_thread ← call t.create_task_thread
      elim task_thread [
        | none ↦ do destroy_threads task_threads; return none
        | some thread ↦ create_threads rounds (task_threads ++ (thread ∷ []))
      ]

    unfoldable pub create_thread_pool : ℕ → Exec os.World (Option (List t.Thread))
    create_thread_pool thread_count = create_threads thread_count []

    -- `CreateThreadPool()`. The fuel of the walk over the cores is part of the outcome.
    unfoldable pub create_best_thread_pool : Exec os.World (Option (List t.Thread))
    create_best_thread_pool = do
      cores ← call (get_processor_core_information os)
      elim cores [
        | none ↦ undefined
        | some none ↦ do
          call (os.write_line (text_line "Error: Could not find processor information."))
          return none
        | some (some infos) ↦ do
          best ← call (find_best infos no_best)
          create_thread_pool best.max_efficiency_core_count
      ]
