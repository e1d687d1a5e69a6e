-- ===== src/TaskQueue.antt =====
-- The task queues of the library `max` (Dependencies/max/Hardware/CPU), which the program only
-- calls: an interface over an unknown `Queue`, and what the program relies on.
use file_read_speed_test.Base.{
  Bool, true, false, Option, none, some, List, [], ◌∷◌, ◌++◌, Exec, ◌≡◌, ◌≢◌, ◌⊎◌,
}

pub data AddTaskError : Type 0 where
  okay shutting_down could_not_set_event : AddTaskError

pub record TaskQueues (Task : Type 0) : Type 1 where
  pub Queue : Type 0
  pub add_task : Task → Queue → AddTaskError × Queue
  pub try_pop_task : Queue → Option Task × Queue
  pub shutdown : Queue → Queue
  pub is_shutting_down : Queue → Bool

-- A queue gives its tasks back first in, first out. It takes a task unless it is shutting down,
-- whether or not its event can be set. `try_pop_task` may also fail on a queue with tasks.
pub record IsFifo {Task : Type 0} (q : TaskQueues Task) : Type 0 where
  pub tasks : q.Queue → List Task
  pub add_task_open :
      (t : Task) (s : q.Queue)
      → q.is_shutting_down s ≡ false
      → (tasks (q.add_task t s).1 ≡ tasks s ++ (t ∷ []))
        × (q.is_shutting_down (q.add_task t s).1 ≡ false)
  pub add_task_closed :
      (t : Task) (s : q.Queue) → q.is_shutting_down s ≡ true → q.add_task t s ≡ (shutting_down, s)
  pub try_pop_task_lem :
      (s : q.Queue)
      → (q.is_shutting_down (q.try_pop_task s).1 ≡ q.is_shutting_down s)
        × ((((q.try_pop_task s).0 ≡ none) × (tasks (q.try_pop_task s).1 ≡ tasks s))
            ⊎ ((t : Task) × ((q.try_pop_task s).0 ≡ some t)
                × (tasks s ≡ t ∷ tasks (q.try_pop_task s).1)))
  pub shutdown_lem :
      (s : q.Queue) → (q.is_shutting_down (q.shutdown s) ≡ true) × (tasks (q.shutdown s) ≡ tasks s)

-- The event of a queue can be set: a queue that is not shutting down takes every task with success.
pub record IsResponsive {Task : Type 0} (q : TaskQueues Task) : Type 0 where
  pub add_task_okay :
      (t : Task) (s : q.Queue) → q.is_shutting_down s ≡ false → (q.add_task t s).0 ≡ okay

-- A queue gives a task whenever it has one.
pub record IsPrompt {Task : Type 0} (q : TaskQueues Task) (fifo : IsFifo q) : Type 0 where
  pub pops : (s : q.Queue) → fifo.tasks s ≢ [] → (t : Task) × ((q.try_pop_task s).0 ≡ some t)

-- The threads of the library, over the world `W`. The threads are `std::thread`s: `none` is the
-- termination of the program.
pub record TaskThreads (W Queue : Type 0) : Type 1 where
  pub Thread : Type 0
  pub create_task_queue : W → Option Queue × W
  pub destroy_task_queue : Queue → W → Unit {0} × W
  pub create_task_thread : W → Option Thread × W
  pub task_queue : Thread → Queue
  pub join : Thread → W → Thread × W
  pub destroy_task_thread : Thread → Exec W (Unit {0})

-- A thread that has not been joined cannot be destroyed: the program is terminated.
pub record IsJoinable {W Queue : Type 0} (t : TaskThreads W Queue) : Type 0 where
  pub destroy_created :
      (w w' : W) (thread : t.Thread)
      → (t.create_task_thread w).0 ≡ some thread
      → t.destroy_task_thread thread w' ≡ none

-- A thread that has been joined can be destroyed.
pub record IsDestructible {W Queue : Type 0} (t : TaskThreads W Queue) : Type 0 where
  pub destroy_joined :
      (w w' : W) (thread : t.Thread)
      → (w'' : W) × (t.destroy_task_thread (t.join thread w).0 w' ≡ some (tt, w''))
