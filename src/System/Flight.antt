-- ===== src/System/Flight.antt =====
-- The threads together with the reads that are in flight: Code/EntryPoint.cpp issues the initial
-- reads while the tasks of Code/OverlappedIOFileReadTask.cpp already run, and the completion port
-- gives each read that was asked for to one wait.
pub mod Reading
pub mod Handing
pub mod Asking
pub mod Flying
pub mod Safety
pub mod Launch
pub mod Landing
pub mod Progress
pub mod Termination
pub mod Following
pub mod Marking
pub mod Keeping
pub mod Completing
pub mod Arrival
pub mod Sequence
pub mod Requesting
pub mod Return
use file_read_speed_test.Base.{
  ℕ, ◌+◌, ◌<◌, ◌≤◌, ◌≡◌, some, List, [], ◌∷◌, ◌++◌, if◌then◌else◌, ◌==◌,
}
use file_read_speed_test.Words.{Platform}
use file_read_speed_test.Win32.{Win32, ReadRequest, Completion}
use file_read_speed_test.TaskQueue.{TaskQueues}
use file_read_speed_test.ReadTask.{
  OverlappedIoFileReadTask, Finished, Task, read_task, finished_task, Shared, read_shared,
  run_read_task, run_finished,
}
use file_read_speed_test.EntryPoint.{Depths}
use file_read_speed_test.System.{with_queue}
use file_read_speed_test.ReadTask.Requests.{contexts_of, asked, reads_between}

-- The shared objects, the number of initial reads that `main` has issued, the contexts that
-- `ReadFile` was asked to read and that no wait has been given yet, and those that no wait will be given: Windows has
-- refused the read, which `Read` does not tell, or never completes it.
pub record Flight (os : Win32) (q : TaskQueues Task) : Type 0 where
  pub shared : Shared os q
  pub issued : ℕ
  pub pending : List ℕ
  pub lost : List ℕ

module _ (os : Win32) (q : TaskQueues Task) where
  -- `read_issue_time_` is set, and nothing has been read yet.
  abbrev pub take_off : Shared os q → Flight os q
  take_off s = record {
    shared = record s {
      file_read = record s.file_read { read_issue_time = (os.now s.world).0 };
      world = (os.now s.world).1;
    };
    issued = 0;
    pending = [];
    lost = [];
  }

  module _ (platform : Platform) (d : Depths) where
    -- Each step that runs code adds to the pending reads what `ReadFile` was given in it.
    -- One step: `main` issues the next initial read; a thread pops a task of its queue and runs it
    -- on the completion of a pending read, which is no longer pending then; `main` has issued its
    -- reads, pops a task of the main queue and runs it; a pending read is lost; or the world goes on.
    pub data FlightStep : Flight os q → Flight os q → Type 0 where
      issue_step :
          (a : Flight os q) (s : Shared os q)
          → a.issued < d.queue_depth
          → read_shared os q a.issued a.shared ≡ some (tt, s)
          → FlightStep a (record {
            shared = s;
            issued = a.issued + 1;
            pending = reads_between os q a.shared s ++ a.pending;
            lost = a.lost;
          })
      thread_step :
          (a : Flight os q) (s : Shared os q) (j : ℕ) (t : OverlappedIoFileReadTask) (u : q.Queue)
          (completion : Completion) (k : ℕ) (before after : List ℕ)
          → j < d.thread_count
          → q.try_pop_task (a.shared.queues j) ≡ (some (read_task t), u)
          → completion.context ≡ some k
          → a.pending ≡ before ++ (k ∷ after)
          → run_read_task os q platform t completion
              (with_queue os q platform d.thread_count a.shared j u)
            ≡ some (tt, s)
          → FlightStep a (record a {
            shared = s;
            pending = reads_between os q a.shared s ++ (before ++ after);
          })
      count_step :
          (a : Flight os q) (s : Shared os q) (f : Finished) (u : q.Queue)
          → d.queue_depth ≤ a.issued
          → q.try_pop_task (a.shared.queues d.thread_count) ≡ (some (finished_task f), u)
          → run_finished os q platform f
              (with_queue os q platform d.thread_count a.shared d.thread_count u)
            ≡ some (tt, s)
          → FlightStep a
              (record a { shared = s; pending = reads_between os q a.shared s ++ a.pending })
      lose_step :
          (a : Flight os q) (k : ℕ) (before after : List ℕ)
          → a.pending ≡ before ++ (k ∷ after)
          → FlightStep a (record a { pending = before ++ after; lost = k ∷ a.lost })
      other_step :
          (a : Flight os q) (w : os.World)
          → FlightStep a (record a { shared = record a.shared { world = w } })

    -- Any number of steps.
    pub data FlightSteps (a : Flight os q) : Flight os q → Type 0 where
      on_ground : FlightSteps a a
      flown : {b c : Flight os q} → FlightSteps a b → FlightStep b c → FlightSteps a c

  module _ {platform : Platform} {d : Depths} where
    -- 1 for a step that issues a read or runs a task, 0 for one of the world.
    abbrev pub acts : {a b : Flight os q} → FlightStep platform d a b → ℕ
    acts (issue_step a s early reads) = 1
    acts (thread_step a s j t u completion k before after lt popped points given runs) = 1
    acts (count_step a s f u late popped runs) = 1
    acts (lose_step a k before after given) = 0
    acts (other_step a w) = 0

    abbrev pub acts_in : {a b : Flight os q} → FlightSteps platform d a b → ℕ
    acts_in on_ground = 0
    acts_in (flown steps step) = acts_in steps + acts step

    -- What `ReadFile` is given in a step of the program, the last one first.
    abbrev pub requests_in : {a b : Flight os q} → FlightStep platform d a b → List ReadRequest
    requests_in (issue_step a s early reads) = asked os a.shared.world s.world
    requests_in (thread_step a s j t u completion k before after lt popped points given runs) =
        asked os a.shared.world s.world
    requests_in (count_step a s f u late popped runs) = asked os a.shared.world s.world
    requests_in (lose_step a k before after given) = []
    requests_in (other_step a w) = []

    -- The contexts of these requests, and of those that the thread number `j` makes.
    abbrev pub reads_in : {a b : Flight os q} → FlightStep platform d a b → List ℕ
    reads_in step = contexts_of (requests_in step)

    abbrev pub own_reads_in : ℕ → {a b : Flight os q} → FlightStep platform d a b → List ℕ
    own_reads_in j (issue_step a s early reads) = []
    own_reads_in j (thread_step a s i t u completion k before after lt popped points given runs) =
        if i == j then reads_between os q a.shared s else []
    own_reads_in j (count_step a s f u late popped runs) = []
    own_reads_in j (lose_step a k before after given) = []
    own_reads_in j (other_step a w) = []

    -- The same for any number of steps, the last read first.
    abbrev pub all_requests : {a b : Flight os q} → FlightSteps platform d a b → List ReadRequest
    all_requests on_ground = []
    all_requests (flown steps step) = requests_in step ++ all_requests steps

    abbrev pub all_reads : {a b : Flight os q} → FlightSteps platform d a b → List ℕ
    all_reads on_ground = []
    all_reads (flown steps step) = reads_in step ++ all_reads steps

    abbrev pub reads_of_thread : ℕ → {a b : Flight os q} → FlightSteps platform d a b → List ℕ
    reads_of_thread j on_ground = []
    reads_of_thread j (flown steps step) = own_reads_in j step ++ reads_of_thread j steps
