-- ===== src/System/Flight/Launch.antt =====
-- What `main` starts to issue its reads with.
use file_read_speed_test.Base.{
  ℕ, ◌<◌, ◌≡◌, refl, sym, ap, ◌∙◌, some, List, [], ◌∷◌, ◌++◌, length, inr, arith,
}
use mathlib.Core.Path.{subst}
use mathlib.Core.Option.{some-injective}
use file_read_speed_test.Words.{Platform, size_mod}
use file_read_speed_test.Win32.{Win32}
use file_read_speed_test.FileRead.{OverlappedIoFileRead}
use file_read_speed_test.TaskQueue.{TaskQueues, IsFifo, IsResponsive, AddTaskError, okay}
use file_read_speed_test.ReadTask.{Task, Shared}
use file_read_speed_test.EntryPoint.{Depths, add_initial_tasks}
use file_read_speed_test.EntryPoint.InitialTasks.{task_of, add_initial_tasks-IsAligned}
use file_read_speed_test.System.Invariant.{Invariant-transport}
use file_read_speed_test.System.Ready.{IsReadyToStart, given-Invariant, given-IsBalanced}
use file_read_speed_test.System.Flight.{Flight, take_off}
use file_read_speed_test.System.Flight.Flying.{IsFlying}

module _ (os : Win32) (q : TaskQueues Task) (platform : Platform) (fifo : IsFifo q) (d : Depths)
    (few : d.thread_count < size_mod platform) where
  -- What holds at the start of the reads, when no context has been read: besides what holds in
  -- flight, each thread has its first task, and the main queue no message.
  pub record HasTakenOff (s : Shared os q) (a : Flight os q) : Type 0 where
    pub flying : IsFlying os q platform fifo d few a
    pub one_task :
        (j : ℕ)
        → j < d.thread_count
        → fifo.tasks (a.shared.queues j) ≡ task_of os q platform fifo d j ∷ []
    pub no_message : fifo.tasks (a.shared.queues d.thread_count) ≡ []
    pub same_contexts : a.shared.file_read.contexts ≡ s.file_read.contexts
    pub same_count : length a.shared.file_read.contexts ≡ length s.file_read.contexts

  given-HasTakenOff :
      IsResponsive q
      → (s : Shared os q) → IsReadyToStart os q platform fifo d s
      → (s' : Shared os q) × (add_initial_tasks os q platform d d.thread_count 0 0 s
          ≡ some (okay, s'))
        × HasTakenOff s (take_off os q s')
  given-HasTakenOff responsive s ready =
      let n = d.thread_count in
      let starts_fit = ready.starts_fit in
      let (s', adds, given, aligned) =
        add_initial_tasks-IsAligned os q platform fifo d responsive (omega (arith, starts_fit))
          ready.few_threads ready.interval s ready.all_open in
      let inv = given-Invariant os q platform fifo d s s' ready given aligned in
      let same_count = ap (λ (r : OverlappedIoFileRead). length r.contexts) given.same_file_read in
      let no_message =
        ap fifo.tasks (given.kept n (inr (omega arith))) ∙ ready.all_empty n (omega arith) in
      let none_completed = given.same_completed_threads ∙ ready.none_completed in
      (
        s',
        adds,
        record {
          flying = record {
            invariant = Invariant-transport os q fifo d s' _ refl refl inv.all_tasks inv;
            even = given-IsBalanced os q platform fifo d s s' ready given;
            all_exist = tt;
            shallow = rw same_count ready.shallow;
            in_depth = omega arith;
            handed_on =
                omega (arith, none_completed, ap (λ (ts : List Task). length ts) no_message);
            counts_late = λ some_counted. absurd (omega (arith, none_completed, some_counted));
          };
          one_task = λ j lt.
              given.given j (omega arith) lt
              ∙ ap (λ (ts : List Task). ts ++ (task_of os q platform fifo d j ∷ []))
                  (ready.all_empty j (omega arith));
          no_message = no_message;
          same_contexts = ap (λ (r : OverlappedIoFileRead). r.contexts) given.same_file_read;
          same_count = same_count;
        },
      )

  -- What the initial tasks are known to leave, the reads start with.
  pub take_off-HasTakenOff :
      (s s' : Shared os q)
      → IsResponsive q
      → IsReadyToStart os q platform fifo d s
      → add_initial_tasks os q platform d d.thread_count 0 0 s ≡ some (okay, s')
      → HasTakenOff s (take_off os q s')
  take_off-HasTakenOff s s' responsive ready adds =
      let (s'', adds', has) = given-HasTakenOff responsive s ready in
      let same : s'' ≡ s' =
        ap (λ (p : AddTaskError × Shared os q). p.1) (some-injective _ _ (sym adds' ∙ adds)) in
      subst (λ (x : Shared os q). HasTakenOff s (take_off os q x)) same has
