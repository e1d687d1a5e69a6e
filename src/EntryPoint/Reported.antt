-- ===== src/EntryPoint/Reported.antt =====
-- What the report of a session is about.
use mathlib.Core.Path.{subst}
use file_read_speed_test.Base.{
  ℕ, ◌+◌, ◌<◌, ◌≡◌, sym, ap, ◌∙◌, true, some, List, [], ◌++◌, All, All-append, length, pos, ◌>>◌,
  bind_some, arith,
}
use file_read_speed_test.Words.{Platform}
use file_read_speed_test.Win32.{Win32}
use file_read_speed_test.TaskQueue.{TaskQueues, IsFifo, IsResponsive, TaskThreads}
use file_read_speed_test.ReadTask.{Task, Shared, Run}
use file_read_speed_test.ReadTask.Requests.{IsRequestOf, asked, reads_between, Asks-reads}
use file_read_speed_test.StateMachine.{StateMachines}
use file_read_speed_test.CommandLine.{NodeIndices, Locals, CLibrary}
use file_read_speed_test.EntryPoint.{Depths, add_initial_tasks, issue_initial_reads}
use file_read_speed_test.EntryPoint.Main.{session}
use file_read_speed_test.EntryPoint.InitialTasks.{add_initial_tasks-IsAligned}
use file_read_speed_test.EntryPoint.Sessions.{HasEnded, session-HasEnded}
use file_read_speed_test.System.Ready.{IsReadyToStart}
use file_read_speed_test.System.Launch.{starts-HasStarted}
use file_read_speed_test.System.Reads.{times, first_reads}
use file_read_speed_test.System.Following.{start-AreAt}
use file_read_speed_test.System.Flight.{Flight, FlightSteps, all_requests, all_reads, take_off}
use file_read_speed_test.System.Flight.Requesting.{
  FlightSteps-keeps, FlightSteps-requests, asked-IsRequestOf, map-All,
}
use file_read_speed_test.System.Flight.Reading.{IsComplete}
use file_read_speed_test.System.Flight.Flying.{IsFlying}
use file_read_speed_test.System.Flight.Safety.{FlightSteps-IsFlying}
use file_read_speed_test.System.Flight.Launch.{HasTakenOff, take_off-HasTakenOff}
use file_read_speed_test.System.Flight.Sequence.{
  all_pending, launched, issue_initial_reads-FlightSteps, FlightSteps-Steps,
}
use file_read_speed_test.System.Flight.Arrival.{landing-IsComplete}

module _ (os : Win32) (q : TaskQueues Task) (platform : Platform) (fifo : IsFifo q)
    (d : Depths) where
  -- The initial tasks and reads are steps up to where all the initial reads are pending.
  pub starts-FlightSteps :
      (s s' : Shared os q)
      → IsResponsive q
      → (ready : IsReadyToStart os q platform fifo d s)
      → (add_initial_tasks os q platform d d.thread_count 0 0
            >> issue_initial_reads os q platform d)
          s
        ≡ some (tt, s')
      → (a : Flight os q) × HasTakenOff os q platform fifo d ready.few_threads s a
        × FlightSteps os q platform d a (all_pending os q s' d.queue_depth)
  starts-FlightSteps s s' responsive ready starts =
      let few = ready.few_threads in
      let starts_fit = ready.starts_fit in
      let (s₀, adds, _, _) =
        add_initial_tasks-IsAligned os q platform fifo d responsive (omega (arith, starts_fit)) few
          ready.interval s ready.all_open in
      let issues =
        sym (bind_some (add_initial_tasks os q platform d d.thread_count 0 0) _ s adds) ∙ starts in
      (
        take_off os q s₀,
        take_off-HasTakenOff os q platform fifo d few s s₀ responsive ready adds,
        issue_initial_reads-FlightSteps os q platform d ready.few_reads s₀ s' issues,
      )

  -- What has been read then is what `main` reads first.
  starts-reads :
      (s s' : Shared os q)
      → IsResponsive q
      → IsReadyToStart os q platform fifo d s
      → (add_initial_tasks os q platform d d.thread_count 0 0
            >> issue_initial_reads os q platform d)
          s
        ≡ some (tt, s')
      → reads_between os q s s' ≡ first_reads d.queue_depth
  starts-reads s s' responsive ready starts =
      Asks-reads os q s s' _
        (starts-HasStarted os q platform fifo d s s' responsive ready starts).asks

  pub starts-IsFlying :
      (s s' : Shared os q)
      → IsResponsive q
      → (ready : IsReadyToStart os q platform fifo d s)
      → (add_initial_tasks os q platform d d.thread_count 0 0
            >> issue_initial_reads os q platform d)
          s
        ≡ some (tt, s')
      → IsFlying os q platform fifo d ready.few_threads (launched os q s s' d.queue_depth)
  starts-IsFlying s s' responsive ready starts =
      let (a, has, steps) = starts-FlightSteps s s' responsive ready starts in
      subst
        (λ (is : List ℕ).
          IsFlying os q platform fifo d ready.few_threads
            (record { shared = s'; issued = d.queue_depth; pending = is; lost = [] }))
        (sym (starts-reads s s' responsive ready starts))
        (FlightSteps-IsFlying os q platform fifo d ready.few_threads a _ steps has.flying)

  -- All that `ReadFile` is given, in the initial reads and in the steps, are requests of contexts.
  pub starts-requests :
      (s s' : Shared os q) (b : Flight os q)
      → IsResponsive q
      → IsReadyToStart os q platform fifo d s
      → (add_initial_tasks os q platform d d.thread_count 0 0
            >> issue_initial_reads os q platform d)
          s
        ≡ some (tt, s')
      → (steps : FlightSteps os q platform d (launched os q s s' d.queue_depth) b)
      → All (IsRequestOf b.shared.file_read) (all_requests os q steps ++ asked os s.world s'.world)
  starts-requests s s' b responsive ready starts steps =
      let few = ready.few_threads in
      let flying = starts-IsFlying s s' responsive ready starts in
      let asks = (starts-HasStarted os q platform fifo d s s' responsive ready starts).asks in
      All-append (IsRequestOf b.shared.file_read) (all_requests os q steps)
        (asked os s.world s'.world) (FlightSteps-requests os q platform fifo d few _ b steps flying)
        (map-All (IsRequestOf s'.file_read) (IsRequestOf b.shared.file_read)
          (asked os s.world s'.world)
          (λ x is. FlightSteps-keeps os q platform fifo d few _ b x steps flying is)
          (asked-IsRequestOf os q platform fifo d few s s' _ asks))

  module _ (t : TaskThreads os.World q.Queue) (c : CLibrary) (m : StateMachines NodeIndices Locals)
      (task_runner_loop : ℕ → Run os q (Unit {0})) where
    -- With as deep a queue as there are threads, at least one thread, and responsive queues, from
    -- shared objects that are ready to start (a prepared file whose size is no multiple of the
    -- buffer's, a queue that is not deeper than the number of contexts, empty and open queues, a
    -- counter of 0, sums and products that fit): if the loop over the main queue comes back after
    -- steps of the threads in any order, in which `ReadFile` makes reads pending, each wait is
    -- given a pending one and reads may be lost, with the main queue shut down, the session ends
    -- with 0, every queue is empty and shut down, the threads have been joined, the report on the
    -- contexts has been printed and their buffers freed; and when it is printed no read is pending
    -- or lost, and each context has been given to `ReadFile` exactly once and is complete.
    pub session-reports_all :
        (pre_open_time : ℕ) (threads : List t.Thread) (s s' : Shared os q) (b : Flight os q)
        → d.queue_depth ≡ d.thread_count
        → 0 < d.thread_count
        → IsResponsive q
        → IsReadyToStart os q platform fifo d s
        → (add_initial_tasks os q platform d d.thread_count 0 0
              >> issue_initial_reads os q platform d)
            s
          ≡ some (tt, s')
        → task_runner_loop d.thread_count s' ≡ some (tt, b.shared)
        → (steps : FlightSteps os q platform d (launched os q s s' d.queue_depth) b)
        → q.is_shutting_down (b.shared.queues d.thread_count) ≡ true
        → ((joined : List t.Thread) × (w : os.World) × (s'' : Shared os q) × (session os q platform
                t c m task_runner_loop d pre_open_time threads s
              ≡ some ((pos 0, joined), s''))
            × HasEnded os q platform fifo t c m task_runner_loop d pre_open_time threads b.shared
                s'' joined w)
          × (b.pending ≡ [])
          × (b.lost ≡ [])
          × ((k : ℕ)
              → k < length s.file_read.contexts
              → (times k (all_reads os q steps) + times k (reads_between os q s s') ≡ 1)
                × IsComplete k b.shared.file_read.contexts)
    session-reports_all pre_open_time threads s s' b same_depth some_thread responsive ready starts
          loops steps shut =
        let few = ready.few_threads in
        let some_depth : 0 < d.queue_depth = omega arith in
        let a = launched os q s s' d.queue_depth in
        let reads = starts-reads s s' responsive ready starts in
        let flying = starts-IsFlying s s' responsive ready starts in
        let has = starts-HasStarted os q platform fifo d s s' responsive ready starts in
        let (nothing, none_lost, each) =
          landing-IsComplete os q platform fifo d few some_depth some_thread a b steps same_depth
            flying (start-AreAt os q platform fifo d few some_depth s s' has)
            (λ k was_read not_pending.
              absurd (omega (arith, was_read, not_pending, ap (times k) reads)))
            shut in
        (
          session-HasEnded os q platform fifo t c m task_runner_loop d pre_open_time threads s s'
              b.shared responsive some_thread ready starts loops
              (FlightSteps-Steps os q platform fifo d few a b steps (omega arith) flying) shut,
          nothing,
          none_lost,
          λ k lt.
              let (once, complete) = each k (rw has.same_count lt) in
              (omega (arith, once, ap (times k) reads), complete),
        )
