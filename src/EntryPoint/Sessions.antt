-- ===== src/EntryPoint/Sessions.antt =====
-- A session from its start to its end.
use file_read_speed_test.Base.{
  ℕ, ◌<◌, ◌≤◌, ◌≡◌, ◌≢◌, refl, sym, ap, ◌∙◌, inl, inr, ◌==◌, ==_iff, Bool-cases, true, some, List,
  length, pos, ◌>>◌, bind_some, arith,
}
use file_read_speed_test.Words.{Platform}
use file_read_speed_test.Win32.{Win32}
use file_read_speed_test.FileRead.{OverlappedIoFileRead}
use file_read_speed_test.FileRead.Printing.{freed, report, run_effects, print_results-report}
use file_read_speed_test.TaskQueue.{TaskQueues, okay, IsFifo, IsResponsive, TaskThreads}
use file_read_speed_test.ReadTask.{Task, Shared, Run, in_world}
use file_read_speed_test.StateMachine.{StateMachines}
use file_read_speed_test.CommandLine.{NodeIndices, Locals, CLibrary}
use file_read_speed_test.EntryPoint.{
  Depths, add_initial_tasks, issue_initial_reads, shutdown_queues, join_threads,
}
use file_read_speed_test.EntryPoint.Main.{session, print_shared}
use file_read_speed_test.EntryPoint.Ending.{AreShut, shutdown_queues-AreShut, join_threads-returns}
use file_read_speed_test.EntryPoint.InitialTasks.{add_initial_tasks-IsAligned}
use file_read_speed_test.System.{Steps}
use file_read_speed_test.System.Counts.{tasks_in}
use file_read_speed_test.System.Shutdown.{main_queue_closes}
use file_read_speed_test.System.Ready.{IsReadyToStart}
use file_read_speed_test.System.Launch.{starts-HasStarted}

module _ (os : Win32) (q : TaskQueues Task) (platform : Platform) (fifo : IsFifo q)
    (t : TaskThreads os.World q.Queue) (c : CLibrary) (m : StateMachines NodeIndices Locals)
    (task_runner_loop : ℕ → Run os q (Unit {0})) (d : Depths) where
  -- After the loop has left `s`: the threads have been joined in the world `w`, the report on the
  -- contexts has been printed and their buffers freed, and the queues are empty and shut down.
  pub record HasEnded (pre_open_time : ℕ) (threads : List t.Thread) (s s' : Shared os q)
      (joined : List t.Thread) (w : os.World) : Type 0 where
    pub joins : join_threads os q platform t threads s.world ≡ some (joined, w)
    pub same_threads : length joined ≡ length threads
    pub reported : s'.world ≡ run_effects os (report pre_open_time s.file_read) w
    pub all_freed : s'.file_read ≡ freed s.file_read
    pub no_tasks : (j : ℕ) → j ≤ d.thread_count → tasks_in q fifo s'.queues j ≡ 0
    pub all_shut : (j : ℕ) → j ≤ d.thread_count → q.is_shutting_down (s'.queues j) ≡ true

  print_shared-report :
      (pre_open_time : ℕ) (s : Shared os q)
      → print_shared os q platform t c m task_runner_loop pre_open_time s
        ≡ some (
          tt,
          record s {
            file_read = freed s.file_read;
            world = run_effects os (report pre_open_time s.file_read) s.world;
          },
        )
  unfolding print_shared
  print_shared-report pre_open_time s =
      rw (print_results-report os pre_open_time s.file_read s.world, print_shared) refl

  in_world-join :
      (threads joined : List t.Thread) (s : Shared os q) (w : os.World)
      → join_threads os q platform t threads s.world ≡ some (joined, w)
      → in_world os q (join_threads os q platform t threads) s
        ≡ some (joined, record s { world = w })
  unfolding in_world
  in_world-join threads joined s w joins = rw (joins, in_world) refl

  -- What the session ends in, after a last step that leaves `s` and the world `w`.
  abbrev printed : ℕ → Shared os q → os.World → Shared os q
  printed pre_open_time s w = record s {
    file_read = freed s.file_read;
    world = run_effects os (report pre_open_time s.file_read) w;
  }

  session-runs :
      (pre_open_time : ℕ) (threads joined : List t.Thread) (s s₁ s₂ s₃ s₄ : Shared os q)
      (w : os.World)
      → add_initial_tasks os q platform d d.thread_count 0 0 s ≡ some (okay, s₁)
      → issue_initial_reads os q platform d s₁ ≡ some (tt, s₂)
      → task_runner_loop d.thread_count s₂ ≡ some (tt, s₃)
      → shutdown_queues os q platform d.thread_count 0 s₃ ≡ some (tt, s₄)
      → join_threads os q platform t threads s₄.world ≡ some (joined, w)
      → session os q platform t c m task_runner_loop d pre_open_time threads s
        ≡ some ((pos 0, joined), printed pre_open_time s₄ w)
  unfolding session
  session-runs pre_open_time threads joined s s₁ s₂ s₃ s₄ w adds issues loops shuts joins =
      bind_some (add_initial_tasks os q platform d d.thread_count 0 0) _ s adds
      ∙ bind_some (issue_initial_reads os q platform d) _ s₁ issues
      ∙ bind_some (task_runner_loop d.thread_count) _ s₂ loops
      ∙ bind_some (shutdown_queues os q platform d.thread_count 0) _ s₃ shuts
      ∙ bind_some (in_world os q (join_threads os q platform t threads)) _ s₄
          (in_world-join threads joined s₄ w joins)
      ∙ bind_some (print_shared os q platform t c m task_runner_loop pre_open_time) _ _
          (print_shared-report pre_open_time (record s₄ { world = w }))

  all_stopped :
      (s s' : Shared os q)
      → q.is_shutting_down (s.queues d.thread_count) ≡ true
      → ((j : ℕ) → j ≤ d.thread_count → tasks_in q fifo s.queues j ≡ 0)
      → AreShut os q platform fifo t 0 d.thread_count s s'
      → (j : ℕ) → j ≤ d.thread_count
      → (tasks_in q fifo s'.queues j ≡ 0) × (q.is_shutting_down (s'.queues j) ≡ true)
  all_stopped s s' main_shut none_left are j le = (
    ap length (are.same_tasks j) ∙ none_left j le,
    elim (Bool-cases (j == d.thread_count)) [
      | inl main ↦
          let main' = (==_iff j _).0 main in
          ap q.is_shutting_down (are.same_above j (omega arith))
          ∙ ap (λ (i : ℕ). q.is_shutting_down (s.queues i)) main'
          ∙ main_shut
      | inr worker ↦
          let ne : j ≢ d.thread_count = λ e. let yes = (==_iff j _).1 e in cc in
          are.shut j (omega arith) (omega arith)
    ],
  )

  -- With responsive queues and at least one thread, from shared objects that are ready to start (a
  -- prepared file whose size is no multiple of the buffer's, a queue that is not deeper than the
  -- number of contexts, empty and open queues, a counter of 0, sums and products that fit): if the
  -- loop over the main queue comes back after steps of the threads in any order, with the main
  -- queue shut down, the session ends with 0, every queue is empty and shut down, the threads have
  -- been joined, and the report on the contexts has been printed and their buffers freed.
  pub session-HasEnded :
      (pre_open_time : ℕ) (threads : List t.Thread) (s s₁ s₂ : Shared os q)
      → IsResponsive q
      → 0 < d.thread_count
      → IsReadyToStart os q platform fifo d s
      → (add_initial_tasks os q platform d d.thread_count 0 0
            >> issue_initial_reads os q platform d)
          s
        ≡ some (tt, s₁)
      → task_runner_loop d.thread_count s₁ ≡ some (tt, s₂)
      → Steps os q platform d.thread_count s₁ s₂
      → q.is_shutting_down (s₂.queues d.thread_count) ≡ true
      → (joined : List t.Thread) × (w : os.World) × (s' : Shared os q) × (session os q platform t c
            m task_runner_loop d pre_open_time threads s
          ≡ some ((pos 0, joined), s'))
        × HasEnded pre_open_time threads s₂ s' joined w
  session-HasEnded pre_open_time threads s s₁ s₂ responsive some_thread ready starts loops steps
        main_shut =
      let has = starts-HasStarted os q platform fifo d s s₁ responsive ready starts in
      let none_left =
        (main_queue_closes os q platform fifo d ready.few_threads s₁ s₂ some_thread has.invariant
            has.even steps).0
          main_shut in
      let starts_fit = ready.starts_fit in
      let (s₀, adds, _, _) =
        add_initial_tasks-IsAligned os q platform fifo d responsive (omega (arith, starts_fit))
          ready.few_threads ready.interval s ready.all_open in
      let issues =
        sym (bind_some (add_initial_tasks os q platform d d.thread_count 0 0) _ s adds) ∙ starts in
      let (s₃, shuts, are) =
        shutdown_queues-AreShut os q platform fifo t d.thread_count 0 d.thread_count s₂
          (omega arith) in
      let (joined, w, joins, same) = join_threads-returns os q platform fifo t threads s₂.world in
      let stopped = all_stopped s₂ s₃ main_shut none_left are in
      let joins' = ap (join_threads os q platform t threads) are.same_world ∙ joins in
      (
        joined,
        w,
        printed pre_open_time s₃ w,
        session-runs pre_open_time threads joined s s₀ s₁ s₂ s₃ w adds issues loops shuts joins',
        record {
          joins = joins;
          same_threads = same;
          reported =
              ap (λ (r : OverlappedIoFileRead). run_effects os (report pre_open_time r) w)
                are.same_file_read;
          all_freed = ap freed are.same_file_read;
          no_tasks = λ j le. (stopped j le).0;
          all_shut = λ j le. (stopped j le).1;
        },
      )
