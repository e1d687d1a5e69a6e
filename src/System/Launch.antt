-- ===== src/System/Launch.antt =====
-- The state in which `main` starts to wait.
use mathlib.Core.Path.{subst, subst₂}
use file_read_speed_test.Base.{
  List, ◌∷◌, ◌++◌, ℕ, ◌*◌, ◌<◌, ◌≤◌, ◌≡◌, ap, ◌∙◌, inr, sym, some, [], length, get_elem?, bind_some,
  ◌>>◌, All, arith,
}
use file_read_speed_test.Words.{Platform}
use file_read_speed_test.Win32.{Win32}
use file_read_speed_test.FileRead.{OverlappedIoFileRead}
use file_read_speed_test.TaskQueue.{TaskQueues, IsFifo, IsResponsive}
use file_read_speed_test.ReadTask.{Task, Shared}
use file_read_speed_test.ReadTask.Chain.{IsAligned}
use file_read_speed_test.ReadTask.Requests.{Asks}
use file_read_speed_test.EntryPoint.{Depths, initial_task, add_initial_tasks, issue_initial_reads}
use file_read_speed_test.EntryPoint.InitialTasks.{task_of, IsGiven, add_initial_tasks-IsAligned}
use file_read_speed_test.EntryPoint.InitialReads.{first_reads, issue_initial_reads_in_range}
use file_read_speed_test.System.Balance.{IsBalanced}
use file_read_speed_test.System.Safety.{same_result}
use file_read_speed_test.System.Invariant.{IsTaskOf, Invariant, Invariant-transport}
use file_read_speed_test.System.Ready.{IsReadyToStart, given-Invariant, given-IsBalanced}

module _ (os : Win32) (q : TaskQueues Task) (platform : Platform) (fifo : IsFifo q)
    (d : Depths) where
  -- What `main` starts to wait with: one task for each thread, and the contexts from the number
  -- `queue_depth` on as they were.
  pub record HasStarted (s s' : Shared os q) : Type 0 where
    pub invariant : Invariant os q fifo d s'
    pub even : IsBalanced q fifo d.thread_count s'.queues s'.completed_threads
    pub one_task :
        (j : ℕ)
        → j < d.thread_count
        → fifo.tasks (s'.queues j) ≡ task_of os q platform fifo d j ∷ []
    pub no_message : fifo.tasks (s'.queues d.thread_count) ≡ []
    pub kept :
        (k : ℕ)
        → d.queue_depth ≤ k
        → get_elem? s'.file_read.contexts k ≡ get_elem? s.file_read.contexts k
    pub same_count : length s'.file_read.contexts ≡ length s.file_read.contexts
    pub asks : Asks os q s s' (first_reads d.queue_depth)

  tasks_of_queues :
      {queues queues' : ℕ → q.Queue} (j : ℕ)
      → queues' ≡ queues
      → fifo.tasks (queues' j) ≡ fifo.tasks (queues j)
  tasks_of_queues j same = ap (λ (queues : ℕ → q.Queue). fifo.tasks (queues j)) same

  issue-HasStarted :
      (s s' : Shared os q)
      → IsReadyToStart os q platform fifo d s
      → IsGiven os q platform fifo d 0 s s'
      → ((j : ℕ) → IsAligned d.buffer_size (initial_task platform d (j * d.buffer_size) j))
      → (s'' : Shared os q) × (issue_initial_reads os q platform d s' ≡ some (tt, s''))
        × HasStarted s s''
  issue-HasStarted s s' ready given aligned =
      let inv = given-Invariant os q platform fifo d s s' ready given aligned in
      let n = d.thread_count in
      let same_count = ap (λ (r : OverlappedIoFileRead). length r.contexts) given.same_file_read in
      let shallow = ready.shallow in
      let (s'', issues, are, asks) =
        issue_initial_reads_in_range os q platform d s' ready.few_reads
          (omega (arith, same_count, shallow)) in
      let tasks : (j : ℕ) → j ≤ n → All (IsTaskOf d j) (fifo.tasks (s''.queues j)) =
        λ j le. rw (tasks_of_queues j are.same_queues) (inv.all_tasks j le) in
      (
        s'',
        issues,
        record {
          invariant = Invariant-transport os q fifo d s' s'' are.same_count are.same_size tasks inv;
          even =
              subst₂ (IsBalanced q fifo n) (sym are.same_queues) (sym are.same_completed_threads)
                (given-IsBalanced os q platform fifo d s s' ready given);
          one_task = λ j lt.
              tasks_of_queues j are.same_queues
              ∙ given.given j (omega arith) lt
              ∙ ap (λ (ts : List Task). ts ++ (task_of os q platform fifo d j ∷ []))
                  (ready.all_empty j (omega arith));
          no_message =
              tasks_of_queues n are.same_queues
              ∙ ap fifo.tasks (given.kept n (inr (omega arith)))
              ∙ ready.all_empty n (omega arith);
          kept = λ k ge.
              are.kept k (inr ge)
              ∙ ap (λ (r : OverlappedIoFileRead). get_elem? r.contexts k) given.same_file_read;
          same_count = are.same_count ∙ same_count;
          asks = record {
            rs = asks.rs;
            grows = asks.grows ∙ ap (λ (w : os.World). asks.rs ++ os.requests w) given.same_world;
            same_contexts = asks.same_contexts;
            are_requests = asks.are_requests;
            same_file =
                asks.same_file
                ∙ ap (λ (r : OverlappedIoFileRead). r.overlapped_io_file) given.same_file_read;
          };
        },
      )

  start-HasStarted :
      IsResponsive q
      → (s : Shared os q) → IsReadyToStart os q platform fifo d s
      → (s' : Shared os q) × ((add_initial_tasks os q platform d d.thread_count 0 0
              >> issue_initial_reads os q platform d)
            s
          ≡ some (tt, s'))
        × HasStarted s s'
  start-HasStarted responsive s ready =
      let starts_fit = ready.starts_fit in
      let (s₁, adds, given, aligned) =
        add_initial_tasks-IsAligned os q platform fifo d responsive (omega (arith, starts_fit))
          ready.few_threads ready.interval s ready.all_open in
      let (s₂, issues, has_started) = issue-HasStarted s s₁ ready given aligned in
      (
        s₂,
        bind_some (add_initial_tasks os q platform d d.thread_count 0 0) _ s adds ∙ issues,
        has_started,
      )

  -- What the initial tasks and reads are known to end in, they start.
  pub starts-HasStarted :
      (s s' : Shared os q)
      → IsResponsive q
      → IsReadyToStart os q platform fifo d s
      → (add_initial_tasks os q platform d d.thread_count 0 0
            >> issue_initial_reads os q platform d)
          s
        ≡ some (tt, s')
      → HasStarted s s'
  starts-HasStarted s s' responsive ready starts =
      let (started, starts', has) = start-HasStarted responsive s ready in
      subst (HasStarted s) (same_result os q platform fifo d starts' starts) has

  -- From shared objects that are ready to start (a prepared file whose size is no multiple of the
  -- buffer's, a queue that is not deeper than the number of contexts, empty and open queues, a
  -- counter of 0, sums and products that fit) and responsive queues, adding the initial tasks and
  -- issuing the initial reads is defined and leaves balanced shared objects with the invariant of
  -- the steps.
  pub start-Invariant :
      IsResponsive q
      → (s : Shared os q) → IsReadyToStart os q platform fifo d s
      → (s' : Shared os q) × ((add_initial_tasks os q platform d d.thread_count 0 0
              >> issue_initial_reads os q platform d)
            s
          ≡ some (tt, s'))
        × Invariant os q fifo d s'
        × IsBalanced q fifo d.thread_count s'.queues s'.completed_threads
  start-Invariant responsive s ready =
      let (s', starts, has_started) = start-HasStarted responsive s ready in
      (s', starts, has_started.invariant, has_started.even)
