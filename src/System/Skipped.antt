-- ===== src/System/Skipped.antt =====
-- The contexts that no thread ever reads, where the queue is deeper than there are threads.
use mathlib.Core.Path.{subst}
use file_read_speed_test.Base.{
  ℕ, ◌+◌, ◌%◌, add-mod_self, ◌<◌, ◌≤◌, ◌≡◌, ◌≢◌, inl, inr, refl, sym, ap, ◌∙◌, some, get_elem?,
  arith, All, Bool-cases, ◌==◌, ==_iff, ◌>>◌,
}
use native.Mathlib.Nat.{mod-eq_of_lt}
use file_read_speed_test.Words.{Platform, size_mod}
use file_read_speed_test.Win32.{Win32}
use file_read_speed_test.FileRead.{IoContext, OverlappedIoFileRead}
use file_read_speed_test.TaskQueue.{TaskQueues, IsFifo, IsResponsive}
use file_read_speed_test.ReadTask.{
  OverlappedIoFileReadTask, Finished, Task, read_task, finished_task, Shared, update,
}
use file_read_speed_test.ReadTask.Steps.{next_task, last_task}
use file_read_speed_test.ReadTask.Chain.{successor}
use file_read_speed_test.ReadTask.Queues.{AllQueues, add-AllQueues, pop-AllQueues, try_pop_task-All}
use file_read_speed_test.EntryPoint.{Depths, add_initial_tasks, issue_initial_reads}
use file_read_speed_test.System.{
  with_queue, Step, worker_step, main_step, world_step, Steps, here, and_then,
}
use file_read_speed_test.System.Invariant.{IsSound, Invariant}
use file_read_speed_test.System.Safety.{worker-Moves}
use file_read_speed_test.System.Shutdown.{IsEven, Steps-IsBalanced, early}
use file_read_speed_test.System.Tells.{Tells, main-Tells}
use file_read_speed_test.System.Moves.{Moves}
use file_read_speed_test.System.Ready.{IsReadyToStart}
use file_read_speed_test.System.Launch.{HasStarted, starts-HasStarted}

-- A read task in the queue of the thread number `j` stands at a context whose number is `j` modulo
-- the depth.
abbrev pub IsOfThread : ℕ → ℕ → Task → Type 0
IsOfThread depth j (read_task t) = t.context_index % depth ≡ j
IsOfThread depth j (finished_task f) = Unit {0}

module _ (os : Win32) (q : TaskQueues Task) (platform : Platform) (fifo : IsFifo q) (d : Depths)
    (few : d.thread_count < size_mod platform) (some_depth : 0 < d.queue_depth) where
  abbrev pub AreOfThreads : Shared os q → Type 0
  AreOfThreads s = AllQueues q fifo (IsOfThread d.queue_depth) d.thread_count s.queues

  -- The context number `k` exists, and has the start time.
  abbrev pub HasStartTime : ℕ → ℕ → Shared os q → Type 0
  HasStartTime k time s =
      (c : IoContext) × (get_elem? s.file_read.contexts k ≡ some c) × (c.request_start_time ≡ time)

  successor_residue :
      (t : OverlappedIoFileReadTask) (j : ℕ)
      → t.queue_depth ≡ d.queue_depth
      → t.context_index % d.queue_depth ≡ j
      → successor t % d.queue_depth ≡ j
  successor_residue t j same_depth residue =
      ap (λ (n : ℕ). (t.context_index + n) % d.queue_depth) same_depth
      ∙ add-mod_self t.context_index d.queue_depth some_depth
      ∙ residue

  Moves-AreOfThreads :
      (s s' : Shared os q) (j : ℕ) (t : OverlappedIoFileReadTask) (u : q.Queue)
      → j < d.thread_count
      → q.try_pop_task (s.queues j) ≡ (some (read_task t), u)
      → IsSound d j t
      → Moves os q platform fifo d t j (with_queue os q platform d.thread_count s j u) s'
      → AreOfThreads s
      → AreOfThreads s' × (successor t % d.queue_depth ≡ j)
  Moves-AreOfThreads s s' j t u lt popped sound moves all =
      let P = IsOfThread d.queue_depth in
      let (residue, rest) =
        pop-AllQueues q fifo P d.thread_count s.queues j (read_task t) u (omega arith) popped all in
      let next = successor_residue t j sound.depth residue in
      (
        elim moves.goes [
          | inl (_, _, same, own) ↦
              let at_next : (next_task platform t).context_index % d.queue_depth ≡ j =
                ap (λ (n : ℕ). n % d.queue_depth) same ∙ next in
              subst (AllQueues q fifo P d.thread_count) (sym own) (
                add-AllQueues q fifo P d.thread_count (update s.queues j u) j
                  (read_task (next_task platform t)) (omega arith) at_next rest)
          | inr (_, main) ↦ subst (AllQueues q fifo P d.thread_count) (sym main) (
              add-AllQueues q fifo P d.thread_count (update s.queues j u) d.thread_count
                (last_task t) (omega arith) tt rest)
        ],
        next,
      )

  Tells-AreOfThreads :
      (s s' : Shared os q) (f : Finished) (u : q.Queue)
      → q.try_pop_task (s.queues d.thread_count) ≡ (some (finished_task f), u)
      → Tells os q platform fifo d few s s' u
      → AreOfThreads s
      → AreOfThreads s'
  Tells-AreOfThreads s s' f u popped tells all j le =
      let P = IsOfThread d.queue_depth in
      let (_, rest) =
        try_pop_task-All q fifo (P d.thread_count) (s.queues d.thread_count) u (finished_task f)
          popped (all d.thread_count (omega arith)) in
      elim (Bool-cases (d.thread_count == j)) [
        | inl main ↦
            subst (λ (i : ℕ). All (P i) (fifo.tasks (s'.queues i))) ((==_iff _ j).0 main)
              (subst (All (P d.thread_count)) (sym tells.same_tasks) rest)
        | inr worker ↦
            let ne : d.thread_count ≢ j = λ e. let yes = (==_iff _ j).1 e in cc in
            rw (tells.others j ne) (all j le)
      ]

  Step-keeps :
      (s s' : Shared os q) (k time : ℕ)
      → d.thread_count ≤ k % d.queue_depth
      → Step os q platform d.thread_count s s'
      → Invariant os q fifo d s
      → IsEven os q platform fifo d few s
      → AreOfThreads s × HasStartTime k time s
      → AreOfThreads s' × HasStartTime k time s'
  Step-keeps s s' k time no_thread (worker_step j t u completion i lt popped points in_range runs)
        inv even (all, (c, at_k, has)) =
      let (sound, moves, _) =
        worker-Moves os q platform fifo d s s' j t u completion i inv lt popped points in_range
          runs in
      let (all', residue) = Moves-AreOfThreads s s' j t u lt popped sound moves all in
      let ne : k ≢ successor t =
        λ e. let same = ap (λ (n : ℕ). n % d.queue_depth) e in omega (arith, same, residue) in
      let (c', at_k', same) = moves.unread k c at_k ne in (all', (c', at_k', same ∙ has))
  Step-keeps s s' k time no_thread (main_step f u popped runs) inv even (all, (c, at_k, has)) =
      let before = early os q platform fifo d few s f u popped even in
      let tells = main-Tells os q platform fifo d few s s' f u inv before popped runs in
      (
        Tells-AreOfThreads s s' f u popped tells all,
        (
          c,
          ap (λ (r : OverlappedIoFileRead). get_elem? r.contexts k) tells.same_file_read ∙ at_k,
          has,
        ),
      )
  Step-keeps s s' k time no_thread (world_step w e) inv even kept =
      subst (λ (x : Shared os q). AreOfThreads x × HasStartTime k time x) (sym e) kept

  -- Any steps in any order leave the start time of a context whose number has, modulo the depth, no
  -- thread.
  Steps-keep :
      (s s' : Shared os q) (k time : ℕ)
      → d.thread_count ≤ k % d.queue_depth
      → Steps os q platform d.thread_count s s'
      → Invariant os q fifo d s
      → IsEven os q platform fifo d few s
      → AreOfThreads s × HasStartTime k time s
      → AreOfThreads s' × HasStartTime k time s'
  Steps-keep s s' k time no_thread here inv even kept = kept
  Steps-keep s s'' k time no_thread (and_then s' _ before step) inv even kept =
      let (inv', even') = Steps-IsBalanced os q platform fifo d few s s' before inv even in
      Step-keeps s' s'' k time no_thread step inv' even'
        (Steps-keep s s' k time no_thread before inv even kept)

  start-AreOfThreads :
      (s s' : Shared os q)
      → d.thread_count ≤ d.queue_depth
      → HasStarted os q platform fifo d s s'
      → AreOfThreads s'
  start-AreOfThreads s s' deep has_started j le = elim (Bool-cases (d.thread_count == j)) [
    | inl main ↦
        let none_there =
          ap (λ (i : ℕ). fifo.tasks (s'.queues i)) (sym ((==_iff _ j).0 main))
          ∙ has_started.no_message in
        rw none_there tt
    | inr worker ↦
        let ne : d.thread_count ≢ j = λ e. let yes = (==_iff _ j).1 e in cc in
        rw (has_started.one_task j (omega arith)) (mod-eq_of_lt (omega arith), tt)
  ]

  -- With at least as deep a queue as there are threads, a depth other than 0, and responsive
  -- queues, from shared objects that are ready to start (a prepared file whose size is no multiple
  -- of the buffer's, a queue that is not deeper than the number of contexts, empty and open queues,
  -- a counter of 0, sums and products that fit): once the initial tasks are added and the initial
  -- reads are issued, no steps in any order change the start time of a context from the number
  -- `queue_depth` on whose number has, modulo `queue_depth`, no thread.
  pub never_read :
      (s s' s'' : Shared os q) (k : ℕ) (c : IoContext)
      → IsResponsive q
      → IsReadyToStart os q platform fifo d s
      → d.thread_count ≤ d.queue_depth
      → d.queue_depth ≤ k
      → get_elem? s.file_read.contexts k ≡ some c
      → d.thread_count ≤ k % d.queue_depth
      → (add_initial_tasks os q platform d d.thread_count 0 0
            >> issue_initial_reads os q platform d)
          s
        ≡ some (tt, s')
      → Steps os q platform d.thread_count s' s''
      → HasStartTime k c.request_start_time s''
  never_read s s' s'' k c responsive ready deep past at_k no_thread starts steps =
      let has = starts-HasStarted os q platform fifo d s s' responsive ready starts in
      (Steps-keep s' s'' k c.request_start_time no_thread steps has.invariant has.even
        (start-AreOfThreads s s' deep has, (c, has.kept k past ∙ at_k, refl))).1
