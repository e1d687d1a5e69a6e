-- ===== src/System/Following.antt =====
-- The reads of each thread, step by step.
use mathlib.Core.Path.{subst}
use file_read_speed_test.Base.{
  ℕ, ◌*◌, ◌<◌, ◌≡◌, ◌≢◌, inl, inr, refl, sym, ap, ◌∙◌, Bool, some, List, [], ◌++◌, length, ◌==◌,
  ==_iff, if◌then◌else◌, arith,
}
use file_read_speed_test.Words.{Platform, size_mod}
use file_read_speed_test.Win32.{Win32}
use file_read_speed_test.FileRead.{OverlappedIoFileRead}
use file_read_speed_test.TaskQueue.{TaskQueues, IsFifo}
use file_read_speed_test.ReadTask.{OverlappedIoFileReadTask, Task, read_task, Shared}
use file_read_speed_test.EntryPoint.{Depths, initial_task}
use file_read_speed_test.System.{
  with_queue, Step, worker_step, main_step, world_step, Steps, here, and_then,
}
use file_read_speed_test.System.Invariant.{IsSound, Invariant}
use file_read_speed_test.System.Safety.{worker-Moves}
use file_read_speed_test.System.Shutdown.{IsEven, Steps-IsBalanced, early}
use file_read_speed_test.System.Tells.{main-Tells}
use file_read_speed_test.System.Moves.{Moves}
use file_read_speed_test.System.Launch.{HasStarted}
use file_read_speed_test.System.Reads.{reads_of, own_reads, reads_by}
use file_read_speed_test.System.Turns.{
  AreAt, next-AreAt, last-AreAt, reads_of_goes, Share-transport,
}
use file_read_speed_test.System.Share.{Share-start}

module _ (os : Win32) (q : TaskQueues Task) (platform : Platform) (fifo : IsFifo q) (d : Depths)
    (few : d.thread_count < size_mod platform) (some_depth : 0 < d.queue_depth) where
  worker-AreAt :
      (s s' : Shared os q) (j : ℕ) (u : q.Queue) (t : OverlappedIoFileReadTask)
      (reads reads' : ℕ → List ℕ)
      → j < d.thread_count
      → q.try_pop_task (s.queues j) ≡ (some (read_task t), u)
      → Invariant os q fifo d s
      → IsEven os q platform fifo d few s
      → IsSound d j t
      → Moves os q platform fifo d t j (with_queue os q platform d.thread_count s j u) s'
      → reads' j ≡ reads_of platform s.file_read.file_size t ++ reads j
      → ((i : ℕ) → j ≢ i → reads' i ≡ reads i)
      → AreAt os q platform fifo d few some_depth reads s
      → AreAt os q platform fifo d few some_depth reads' s'
  worker-AreAt s s' j u t reads reads' lt popped inv even sound moves own_reads other_reads are_at i
        below =
      let (if_next, if_last) = reads_of_goes os q platform fifo d few some_depth s j t inv sound in
      let count = moves.same_count in
      let appended = λ (is : List ℕ) (e : reads_of platform s.file_read.file_size t ≡ is).
        own_reads ∙ ap (λ (js : List ℕ). js ++ reads j) e in
      elim moves.goes [
        | inl (inside, in_count, same_index, own) ↦
            next-AreAt os q platform fifo d few some_depth s s' j u t reads reads' lt popped even
              sound are_at count other_reads (appended _ (if_next inside in_count)) in_count
              same_index own i below
        | inr (past, main) ↦
            let (nothing, ends) = if_last past in
            last-AreAt os q platform fifo d few some_depth s s' j u t reads reads' lt popped even
              sound are_at count other_reads (appended _ nothing) ends main i below
      ]

  pub Step-AreAt :
      (s s' : Shared os q) (reads : ℕ → List ℕ) (step : Step os q platform d.thread_count s s')
      → Invariant os q fifo d s
      → IsEven os q platform fifo d few s
      → AreAt os q platform fifo d few some_depth reads s
      → AreAt os q platform fifo d few some_depth (λ j. own_reads j step ++ reads j) s'
  Step-AreAt s s' reads (worker_step j t u completion k lt popped points in_range runs) inv even
        are_at i below =
      let (sound, moves, _) =
        worker-Moves os q platform fifo d s s' j t u completion k inv lt popped points in_range
          runs in
      let here_reads = reads_of platform s.file_read.file_size t in
      worker-AreAt s s' j u t reads (λ i. (if j == i then here_reads else []) ++ reads i) lt popped
        inv even sound moves
        (ap (λ (b : Bool). (if b then here_reads else []) ++ reads j) ((==_iff j j).1 refl))
        (λ i ne. ground arith) are_at i below
  Step-AreAt s s' reads (main_step f u popped runs) inv even are_at i below =
      let tells =
        main-Tells os q platform fifo d few s s' f u inv
          (early os q platform fifo d few s f u popped even) popped runs in
      Share-transport (ap (λ (r : OverlappedIoFileRead). length r.contexts) tells.same_file_read)
        refl (ap fifo.tasks (tells.others i (λ e. omega arith))) (are_at i below)
  Step-AreAt s s' reads (world_step w e) inv even are_at i below =
      subst (AreAt os q platform fifo d few some_depth reads) (sym e) are_at i below

  pub Steps-AreAt :
      (s s' : Shared os q) (steps : Steps os q platform d.thread_count s s')
      → Invariant os q fifo d s
      → IsEven os q platform fifo d few s
      → AreAt os q platform fifo d few some_depth (λ j. []) s
      → AreAt os q platform fifo d few some_depth (λ j. reads_by j steps) s'
  Steps-AreAt s s' here inv even are_at = are_at
  Steps-AreAt s s'' (and_then s' _ before step) inv even are_at =
      let (inv', even') = Steps-IsBalanced os q platform fifo d few s s' before inv even in
      Step-AreAt s' s'' (λ j. reads_by j before) step inv' even'
        (Steps-AreAt s s' before inv even are_at)

  pub Step-count :
      (s s' : Shared os q)
      → Step os q platform d.thread_count s s'
      → Invariant os q fifo d s
      → IsEven os q platform fifo d few s
      → length s'.file_read.contexts ≡ length s.file_read.contexts
  Step-count s s' (worker_step j t u completion k lt popped points in_range runs) inv even =
      (worker-Moves os q platform fifo d s s' j t u completion k inv lt popped points in_range
        runs).1.same_count
  Step-count s s' (main_step f u popped runs) inv even =
      ap (λ (r : OverlappedIoFileRead). length r.contexts)
        (main-Tells os q platform fifo d few s s' f u inv
          (early os q platform fifo d few s f u popped even) popped runs).same_file_read
  Step-count s s' (world_step w e) inv even =
      ap (λ (x : Shared os q). length x.file_read.contexts) e

  pub Steps-count :
      (s s' : Shared os q)
      → Steps os q platform d.thread_count s s'
      → Invariant os q fifo d s
      → IsEven os q platform fifo d few s
      → length s'.file_read.contexts ≡ length s.file_read.contexts
  Steps-count s s' here inv even = refl
  Steps-count s s'' (and_then s' _ before step) inv even =
      let (inv', even') = Steps-IsBalanced os q platform fifo d few s s' before inv even in
      Step-count s' s'' step inv' even' ∙ Steps-count s s' before inv even

  pub start-AreAt :
      (s s' : Shared os q)
      → HasStarted os q platform fifo d s s'
      → AreAt os q platform fifo d few some_depth (λ j. []) s'
  start-AreAt s s' has j lt =
      Share-start d.queue_depth (length s'.file_read.contexts) some_depth j
        (initial_task platform d (j * d.buffer_size) j) (fifo.tasks (s'.queues j))
        (has.one_task j lt) refl
