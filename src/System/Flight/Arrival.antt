-- ===== src/System/Flight/Arrival.antt =====
-- What has been read and completed when the main queue shuts down.
use file_read_speed_test.Base.{
  ℕ, ◌+◌, ◌<◌, ◌≡◌, refl, sym, ap, ◌∙◌, true, some, List, [], ◌∷◌, length, ltb, if◌then◌else◌,
  arith,
}
use file_read_speed_test.Words.{Platform, size_mod}
use file_read_speed_test.Win32.{Win32}
use file_read_speed_test.TaskQueue.{TaskQueues, IsFifo, IsResponsive, okay}
use file_read_speed_test.ReadTask.{Task, Shared}
use file_read_speed_test.EntryPoint.{Depths, add_initial_tasks}
use file_read_speed_test.System.Counts.{sum}
use file_read_speed_test.System.Ready.{IsReadyToStart}
use file_read_speed_test.System.Shutdown.{none_left}
use file_read_speed_test.System.Reads.{times, times_append, first_reads}
use file_read_speed_test.System.Turns.{AreAt, Share-transport}
use file_read_speed_test.System.Visits.{visits, no_tasks, first_reads-times, total-shares}
use file_read_speed_test.System.Once.{sum-visits}
use file_read_speed_test.System.Flight.{Flight, FlightSteps, take_off, all_reads, reads_of_thread}
use file_read_speed_test.System.Flight.Reading.{IsComplete}
use file_read_speed_test.System.Flight.Flying.{IsFlying}
use file_read_speed_test.System.Flight.Safety.{FlightSteps-IsFlying}
use file_read_speed_test.System.Flight.Launch.{take_off-HasTakenOff}
use file_read_speed_test.System.Flight.Landing.{shut-IsFlying, lands_with_pending}
use file_read_speed_test.System.Flight.Following.{
  times-all_reads, FlightSteps-AreAt, FlightSteps-count, take_off-AreAt,
}
use file_read_speed_test.System.Flight.Completing.{AreComplete, FlightSteps-AreComplete}

no_reads : (is : List ℕ) → length is ≡ 0 → is ≡ []
no_reads [] e = refl
no_reads (i ∷ is) e = absurd (omega (arith, e))

module _ (os : Win32) (q : TaskQueues Task) (platform : Platform) (fifo : IsFifo q) (d : Depths)
    (few : d.thread_count < size_mod platform) (some_depth : 0 < d.queue_depth)
    (some_thread : 0 < d.thread_count) where
  -- From where no thread has read yet: how often a context has been read, with the initial reads.
  landing-times :
      (a b : Flight os q) (k : ℕ) (steps : FlightSteps os q platform d a b)
      → IsFlying os q platform fifo d few a
      → AreAt os q platform fifo d few some_depth (λ j. []) a.shared
      → q.is_shutting_down (b.shared.queues d.thread_count) ≡ true
      → times k (all_reads os q steps) + times k (first_reads a.issued)
        ≡ (if ltb k d.queue_depth then 1 else 0)
          + (if ltb k (length a.shared.file_read.contexts)
              then sum (visits d.queue_depth k) d.thread_count
              else 0)
  landing-times a b k steps flying are_at shut =
      let n = d.thread_count in
      let flying' = FlightSteps-IsFlying os q platform fifo d few a b steps flying in
      let (all_issued, _) = shut-IsFlying os q platform fifo d few b some_thread flying' shut in
      let same_count = FlightSteps-count os q platform fifo d few some_depth a b steps flying in
      let are_at' = FlightSteps-AreAt os q platform fifo d few some_depth a b steps flying are_at in
      let shares = λ (j : ℕ) (lt : j < n).
        Share-transport (sym same_count) refl
          (sym (
            no_tasks (fifo.tasks (b.shared.queues j))
              (none_left os q platform fifo d few b.shared flying'.even shut j (omega arith))))
          (are_at' j lt) in
      omega (
        arith,
        times-all_reads os q platform fifo d few k a b steps flying,
        ap (λ (i : ℕ). times k (first_reads i)) all_issued,
        first_reads-times d.queue_depth k,
        total-shares os q platform fifo d few some_depth k (length a.shared.file_read.contexts)
            (λ j. reads_of_thread os q j steps) shares,
      )

  -- With as deep a queue as there are threads, and where what has been read is pending or complete:
  -- nothing is left, and each context has been read once and is complete.
  pub landing-IsComplete :
      (a b : Flight os q) (steps : FlightSteps os q platform d a b)
      → d.queue_depth ≡ d.thread_count
      → IsFlying os q platform fifo d few a
      → AreAt os q platform fifo d few some_depth (λ j. []) a.shared
      → AreComplete os q platform fifo d few (first_reads a.issued) a
      → q.is_shutting_down (b.shared.queues d.thread_count) ≡ true
      → (b.pending ≡ [])
        × (b.lost ≡ [])
        × ((k : ℕ)
            → k < length a.shared.file_read.contexts
            → (times k (all_reads os q steps) + times k (first_reads a.issued) ≡ 1)
              × IsComplete k b.shared.file_read.contexts)
  landing-IsComplete a b steps same_depth flying are_at are shut =
      let n = d.thread_count in
      let count = length a.shared.file_read.contexts in
      let flying' = FlightSteps-IsFlying os q platform fifo d few a b steps flying in
      let (_, landed) = shut-IsFlying os q platform fifo d few b some_thread flying' shut in
      let nothing = no_reads b.pending (omega (arith, landed, same_depth)) in
      let none_lost = no_reads b.lost (omega (arith, landed, same_depth)) in
      (
        nothing,
        none_lost,
        λ k lt.
            let same =
              ap
                (λ (depth : ℕ).
                  (if ltb k depth then 1 else 0)
                  + (if ltb k count then sum (visits depth k) n else 0))
                same_depth in
            let inside : ltb k count ≡ true = ground arith in
            let once : times k (all_reads os q steps) + times k (first_reads a.issued) ≡ 1 =
              landing-times a b k steps flying are_at shut
              ∙ same
              ∙ rw inside (sum-visits n k some_thread) in
            let appended = times_append k (all_reads os q steps) (first_reads a.issued) in
            (
              once,
              FlightSteps-AreComplete os q platform fifo d few a b (first_reads a.issued) steps
                  flying are k (omega (arith, once, appended))
                  (omega (arith, ap (times k) nothing, ap (times k) none_lost)),
            ),
      )

module _ (os : Win32) (q : TaskQueues Task) (platform : Platform) (fifo : IsFifo q)
    (d : Depths) where
  -- With at least one thread and responsive queues, from shared objects that are ready to start (a
  -- prepared file whose size is no multiple of the buffer's, a queue that is not deeper than the
  -- number of contexts, empty and open queues, a counter of 0, sums and products that fit): once
  -- the initial tasks are added, when, after any steps of `main` and the threads in any order, in
  -- which `ReadFile` makes reads pending, each wait is given a pending one and reads may be lost,
  -- the main queue is shut down, a context has been given to `ReadFile` once if its number is below
  -- the depth, and once more for each thread with a smaller number of the same residue modulo the
  -- depth, and nothing else has.
  pub reads_on_landing :
      (s s' : Shared os q) (b : Flight os q) (k : ℕ)
      → 0 < d.thread_count
      → IsResponsive q
      → IsReadyToStart os q platform fifo d s
      → add_initial_tasks os q platform d d.thread_count 0 0 s ≡ some (okay, s')
      → (steps : FlightSteps os q platform d (take_off os q s') b)
      → q.is_shutting_down (b.shared.queues d.thread_count) ≡ true
      → times k (all_reads os q steps)
        ≡ (if ltb k d.queue_depth then 1 else 0)
          + (if ltb k (length s.file_read.contexts)
              then sum (visits d.queue_depth k) d.thread_count
              else 0)
  reads_on_landing s s' b k some_thread responsive ready adds steps shut =
      let few = ready.few_threads in
      let a = take_off os q s' in
      let has = take_off-HasTakenOff os q platform fifo d few s s' responsive ready adds in
      let (_, landed) =
        lands_with_pending os q platform fifo d s s' b some_thread responsive ready adds steps
          shut in
      let some_depth : 0 < d.queue_depth = omega (arith, landed) in
      let counted =
        landing-times os q platform fifo d few some_depth some_thread a b k steps has.flying
          (take_off-AreAt os q platform fifo d few some_depth s a has) shut in
      let same_count =
        ap (λ (n : ℕ). if ltb k n then sum (visits d.queue_depth k) d.thread_count else 0)
          has.same_count in
      omega (arith, counted, same_count)

  -- With as deep a queue as there are threads, at least one thread, and responsive queues, from
  -- shared objects that are ready to start (a prepared file whose size is no multiple of the
  -- buffer's, a queue that is not deeper than the number of contexts, empty and open queues, a
  -- counter of 0, sums and products that fit): once the initial tasks are added, when, after any
  -- steps of `main`, which issues the initial reads, and of the threads, in any order, in which
  -- `ReadFile` makes reads pending, each wait is given a pending one and reads may be lost, the
  -- main queue is shut down, no read is pending or lost, and each context has been given to
  -- `ReadFile` exactly once and is complete.
  pub contexts_on_landing :
      (s s' : Shared os q) (b : Flight os q)
      → d.queue_depth ≡ d.thread_count
      → 0 < d.thread_count
      → IsResponsive q
      → IsReadyToStart os q platform fifo d s
      → add_initial_tasks os q platform d d.thread_count 0 0 s ≡ some (okay, s')
      → (steps : FlightSteps os q platform d (take_off os q s') b)
      → q.is_shutting_down (b.shared.queues d.thread_count) ≡ true
      → (b.pending ≡ [])
        × (b.lost ≡ [])
        × ((k : ℕ)
            → k < length s.file_read.contexts
            → (times k (all_reads os q steps) ≡ 1) × IsComplete k b.shared.file_read.contexts)
  contexts_on_landing s s' b same_depth some_thread responsive ready adds steps shut =
      let few = ready.few_threads in
      let a = take_off os q s' in
      let has = take_off-HasTakenOff os q platform fifo d few s s' responsive ready adds in
      let some_depth : 0 < d.queue_depth = omega arith in
      let (nothing, none_lost, each) =
        landing-IsComplete os q platform fifo d few some_depth some_thread a b steps same_depth
          has.flying (take_off-AreAt os q platform fifo d few some_depth s a has)
          (λ k was_read. absurd (omega arith)) shut in
      (
        nothing,
        none_lost,
        λ k lt.
            let (once, complete) = each k (rw has.same_count lt) in (omega (arith, once), complete),
      )
