-- ===== src/System/Flight/Landing.antt =====
-- What is still pending when the main queue shuts down.
use file_read_speed_test.Base.{
  ◌+◌, ◌<◌, ◌≡◌, ◌≢◌, inl, inr, sym, ◌∙◌, true, false, some, length, ◌==◌, ==_iff, Bool-cases,
  arith,
}
use file_read_speed_test.Words.{Platform, size_mod}
use file_read_speed_test.Win32.{Win32}
use file_read_speed_test.TaskQueue.{TaskQueues, IsFifo, IsResponsive, okay}
use file_read_speed_test.ReadTask.{Task, Shared}
use file_read_speed_test.EntryPoint.{Depths, add_initial_tasks}
use file_read_speed_test.System.Ready.{IsReadyToStart}
use file_read_speed_test.System.Flight.{Flight, FlightSteps, take_off}
use file_read_speed_test.System.Flight.Flying.{IsFlying}
use file_read_speed_test.System.Flight.Safety.{FlightSteps-IsFlying}
use file_read_speed_test.System.Flight.Launch.{take_off-HasTakenOff}

module _ (os : Win32) (q : TaskQueues Task) (platform : Platform) (fifo : IsFifo q) (d : Depths)
    (few : d.thread_count < size_mod platform) where
  pub shut-IsFlying :
      (a : Flight os q)
      → 0 < d.thread_count
      → IsFlying os q platform fifo d few a
      → q.is_shutting_down (a.shared.queues d.thread_count) ≡ true
      → (a.issued ≡ d.queue_depth)
        × (length a.pending + length a.lost + d.thread_count ≡ d.queue_depth)
  shut-IsFlying a some_thread flying shut =
      let n = d.thread_count in
      let balance = flying.even.balance in
      let handed_on = flying.handed_on in
      elim (Bool-cases (a.shared.completed_threads == n)) [
        | inl all ↦
            let all' : a.shared.completed_threads ≡ n = (==_iff _ n).0 all in
            let late = flying.counts_late (omega (arith, all', some_thread)) in
            (late, omega (arith, late, all', handed_on, balance))
        | inr not_all ↦
            let ne : a.shared.completed_threads ≢ n = λ e. let yes = (==_iff _ n).1 e in cc in
            let is_open = flying.even.main_open (omega (arith, balance, ne)) in
            absurd (let contra : true ≡ false = sym shut ∙ is_open in cc)
      ]

module _ (os : Win32) (q : TaskQueues Task) (platform : Platform) (fifo : IsFifo q)
    (d : Depths) where
  -- With at least one thread and responsive queues, from shared objects that are ready to start (a
  -- prepared file whose size is no multiple of the buffer's, a queue that is not deeper than the
  -- number of contexts, empty and open queues, a counter of 0, sums and products that fit): once
  -- the initial tasks are added, when, after any steps of `main` and the threads in any order, in
  -- which `ReadFile` makes reads pending, each wait is given a pending one and reads may be lost,
  -- the main queue is shut down, all the initial reads have been issued, and as many reads are
  -- still pending or lost as the queue is deeper than there are threads.
  pub lands_with_pending :
      (s s' : Shared os q) (b : Flight os q)
      → 0 < d.thread_count
      → IsResponsive q
      → IsReadyToStart os q platform fifo d s
      → add_initial_tasks os q platform d d.thread_count 0 0 s ≡ some (okay, s')
      → FlightSteps os q platform d (take_off os q s') b
      → q.is_shutting_down (b.shared.queues d.thread_count) ≡ true
      → (b.issued ≡ d.queue_depth)
        × (length b.pending + length b.lost + d.thread_count ≡ d.queue_depth)
  lands_with_pending s s' b some_thread responsive ready adds steps shut =
      let few = ready.few_threads in
      let has = take_off-HasTakenOff os q platform fifo d few s s' responsive ready adds in
      shut-IsFlying os q platform fifo d few b some_thread
        (FlightSteps-IsFlying os q platform fifo d few _ b steps has.flying) shut
