-- ===== src/System/Flight/Termination.antt =====
-- That every schedule with reads in flight comes to an end.
use file_read_speed_test.Base.{ℕ, ◌+◌, ◌-◌, ◌*◌, ◌<◌, ◌≤◌, ◌≡◌, ap, ◌∙◌, some, length, arith}
use file_read_speed_test.Words.{Platform, size_mod}
use file_read_speed_test.Win32.{Win32}
use file_read_speed_test.TaskQueue.{TaskQueues, IsFifo, IsResponsive, okay}
use file_read_speed_test.ReadTask.{Task, Shared}
use file_read_speed_test.EntryPoint.{Depths, add_initial_tasks}
use file_read_speed_test.System.{worker_step, main_step}
use file_read_speed_test.System.Counts.{sum_bounded}
use file_read_speed_test.System.Ready.{IsReadyToStart}
use file_read_speed_test.System.Work.{work, total, weights, Step-work}
use file_read_speed_test.System.Flight.{
  Flight, FlightStep, issue_step, thread_step, count_step, lose_step, other_step, FlightSteps,
  on_ground, flown, take_off, acts, acts_in,
}
use file_read_speed_test.System.Flight.Reading.{Reads, read_shared-Reads}
use file_read_speed_test.System.Flight.Flying.{IsFlying, thread_exists}
use file_read_speed_test.System.Flight.Safety.{FlightSteps-IsFlying}
use file_read_speed_test.System.Flight.Launch.{HasTakenOff, take_off-HasTakenOff}

module _ (os : Win32) (q : TaskQueues Task) (platform : Platform) (fifo : IsFifo q) (d : Depths)
    (few : d.thread_count < size_mod platform) (some_depth : 0 < d.queue_depth) where
  -- The work that is left in the queues, and the initial reads that are left.
  abbrev pub left : Flight os q → ℕ
  left a = work os q platform fifo d few some_depth a.shared + (d.queue_depth - a.issued)

  Reads-work :
      (s s' : Shared os q)
      → Reads os q platform fifo d s s'
      → work os q platform fifo d few some_depth s' ≡ work os q platform fifo d few some_depth s
  Reads-work s s' r =
      ap (λ (n : ℕ). total q fifo n d.thread_count s'.queues) r.same_count
      ∙ ap (total q fifo (length s.file_read.contexts) d.thread_count) r.same_queues

  FlightStep-left :
      (a b : Flight os q) (step : FlightStep os q platform d a b)
      → IsFlying os q platform fifo d few a
      → acts os q step + left b ≤ left a
  FlightStep-left a b (issue_step _ s early reads) flying =
      let shallow = flying.shallow in
      let r =
        read_shared-Reads os q platform fifo d a.shared s a.issued (omega (arith, shallow, early))
          reads in
      omega (arith, Reads-work a.shared s r, early)
  FlightStep-left a b (thread_step _ s j t u completion k before after lt popped points given runs)
        flying =
      let (in_range, _) = thread_exists os q platform fifo d few a k before after given flying in
      let less =
        Step-work os q platform fifo d few some_depth a.shared s
          (worker_step j t u completion k lt popped points in_range runs) flying.invariant
          flying.even in
      omega (arith, less)
  FlightStep-left a b (count_step _ s f u late popped runs) flying =
      let less =
        Step-work os q platform fifo d few some_depth a.shared s (main_step f u popped runs)
          flying.invariant flying.even in
      omega (arith, less)
  FlightStep-left a b (lose_step _ k before after given) flying = omega arith
  FlightStep-left a b (other_step _ w) flying = omega arith

  pub FlightSteps-left :
      (a b : Flight os q) (steps : FlightSteps os q platform d a b)
      → IsFlying os q platform fifo d few a
      → acts_in os q steps + left b ≤ left a
  FlightSteps-left a b on_ground flying = omega arith
  FlightSteps-left a b (flown {b = c} steps step) flying =
      let flying' = FlightSteps-IsFlying os q platform fifo d few a c steps flying in
      omega (arith, FlightSteps-left a c steps flying, FlightStep-left c b step flying')

  take_off-left :
      (s : Shared os q) (a : Flight os q)
      → HasTakenOff os q platform fifo d few s a
      → left a ≤ d.thread_count * (length s.file_read.contexts + 2) + d.queue_depth
  take_off-left s a has =
      let n = d.thread_count in
      let count = length a.shared.file_read.contexts in
      let each : (j : ℕ) → j < n → weights count (fifo.tasks (a.shared.queues j)) ≤ count + 2 =
        λ j lt. let one = ap (weights count) (has.one_task j lt) in omega (arith, one) in
      let none_there = ap (weights count) has.no_message in
      let bound =
        sum_bounded (λ j. weights count (fifo.tasks (a.shared.queues j))) n (count + 2) each in
      let same = ap (λ (c : ℕ). n * (c + 2)) has.same_count in
      omega (arith, none_there, bound, same)

module _ (os : Win32) (q : TaskQueues Task) (platform : Platform) (fifo : IsFifo q)
    (d : Depths) where
  -- With a queue of a depth other than 0 and responsive queues, from shared objects that are ready
  -- to start (a prepared file whose size is no multiple of the buffer's, a queue that is not deeper
  -- than the number of contexts, empty and open queues, a counter of 0, sums and products that
  -- fit): once the initial tasks are added, any steps of `main` and the threads in any order, in
  -- which `ReadFile` makes reads pending, each wait is given a pending one and reads may be lost,
  -- issue the initial reads and run tasks at most `thread_count * (n + 2) + queue_depth` times
  -- together, where `n` is the number of contexts.
  pub acts_are_bounded :
      (s s' : Shared os q) (b : Flight os q)
      → 0 < d.queue_depth
      → IsResponsive q
      → IsReadyToStart os q platform fifo d s
      → add_initial_tasks os q platform d d.thread_count 0 0 s ≡ some (okay, s')
      → (steps : FlightSteps os q platform d (take_off os q s') b)
      → acts_in os q steps ≤ d.thread_count * (length s.file_read.contexts + 2) + d.queue_depth
  acts_are_bounded s s' b some_depth responsive ready adds steps =
      let few = ready.few_threads in
      let has = take_off-HasTakenOff os q platform fifo d few s s' responsive ready adds in
      omega (
        arith,
        take_off-left os q platform fifo d few some_depth s (take_off os q s') has,
        FlightSteps-left os q platform fifo d few some_depth (take_off os q s') b steps has.flying,
      )
