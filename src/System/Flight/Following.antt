-- ===== src/System/Flight/Following.antt =====
-- The reads of each thread while reads are in flight.
use mathlib.Core.Path.{subst}
use file_read_speed_test.Base.{
  sym, ◌==◌, if◌then◌else◌, ℕ, suc, ◌+◌, ◌*◌, ◌<◌, ◌≡◌, refl, ap, ◌∙◌, List, [], ◌++◌, length,
  arith,
}
use file_read_speed_test.Words.{Platform, size_mod}
use file_read_speed_test.Win32.{Win32}
use file_read_speed_test.TaskQueue.{TaskQueues, IsFifo}
use file_read_speed_test.ReadTask.{Task, Shared}
use file_read_speed_test.EntryPoint.{Depths, initial_task}
use file_read_speed_test.System.{worker_step, main_step}
use file_read_speed_test.System.Counts.{sum, sum_same, sum_zero, sum_add}
use file_read_speed_test.System.Reads.{times, times_append, first_reads, times-own_reads}
use file_read_speed_test.System.Turns.{AreAt, Share-transport}
use file_read_speed_test.System.Share.{Share-start}
use file_read_speed_test.System.Following.{Step-AreAt, Step-count}
use file_read_speed_test.System.Flight.{
  Flight, FlightStep, issue_step, thread_step, count_step, lose_step, other_step, FlightSteps,
  on_ground, flown, reads_in, own_reads_in, all_reads, reads_of_thread,
}
use file_read_speed_test.ReadTask.Requests.{Asks-reads}
use file_read_speed_test.System.Flight.Asking.{read_shared-Asks, thread-Asks, count-Asks}
use file_read_speed_test.System.Flight.Reading.{read_shared-Reads}
use file_read_speed_test.System.Flight.Flying.{IsFlying, thread_exists}
use file_read_speed_test.System.Flight.Safety.{FlightSteps-IsFlying}
use file_read_speed_test.System.Flight.Launch.{HasTakenOff}

module _ (os : Win32) (q : TaskQueues Task) (platform : Platform) (fifo : IsFifo q) (d : Depths)
    (few : d.thread_count < size_mod platform) where
  -- The reads of a step that is not the next initial one are those of the threads together.
  times-reads_in :
      (k : ℕ) (a b : Flight os q) (step : FlightStep os q platform d a b)
      → IsFlying os q platform fifo d few a
      → times k (reads_in os q step) + times k (first_reads a.issued)
        ≡ times k (first_reads b.issued)
          + sum (λ j. times k (own_reads_in os q j step)) d.thread_count
  times-reads_in k a b (issue_step _ s early reads) flying =
      let none_own = sum_zero (λ j. 0) d.thread_count (λ j lt. refl) in
      let one_more : suc a.issued ≡ a.issued + 1 = omega arith in
      let next = ap (λ (n : ℕ). times k (first_reads n)) one_more in
      let reads_it =
        ap (times k) (
          Asks-reads os q a.shared s _
            (read_shared-Asks os q platform a.shared s a.issued reads)) in
      omega (arith, none_own, next, reads_it)
  times-reads_in k a b (thread_step _ s j t u completion i before after lt popped points given runs)
        flying =
      let (in_range, _) = thread_exists os q platform fifo d few a i before after given flying in
      let own =
        times-own_reads k a.shared s
          (worker_step j t u completion i lt popped points in_range runs) in
      let asks =
        thread-Asks os q platform fifo d few a s j t u completion i before after lt popped points
          given runs flying in
      let own' =
        subst
          (λ (is : List ℕ).
            times k is ≡ sum (λ x. times k (if j == x then is else [])) d.thread_count)
          (sym (Asks-reads os q a.shared s _ asks)) own in
      omega (arith, own')
  times-reads_in k a b (count_step _ s f u late popped runs) flying =
      let none_own = sum_zero (λ j. 0) d.thread_count (λ j lt. refl) in
      let reads_none =
        ap (times k)
          (Asks-reads os q a.shared s _ (count-Asks os q platform fifo d few a s f u runs)) in
      omega (arith, none_own, reads_none)
  times-reads_in k a b (lose_step _ i before after given) flying =
      let none_own = sum_zero (λ j. 0) d.thread_count (λ j lt. refl) in omega (arith, none_own)
  times-reads_in k a b (other_step _ w) flying =
      let none_own = sum_zero (λ j. 0) d.thread_count (λ j lt. refl) in omega (arith, none_own)

  -- The reads of the steps are the initial ones and those of the threads.
  pub times-all_reads :
      (k : ℕ) (a b : Flight os q) (steps : FlightSteps os q platform d a b)
      → IsFlying os q platform fifo d few a
      → times k (all_reads os q steps) + times k (first_reads a.issued)
        ≡ times k (first_reads b.issued)
          + sum (λ j. times k (reads_of_thread os q j steps)) d.thread_count
  times-all_reads k a b on_ground flying =
      let none_own = sum_zero (λ j. 0) d.thread_count (λ j lt. refl) in omega (arith, none_own)
  times-all_reads k a b (flown {b = c} steps step) flying =
      let n = d.thread_count in
      let each =
        sum_same (λ j. times k (own_reads_in os q j step) + times k (reads_of_thread os q j steps))
          (λ j. times k (own_reads_in os q j step ++ reads_of_thread os q j steps)) n
          (λ j lt. times_append k (own_reads_in os q j step) (reads_of_thread os q j steps)) in
      omega (
        arith,
        times_append k (reads_in os q step) (all_reads os q steps),
        times-all_reads k a c steps flying,
        times-reads_in k c b step (FlightSteps-IsFlying os q platform fifo d few a c steps flying),
        each,
        sum_add (λ j. times k (own_reads_in os q j step))
            (λ j. times k (reads_of_thread os q j steps)) n,
      )

  module _ (some_depth : 0 < d.queue_depth) where
    FlightStep-AreAt :
        (a b : Flight os q) (reads : ℕ → List ℕ) (step : FlightStep os q platform d a b)
        → IsFlying os q platform fifo d few a
        → AreAt os q platform fifo d few some_depth reads a.shared
        → AreAt os q platform fifo d few some_depth
            (λ j. own_reads_in os q j step ++ reads j)
            b.shared
    FlightStep-AreAt a b reads (issue_step _ s early read_next) flying are_at j lt =
        let shallow = flying.shallow in
        let r =
          read_shared-Reads os q platform fifo d a.shared s a.issued (omega (arith, shallow, early))
            read_next in
        Share-transport r.same_count refl
          (ap (λ (queues : ℕ → q.Queue). fifo.tasks (queues j)) r.same_queues) (are_at j lt)
    FlightStep-AreAt a b reads
          (thread_step _ s j t u completion k before after lt popped points given runs) flying
          are_at i below =
        let (in_range, _) = thread_exists os q platform fifo d few a k before after given flying in
        let asks =
          thread-Asks os q platform fifo d few a s j t u completion k before after lt popped points
            given runs flying in
        subst
          (λ (is : List ℕ).
            AreAt os q platform fifo d few some_depth (λ x. (if j == x then is else []) ++ reads x)
              s)
          (sym (Asks-reads os q a.shared s _ asks))
          (Step-AreAt os q platform fifo d few some_depth a.shared s reads
            (worker_step j t u completion k lt popped points in_range runs) flying.invariant
            flying.even are_at)
          i below
    FlightStep-AreAt a b reads (count_step _ s f u late popped runs) flying are_at i below =
        Step-AreAt os q platform fifo d few some_depth a.shared s reads (main_step f u popped runs)
          flying.invariant flying.even are_at i below
    FlightStep-AreAt a b reads (lose_step _ k before after given) flying are_at i below =
        are_at i below
    FlightStep-AreAt a b reads (other_step _ w) flying are_at i below = are_at i below

    pub FlightSteps-AreAt :
        (a b : Flight os q) (steps : FlightSteps os q platform d a b)
        → IsFlying os q platform fifo d few a
        → AreAt os q platform fifo d few some_depth (λ j. []) a.shared
        → AreAt os q platform fifo d few some_depth (λ j. reads_of_thread os q j steps) b.shared
    FlightSteps-AreAt a b on_ground flying are_at = are_at
    FlightSteps-AreAt a b (flown {b = c} steps step) flying are_at =
        FlightStep-AreAt c b (λ j. reads_of_thread os q j steps) step
          (FlightSteps-IsFlying os q platform fifo d few a c steps flying)
          (FlightSteps-AreAt a c steps flying are_at)

    FlightStep-count :
        (a b : Flight os q)
        → FlightStep os q platform d a b
        → IsFlying os q platform fifo d few a
        → length b.shared.file_read.contexts ≡ length a.shared.file_read.contexts
    FlightStep-count a b (issue_step _ s early read_next) flying =
        let shallow = flying.shallow in
        (read_shared-Reads os q platform fifo d a.shared s a.issued (omega (arith, shallow, early))
          read_next).same_count
    FlightStep-count a b
          (thread_step _ s j t u completion k before after lt popped points given runs) flying =
        let (in_range, _) = thread_exists os q platform fifo d few a k before after given flying in
        Step-count os q platform fifo d few some_depth a.shared s
          (worker_step j t u completion k lt popped points in_range runs) flying.invariant
          flying.even
    FlightStep-count a b (count_step _ s f u late popped runs) flying =
        Step-count os q platform fifo d few some_depth a.shared s (main_step f u popped runs)
          flying.invariant flying.even
    FlightStep-count a b (lose_step _ k before after given) flying = refl
    FlightStep-count a b (other_step _ w) flying = refl

    pub FlightSteps-count :
        (a b : Flight os q)
        → FlightSteps os q platform d a b
        → IsFlying os q platform fifo d few a
        → length b.shared.file_read.contexts ≡ length a.shared.file_read.contexts
    FlightSteps-count a b on_ground flying = refl
    FlightSteps-count a b (flown {b = c} steps step) flying =
        FlightStep-count c b step (FlightSteps-IsFlying os q platform fifo d few a c steps flying)
        ∙ FlightSteps-count a c steps flying

    pub take_off-AreAt :
        (s : Shared os q) (a : Flight os q)
        → HasTakenOff os q platform fifo d few s a
        → AreAt os q platform fifo d few some_depth (λ j. []) a.shared
    take_off-AreAt s a has j lt =
        Share-start d.queue_depth (length a.shared.file_read.contexts) some_depth j
          (initial_task platform d (j * d.buffer_size) j) (fifo.tasks (a.shared.queues j))
          (has.one_task j lt) refl
