-- ===== src/System/Flight/Return.antt =====
-- That the main queue can always still be shut down.
use file_read_speed_test.Base.{
  ◌∙◌, List, sym, ap, [], ℕ, zero, suc, ◌+◌, ◌<◌, ◌≤◌, ◌≡◌, inl, inr, refl, true, length, some,
  Bool-cases, arith,
}
use file_read_speed_test.Words.{Platform, size_mod}
use file_read_speed_test.Win32.{Win32}
use file_read_speed_test.TaskQueue.{TaskQueues, IsFifo, IsResponsive, IsPrompt, okay}
use file_read_speed_test.ReadTask.{Task, Shared}
use file_read_speed_test.EntryPoint.{Depths, add_initial_tasks}
use file_read_speed_test.System.Ready.{IsReadyToStart}
use file_read_speed_test.System.Flight.{
  Flight, FlightStep, issue_step, thread_step, count_step, lose_step, other_step, FlightSteps,
  on_ground, flown, take_off, acts, all_reads, reads_in,
}
use file_read_speed_test.System.Flight.Flying.{IsFlying}
use file_read_speed_test.System.Flight.Safety.{FlightSteps-IsFlying}
use file_read_speed_test.System.Flight.Launch.{take_off-HasTakenOff}
use file_read_speed_test.System.Reads.{times, times_append}
use file_read_speed_test.System.Flight.Arrival.{contexts_on_landing}
use file_read_speed_test.System.Flight.Reading.{IsComplete}
use file_read_speed_test.System.Flight.Progress.{flies_on}
use file_read_speed_test.System.Flight.Termination.{left, FlightSteps-left}

module _ (os : Win32) (q : TaskQueues Task) (platform : Platform) (fifo : IsFifo q)
    (d : Depths) where
  -- A step that runs code loses no read.
  loses_none :
      (a b : Flight os q) (step : FlightStep os q platform d a b)
      → acts os q step ≡ 1
      → length b.lost ≡ length a.lost
  loses_none a b (issue_step _ s early reads) e = refl
  loses_none a b (thread_step _ s j t u completion k before after lt popped points given runs) e =
      refl
  loses_none a b (count_step _ s f u late popped runs) e = refl
  loses_none a b (lose_step _ k before after given) e = absurd (omega (arith, e))
  loses_none a b (other_step _ w) e = refl

  lands_within :
      (few : d.thread_count < size_mod platform) (some_depth : 0 < d.queue_depth) (fuel : ℕ)
      (a b : Flight os q)
      → IsPrompt q fifo
      → 0 < d.thread_count
      → d.thread_count + length b.lost ≤ d.queue_depth
      → IsFlying os q platform fifo d few a
      → FlightSteps os q platform d a b
      → left os q platform fifo d few some_depth b < fuel
      → (c : Flight os q) × FlightSteps os q platform d a c
        × (q.is_shutting_down (c.shared.queues d.thread_count) ≡ true)
  lands_within few some_depth zero a b prompt some_thread deep flying steps enough =
      absurd (omega (arith, enough))
  lands_within few some_depth (suc fuel) a b prompt some_thread deep flying steps enough =
      elim (Bool-cases (q.is_shutting_down (b.shared.queues d.thread_count))) [
        | inl shut ↦ (b, steps, shut)
        | inr is_open ↦
            let flying' = FlightSteps-IsFlying os q platform fifo d few a b steps flying in
            let (c, step, acts_once) =
              flies_on os q platform fifo d few b prompt some_thread deep flying' is_open in
            let same = loses_none b c step acts_once in
            let less =
              FlightSteps-left os q platform fifo d few some_depth b c (flown on_ground step)
                flying' in
            lands_within few some_depth fuel a c prompt some_thread (omega (arith, deep, same))
              flying (flown steps step) (omega (arith, less, acts_once, enough))
      ]

  -- With at least one thread, a queue that is at least as deep as the number of threads and of lost
  -- reads together, and queues that are prompt and responsive, from shared objects that are ready
  -- to start (a prepared file whose size is no multiple of the buffer's, a queue that is not deeper
  -- than the number of contexts, empty and open queues, a counter of 0, sums and products that
  -- fit): once the initial tasks are added, after any steps of `main` and the threads in any order,
  -- in which `ReadFile` makes reads pending, each wait is given a pending one and reads may be
  -- lost, there are further steps that shut the main queue down.
  pub always_lands :
      (s s' : Shared os q) (b : Flight os q)
      → 0 < d.thread_count
      → d.thread_count + length b.lost ≤ d.queue_depth
      → IsResponsive q
      → IsPrompt q fifo
      → IsReadyToStart os q platform fifo d s
      → add_initial_tasks os q platform d d.thread_count 0 0 s ≡ some (okay, s')
      → FlightSteps os q platform d (take_off os q s') b
      → (c : Flight os q) × FlightSteps os q platform d b c
        × (q.is_shutting_down (c.shared.queues d.thread_count) ≡ true)
  always_lands s s' b some_thread deep responsive prompt ready adds steps =
      let few = ready.few_threads in
      let has = take_off-HasTakenOff os q platform fifo d few s s' responsive ready adds in
      let some_depth : 0 < d.queue_depth = omega (arith, deep) in
      lands_within few some_depth (left os q platform fifo d few some_depth b + 1) b b prompt
        some_thread deep (FlightSteps-IsFlying os q platform fifo d few _ b steps has.flying)
        on_ground (omega arith)

  abbrev append_steps :
      (a b c : Flight os q)
      → FlightSteps os q platform d a b
      → FlightSteps os q platform d b c
      → FlightSteps os q platform d a c
  append_steps a b c steps on_ground = steps
  append_steps a b c steps (flown {b = x} before step) =
      flown (append_steps a b x steps before) step

  times-append_steps :
      (k : ℕ) (a b c : Flight os q) (steps : FlightSteps os q platform d a b)
      (later : FlightSteps os q platform d b c)
      → times k (all_reads os q (append_steps a b c steps later))
        ≡ times k (all_reads os q later) + times k (all_reads os q steps)
  times-append_steps k a b c steps on_ground = omega arith
  times-append_steps k a b c steps (flown {b = x} before step) = omega (
    arith,
    times_append k (reads_in os q step) (all_reads os q before),
    times_append k (reads_in os q step) (all_reads os q (append_steps a b x steps before)),
    times-append_steps k a b x steps before,
  )

  -- With as deep a queue as there are threads, at least one thread, and queues that are prompt and
  -- responsive, from shared objects that are ready to start (a prepared file whose size is no
  -- multiple of the buffer's, a queue that is not deeper than the number of contexts, empty and
  -- open queues, a counter of 0, sums and products that fit): once the initial tasks are added,
  -- after any steps of `main` and the threads in any order, in which `ReadFile` makes reads
  -- pending, each wait is given a pending one and no read is lost, there are further steps that
  -- shut the main queue down, at which no read is pending, and each context has been given to
  -- `ReadFile` exactly once in all these steps and is complete.
  pub all_read_in_the_end :
      (s s' : Shared os q) (b : Flight os q)
      → d.queue_depth ≡ d.thread_count
      → 0 < d.thread_count
      → b.lost ≡ []
      → IsResponsive q
      → IsPrompt q fifo
      → IsReadyToStart os q platform fifo d s
      → add_initial_tasks os q platform d d.thread_count 0 0 s ≡ some (okay, s')
      → (steps : FlightSteps os q platform d (take_off os q s') b)
      → (c : Flight os q) × (later : FlightSteps os q platform d b c) × (q.is_shutting_down
            (c.shared.queues d.thread_count)
          ≡ true)
        × (c.pending ≡ [])
        × ((k : ℕ)
            → k < length s.file_read.contexts
            → (times k (all_reads os q later) + times k (all_reads os q steps) ≡ 1)
              × IsComplete k c.shared.file_read.contexts)
  all_read_in_the_end s s' b same_depth some_thread none_lost responsive prompt ready adds steps =
      let a = take_off os q s' in
      let lost_count = ap (λ (is : List ℕ). length is) none_lost in
      let (c, later, shut) =
        always_lands s s' b some_thread (omega (arith, same_depth, lost_count)) responsive prompt
          ready adds steps in
      let (nothing, _, each) =
        contexts_on_landing os q platform fifo d s s' c same_depth some_thread responsive ready adds
          (append_steps a b c steps later) shut in
      (
        c,
        later,
        shut,
        nothing,
        λ k lt.
            let (once, complete) = each k lt in
            (sym (times-append_steps k a b c steps later) ∙ once, complete),
      )
