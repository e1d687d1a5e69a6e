-- ===== src/System/Termination.antt =====
-- That every schedule comes to an end, and with it the loop of `main`.
use file_read_speed_test.Base.{
  ℕ, zero, suc, ◌+◌, ◌*◌, ◌<◌, ◌≤◌, ◌≡◌, inl, inr, ap, true, false, some, length, arith, Bool-cases,
  ◌>>◌,
}
use file_read_speed_test.Words.{Platform, size_mod}
use file_read_speed_test.Win32.{Win32}
use file_read_speed_test.TaskQueue.{TaskQueues, IsFifo, IsPrompt, IsResponsive}
use file_read_speed_test.ReadTask.{Task, Shared}
use file_read_speed_test.EntryPoint.{Depths, add_initial_tasks, issue_initial_reads}
use file_read_speed_test.System.{Steps, here, and_then}
use file_read_speed_test.System.Counts.{sum_bounded}
use file_read_speed_test.System.Invariant.{Invariant}
use file_read_speed_test.System.Shutdown.{IsEven, Steps-IsBalanced}
use file_read_speed_test.System.Ready.{IsReadyToStart}
use file_read_speed_test.System.Launch.{HasStarted, starts-HasStarted}
use file_read_speed_test.System.Work.{work, weights, runs_in, Step-work, Steps-work}
use file_read_speed_test.System.Progress.{runs_on}

module _ (os : Win32) (q : TaskQueues Task) (platform : Platform) (fifo : IsFifo q) (d : Depths)
    (few : d.thread_count < size_mod platform) (some_depth : 0 < d.queue_depth) where
  runs_on_less :
      (s s' : Shared os q)
      → IsPrompt q fifo
      → 0 < d.thread_count
      → Invariant os q fifo d s
      → IsEven os q platform fifo d few s
      → Steps os q platform d.thread_count s s'
      → q.is_shutting_down (s'.queues d.thread_count) ≡ false
      → (next : Shared os q) × (work os q platform fifo d few some_depth next + 1
          ≤ work os q platform fifo d few some_depth s')
        × Steps os q platform d.thread_count s next
  runs_on_less s s' prompt some_thread inv even steps is_open =
      let (inv', even') = Steps-IsBalanced os q platform fifo d few s s' steps inv even in
      let (next, step, one) =
        runs_on os q platform fifo d few s' prompt some_thread inv' even' is_open in
      let less = Step-work os q platform fifo d few some_depth s' next step inv' even' in
      (next, omega (arith, less, one), and_then s' next steps step)

  closes_within :
      (fuel : ℕ) (s s' : Shared os q)
      → IsPrompt q fifo
      → 0 < d.thread_count
      → Invariant os q fifo d s
      → IsEven os q platform fifo d few s
      → Steps os q platform d.thread_count s s'
      → work os q platform fifo d few some_depth s' ≤ fuel
      → (s'' : Shared os q) × Steps os q platform d.thread_count s s''
        × (q.is_shutting_down (s''.queues d.thread_count) ≡ true)
  closes_within zero s s' prompt some_thread inv even steps enough =
      elim (Bool-cases (q.is_shutting_down (s'.queues d.thread_count))) [
        | inl shut ↦ (s', steps, shut)
        | inr is_open ↦
            let (next, less, _) = runs_on_less s s' prompt some_thread inv even steps is_open in
            absurd (omega (arith, less))
      ]
  closes_within (suc fuel) s s' prompt some_thread inv even steps enough =
      elim (Bool-cases (q.is_shutting_down (s'.queues d.thread_count))) [
        | inl shut ↦ (s', steps, shut)
        | inr is_open ↦
            let (next, less, steps') =
              runs_on_less s s' prompt some_thread inv even steps is_open in
            closes_within fuel s next prompt some_thread inv even steps' (omega (arith, less))
      ]

  start-work :
      (s s' : Shared os q)
      → HasStarted os q platform fifo d s s'
      → work os q platform fifo d few some_depth s'
        ≤ d.thread_count * (length s.file_read.contexts + 2)
  start-work s s' has =
      let n = d.thread_count in
      let count = length s'.file_read.contexts in
      let each : (j : ℕ) → j < n → weights count (fifo.tasks (s'.queues j)) ≤ count + 2 =
        λ j lt. let one = ap (weights count) (has.one_task j lt) in omega (arith, one) in
      let none_there = ap (weights count) has.no_message in
      let bound = sum_bounded (λ j. weights count (fifo.tasks (s'.queues j))) n (count + 2) each in
      let same = ap (λ (c : ℕ). n * (c + 2)) has.same_count in
      omega (arith, none_there, bound, same)

  -- With a queue of a depth other than 0 and responsive queues, from shared objects that are ready
  -- to start (a prepared file whose size is no multiple of the buffer's, a queue that is not deeper
  -- than the number of contexts, empty and open queues, a counter of 0, sums and products that
  -- fit): once the initial tasks are added and the initial reads are issued, any steps in any order
  -- run at most `thread_count * (n + 2)` tasks, where `n` is the number of contexts.
  runs_are_bounded :
      (s s' s'' : Shared os q)
      → IsResponsive q
      → IsReadyToStart os q platform fifo d s
      → (add_initial_tasks os q platform d d.thread_count 0 0
            >> issue_initial_reads os q platform d)
          s
        ≡ some (tt, s')
      → (steps : Steps os q platform d.thread_count s' s'')
      → runs_in steps ≤ d.thread_count * (length s.file_read.contexts + 2)
  runs_are_bounded s s' s'' responsive ready starts steps =
      let has = starts-HasStarted os q platform fifo d s s' responsive ready starts in
      omega (
        arith,
        start-work s s' has,
        Steps-work os q platform fifo d few some_depth s' s'' steps has.invariant has.even,
      )

  -- With at least one thread, a queue of a depth other than 0, and queues that are prompt and
  -- responsive, from shared objects that are ready to start (a prepared file whose size is no
  -- multiple of the buffer's, a queue that is not deeper than the number of contexts, empty and
  -- open queues, a counter of 0, sums and products that fit): once the initial tasks are added and
  -- the initial reads are issued, and after any further steps in any order, there are steps, on
  -- completions of some contexts, that shut the main queue down.
  shuts_down :
      (s s' s'' : Shared os q)
      → IsResponsive q
      → IsPrompt q fifo
      → 0 < d.thread_count
      → IsReadyToStart os q platform fifo d s
      → (add_initial_tasks os q platform d d.thread_count 0 0
            >> issue_initial_reads os q platform d)
          s
        ≡ some (tt, s')
      → Steps os q platform d.thread_count s' s''
      → (end : Shared os q) × Steps os q platform d.thread_count s'' end
        × (q.is_shutting_down (end.queues d.thread_count) ≡ true)
  shuts_down s s' s'' responsive prompt some_thread ready starts steps =
      let has = starts-HasStarted os q platform fifo d s s' responsive ready starts in
      let (inv, even) =
        Steps-IsBalanced os q platform fifo d few s' s'' steps has.invariant has.even in
      closes_within (work os q platform fifo d few some_depth s'') s'' s'' prompt some_thread inv
        even here (omega arith)
