-- ===== src/System/Flight/Progress.antt =====
-- That the threads and `main` never stop while reads are in flight, if there are as many reads as
-- threads.
use mathlib.Core.Path.{subst}
use file_read_speed_test.Base.{
  ℕ, ◌+◌, ◌<◌, ◌≤◌, ◌≡◌, inl, inr, refl, true, false, some, List, [], ◌∷◌, ◌++◌, length, ltb,
  Bool-cases, arith, get_elem?-lt,
}
use file_read_speed_test.Words.{Platform, size_mod}
use file_read_speed_test.Win32.{Win32, Completion}
use file_read_speed_test.TaskQueue.{TaskQueues, IsFifo, IsPrompt}
use file_read_speed_test.ReadTask.{Task, read_task, finished_task}
use file_read_speed_test.EntryPoint.{Depths}
use file_read_speed_test.EntryPoint.InitialReads.{read_shared_in_range}
use file_read_speed_test.System.Counts.{le_sum, tasks_in, try_pop_task-count}
use file_read_speed_test.System.Invariant.{Invariant-popped}
use file_read_speed_test.System.Safety.{run_finished-Invariant}
use file_read_speed_test.System.Moves.{run_read_task-Invariant}
use file_read_speed_test.System.Progress.{some_task_left, pop_some}
use file_read_speed_test.System.Flight.{
  Flight, FlightStep, issue_step, thread_step, count_step, acts,
}
use file_read_speed_test.System.Flight.Flying.{IsFlying, thread_exists}

first_of : (is : List ℕ) → 0 < length is → (k : ℕ) × (rest : List ℕ) × (is ≡ [] ++ (k ∷ rest))
first_of [] pos = absurd (omega arith)
first_of (k ∷ rest) pos = (k, rest, refl)

module _ (os : Win32) (q : TaskQueues Task) (platform : Platform) (fifo : IsFifo q) (d : Depths)
    (few : d.thread_count < size_mod platform) where
  abbrev CanAct : Flight os q → Type 0
  CanAct a = (b : Flight os q) × (step : FlightStep os q platform d a b) × (acts os q step ≡ 1)

  issues :
      (a : Flight os q) → a.issued < d.queue_depth → IsFlying os q platform fifo d few a → CanAct a
  issues a early flying =
      let shallow = flying.shallow in
      let (c, at_i) =
        get_elem?-lt a.shared.file_read.contexts a.issued (omega (arith, early, shallow)) in
      (_, issue_step a _ early (read_shared_in_range os q platform a.shared a.issued c at_i), refl)

  -- While a thread has a task and the initial reads are issued, a read is pending.
  read_pending :
      (a : Flight os q) (j : ℕ)
      → d.thread_count + length a.lost ≤ d.queue_depth
      → d.queue_depth ≤ a.issued
      → j < d.thread_count
      → 0 < tasks_in q fifo a.shared.queues j
      → IsFlying os q platform fifo d few a
      → 0 < length a.pending
  read_pending a j deep late lt some_task flying =
      let balance = flying.even.balance in
      let handed_on = flying.handed_on in
      omega
        (arith, balance, handed_on, le_sum (tasks_in q fifo a.shared.queues) d.thread_count j lt)

  popped_acts :
      (a : Flight os q) (j : ℕ) (task : Task) (u : q.Queue)
      → d.thread_count + length a.lost ≤ d.queue_depth
      → d.queue_depth ≤ a.issued
      → j ≤ d.thread_count
      → q.try_pop_task (a.shared.queues j) ≡ (some task, u)
      → IsFlying os q platform fifo d few a
      → CanAct a
  popped_acts a j (read_task t) u deep late le popped flying =
      let ((lt, sound), inv') =
        Invariant-popped os q fifo d platform a.shared flying.invariant j u (read_task t) le
          popped in
      let (fewer, _) = try_pop_task-count q fifo (a.shared.queues j) u (read_task t) popped in
      let (k, rest, given) =
        first_of a.pending (read_pending a j deep late lt (omega (arith, fewer)) flying) in
      let (in_range, _) = thread_exists os q platform fifo d few a k [] rest given flying in
      let completion : Completion = record {
        result = true;
        completion_key = 0;
        context = some k;
      } in
      let (s, runs, _, _) =
        run_read_task-Invariant os q platform fifo d j t _ completion k lt sound refl in_range
          inv' in
      (_, thread_step a s j t u completion k [] rest lt popped refl given runs, refl)
  popped_acts a j (finished_task f) u deep late le popped flying =
      let inv = flying.invariant in
      let (sound, _) =
        Invariant-popped os q fifo d platform a.shared inv j u (finished_task f) le popped in
      let popped' =
        subst (λ (i : ℕ). q.try_pop_task (a.shared.queues i) ≡ (some (finished_task f), u)) sound.0
          popped in
      let (_, inv') =
        Invariant-popped os q fifo d platform a.shared inv d.thread_count u (finished_task f)
          (omega arith) popped' in
      let (s, runs, _) = run_finished-Invariant os q platform fifo d f _ sound.2 inv' in
      (_, count_step a s f u late popped' runs, refl)

  pub flies_on :
      (a : Flight os q)
      → IsPrompt q fifo
      → 0 < d.thread_count
      → d.thread_count + length a.lost ≤ d.queue_depth
      → IsFlying os q platform fifo d few a
      → q.is_shutting_down (a.shared.queues d.thread_count) ≡ false
      → CanAct a
  flies_on a prompt some_thread deep flying is_open =
      elim (Bool-cases (ltb a.issued d.queue_depth)) [
        | inl early ↦ issues a (ground arith) flying
        | inr not_early ↦
            let late : d.queue_depth ≤ a.issued = ground arith in
            let (j, le, pos) =
              some_task_left os q platform fifo d few a.shared some_thread flying.even is_open in
            let (task, u, popped) =
              pop_some os q platform fifo d few prompt (a.shared.queues j) pos in
            popped_acts a j task u deep late le popped flying
      ]
