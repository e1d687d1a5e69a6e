-- ===== src/System/Progress.antt =====
-- That the threads and the main thread never stop before the main queue shuts down.
use mathlib.Core.Path.{subst}
use file_read_speed_test.Base.{
  ℕ, suc, ◌<◌, ◌≤◌, ◌≡◌, ◌≢◌, inl, inr, refl, sym, ap, ◌∙◌, true, false, some, List, [], length,
  arith, Bool-cases, ◌==◌, ==_iff, ◌>>◌, ◌%◌, Option, lt-ceil_of_mul-lt,
}
use file_read_speed_test.Words.{Platform, size_mod}
use file_read_speed_test.Win32.{Win32, Completion}
use file_read_speed_test.TaskQueue.{TaskQueues, IsFifo, IsPrompt, IsResponsive}
use file_read_speed_test.ReadTask.{Task, read_task, finished_task, Shared}
use file_read_speed_test.EntryPoint.{Depths, add_initial_tasks, issue_initial_reads}
use file_read_speed_test.System.{Step, worker_step, main_step, Steps}
use file_read_speed_test.System.Counts.{sum, positive_in_sum, tasks_in}
use file_read_speed_test.System.Invariant.{Invariant, Invariant-popped}
use file_read_speed_test.System.Safety.{run_finished-Invariant}
use file_read_speed_test.System.Shutdown.{IsEven, Steps-IsBalanced}
use file_read_speed_test.System.Moves.{run_read_task-Invariant}
use file_read_speed_test.System.Ready.{IsReadyToStart}
use file_read_speed_test.System.Launch.{starts-HasStarted}
use file_read_speed_test.System.Work.{run_of}

zero_mod : (size b : ℕ) → size ≡ 0 → 0 < b → size % b ≡ 0
zero_mod size b e pos = grind arith

module _ (os : Win32) (q : TaskQueues Task) (platform : Platform) (fifo : IsFifo q) (d : Depths)
    (few : d.thread_count < size_mod platform) where
  -- While the main queue is open, one of the queues has a task.
  pub some_task_left :
      (s : Shared os q)
      → 0 < d.thread_count
      → IsEven os q platform fifo d few s
      → q.is_shutting_down (s.queues d.thread_count) ≡ false
      → (j : ℕ) × (j ≤ d.thread_count) × (0 < tasks_in q fifo s.queues j)
  some_task_left s some_thread even is_open =
      let n = d.thread_count in
      let balance = even.balance in
      elim (Bool-cases (s.completed_threads == n)) [
        | inl all ↦
            let shut = even.main_closed some_thread ((==_iff _ n).0 all) in
            absurd (let contra : true ≡ false = sym shut ∙ is_open in cc)
        | inr not_all ↦
            let ne : s.completed_threads ≢ n = λ e. let yes = (==_iff _ n).1 e in cc in
            let le : s.completed_threads ≤ n = omega (arith, balance) in
            let in_total : 0 < sum (tasks_in q fifo s.queues) (suc n) =
              omega (arith, balance, le) in
            let (j, lt, pos) = positive_in_sum (tasks_in q fifo s.queues) (suc n) in_total in
            (j, omega arith, pos)
      ]

  pub pop_some :
      (prompt : IsPrompt q fifo) (u : q.Queue)
      → 0 < length (fifo.tasks u)
      → (task : Task) × (u' : q.Queue) × (q.try_pop_task u ≡ (some task, u'))
  pop_some prompt u pos =
      let ne : fifo.tasks u ≢ [] =
        λ e. let same = ap (λ (ts : List Task). length ts) e in omega (arith, same) in
      let (task, e) = prompt.pops u ne in
      (task, (q.try_pop_task u).1, ap (λ (o : Option Task). (o, (q.try_pop_task u).1)) e)

  -- There is a context.
  some_context : (s : Shared os q) → Invariant os q fifo d s → 0 < length s.file_read.contexts
  some_context s inv =
      let size = s.file_read.file_size in
      let b = d.buffer_size in
      let nonempty : size ≢ 0 = λ e. inv.ragged (zero_mod size b e inv.prepared.positive) in
      omega (
        arith,
        inv.prepared.covered,
        lt-ceil_of_mul-lt 0 size b inv.prepared.positive (omega arith),
      )

  -- What is popped can be run.
  popped_runs :
      (s : Shared os q) (j : ℕ) (task : Task) (u : q.Queue)
      → j ≤ d.thread_count
      → q.try_pop_task (s.queues j) ≡ (some task, u)
      → Invariant os q fifo d s
      → (s' : Shared os q) × (step : Step os q platform d.thread_count s s') × (run_of step ≡ 1)
  popped_runs s j (read_task t) u le popped inv =
      let ((lt, sound), inv') =
        Invariant-popped os q fifo d platform s inv j u (read_task t) le popped in
      let completion : Completion = record {
        result = true;
        completion_key = 0;
        context = some 0;
      } in
      let in_range : 0 < length s.file_read.contexts = some_context s inv in
      let (s', runs, _, _) =
        run_read_task-Invariant os q platform fifo d j t _ completion 0 lt sound refl in_range
          inv' in
      (s', worker_step j t u completion 0 lt popped refl in_range runs, refl)
  popped_runs s j (finished_task f) u le popped inv =
      let n = d.thread_count in
      let (sound, inv') =
        Invariant-popped os q fifo d platform s inv j u (finished_task f) le popped in
      let popped' =
        subst (λ (i : ℕ). q.try_pop_task (s.queues i) ≡ (some (finished_task f), u)) sound.0
          popped in
      let (sound', inv'') =
        Invariant-popped os q fifo d platform s inv n u (finished_task f) (omega arith) popped' in
      let (s', runs, _) = run_finished-Invariant os q platform fifo d f _ sound'.2 inv'' in
      (s', main_step f u popped' runs, refl)

  pub runs_on :
      (s : Shared os q)
      → IsPrompt q fifo
      → 0 < d.thread_count
      → Invariant os q fifo d s
      → IsEven os q platform fifo d few s
      → q.is_shutting_down (s.queues d.thread_count) ≡ false
      → (s' : Shared os q) × (step : Step os q platform d.thread_count s s') × (run_of step ≡ 1)
  runs_on s prompt some_thread inv even is_open =
      let (j, le, pos) = some_task_left s some_thread even is_open in
      let (task, u, popped) = pop_some prompt (s.queues j) pos in
      popped_runs s j task u le popped inv

  -- With at least one thread and queues that are prompt and responsive, from shared objects that
  -- are ready to start (a prepared file whose size is no multiple of the buffer's, a queue that is
  -- not deeper than the number of contexts, empty and open queues, a counter of 0, sums and
  -- products that fit): once the initial tasks are added and the initial reads are issued, and
  -- after any further steps in any order, as long as the main queue is open there is a step that
  -- runs a task, if it waits, on the completion of some context.
  never_stuck :
      (s s' s'' : Shared os q)
      → IsResponsive q
      → IsPrompt q fifo
      → 0 < d.thread_count
      → IsReadyToStart os q platform fifo d s
      → (add_initial_tasks os q platform d d.thread_count 0 0
            >> issue_initial_reads os q platform d)
          s
        ≡ some (tt, s')
      → Steps os q platform d.thread_count s' s''
      → q.is_shutting_down (s''.queues d.thread_count) ≡ false
      → (next : Shared os q) × (step : Step os q platform d.thread_count s'' next) × (run_of step
          ≡ 1)
  never_stuck s s' s'' responsive prompt some_thread ready starts steps is_open =
      let has = starts-HasStarted os q platform fifo d s s' responsive ready starts in
      let (inv, even) =
        Steps-IsBalanced os q platform fifo d few s' s'' steps has.invariant has.even in
      runs_on s'' prompt some_thread inv even is_open
