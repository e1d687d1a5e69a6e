-- ===== src/System/Flight/Safety.antt =====
-- That the steps keep what holds while reads are in flight.
use mathlib.Core.Path.{subst}
use file_read_speed_test.Base.{
  ℕ, ◌+◌, ◌<◌, ◌≤◌, ◌≡◌, refl, sym, ap, some, List, ◌∷◌, ◌++◌, length, length-append, All-append,
  All, arith,
}
use file_read_speed_test.Words.{Platform, size_mod}
use file_read_speed_test.Win32.{Win32, Completion}
use file_read_speed_test.FileRead.{OverlappedIoFileRead}
use file_read_speed_test.TaskQueue.{TaskQueues, IsFifo}
use file_read_speed_test.ReadTask.{
  OverlappedIoFileReadTask, Task, read_task, finished_task, Shared, run_read_task, run_finished,
  Finished,
}
use file_read_speed_test.System.Reads.{reads_of}
use file_read_speed_test.EntryPoint.{Depths}
use file_read_speed_test.System.{Step, worker_step, main_step, world_step, with_queue}
use file_read_speed_test.System.Counts.{try_pop_task-count}
use file_read_speed_test.System.Safety.{Step-Invariant, worker-Moves}
use file_read_speed_test.System.Shutdown.{Step-IsBalanced, early}
use file_read_speed_test.System.Tells.{main-Tells}
use file_read_speed_test.System.Flight.{
  Flight, FlightStep, issue_step, thread_step, count_step, lose_step, other_step, FlightSteps,
  on_ground, flown,
}
use file_read_speed_test.System.Flight.Handing.{thread_hands_on}
use file_read_speed_test.ReadTask.Requests.{Asks-reads}
use file_read_speed_test.System.Flight.Asking.{read_shared-Asks, thread-Asks, count-Asks}
use file_read_speed_test.System.Flight.Reading.{read_shared-Reads}
use file_read_speed_test.System.Flight.Flying.{
  IsFlying, thread_exists, some_depth_of, issue-IsFlying,
}

module _ (os : Win32) (q : TaskQueues Task) (platform : Platform) (fifo : IsFifo q) (d : Depths)
    (few : d.thread_count < size_mod platform) where
  thread-IsFlying :
      (a : Flight os q) (s : Shared os q) (j : ℕ) (t : OverlappedIoFileReadTask) (u : q.Queue)
      (completion : Completion) (k : ℕ) (before after : List ℕ)
      → j < d.thread_count
      → q.try_pop_task (a.shared.queues j) ≡ (some (read_task t), u)
      → completion.context ≡ some k
      → a.pending ≡ before ++ (k ∷ after)
      → run_read_task os q platform t completion
          (with_queue os q platform d.thread_count a.shared j u)
        ≡ some (tt, s)
      → IsFlying os q platform fifo d few a
      → IsFlying os q platform fifo d few (record a {
        shared = s;
        pending = reads_of platform a.shared.file_read.file_size t ++ (before ++ after);
      })
  thread-IsFlying a s j t u completion k before after lt popped points given runs flying =
      let (in_range, rest_exist) =
        thread_exists os q platform fifo d few a k before after given flying in
      let (some_depth, one_more) =
        some_depth_of os q platform fifo d few a k before after given flying in
      let step = worker_step j t u completion k lt popped points in_range runs in
      let inv = flying.invariant in
      let (sound, moves, inv') =
        worker-Moves os q platform fifo d a.shared s j t u completion k inv lt popped points
          in_range runs in
      let (reads_exist, hands_on) =
        thread_hands_on os q platform fifo d few a.shared s j t u some_depth lt popped inv
          flying.even sound moves in
      let reads = reads_of platform a.shared.file_read.file_size t in
      let handed_on = flying.handed_on in
      record {
        invariant = inv';
        even = Step-IsBalanced os q platform fifo d few a.shared s step inv flying.even;
        all_exist =
            subst (λ (n : ℕ). All (λ (i : ℕ). i < n) (reads ++ (before ++ after)))
              (sym moves.same_count)
              (All-append (λ (i : ℕ). i < length a.shared.file_read.contexts) reads
                (before ++ after) reads_exist rest_exist);
        shallow = rw moves.same_count flying.shallow;
        in_depth = flying.in_depth;
        handed_on = omega (
          arith,
          handed_on,
          hands_on,
          one_more,
          moves.same_completed_threads,
          length-append reads (before ++ after),
        );
        counts_late =
            λ some_counted. flying.counts_late (rw moves.same_completed_threads at some_counted);
      }

  count-IsFlying :
      (a : Flight os q) (s : Shared os q) (f : Finished) (u : q.Queue)
      → d.queue_depth ≤ a.issued
      → q.try_pop_task (a.shared.queues d.thread_count) ≡ (some (finished_task f), u)
      → run_finished os q platform f
          (with_queue os q platform d.thread_count a.shared d.thread_count u)
        ≡ some (tt, s)
      → IsFlying os q platform fifo d few a
      → IsFlying os q platform fifo d few (record a { shared = s })
  count-IsFlying a s f u late popped runs flying =
      let n = d.thread_count in
      let inv = flying.invariant in
      let step = main_step f u popped runs in
      let tells =
        main-Tells os q platform fifo d few a.shared s f u inv
          (early os q platform fifo d few a.shared f u popped flying.even) popped runs in
      let same_count = ap (λ (r : OverlappedIoFileRead). length r.contexts) tells.same_file_read in
      let (fewer, _) = try_pop_task-count q fifo (a.shared.queues n) u (finished_task f) popped in
      let handed_on = flying.handed_on in
      let in_depth = flying.in_depth in
      record {
        invariant = Step-Invariant os q platform fifo d a.shared s step inv;
        even = Step-IsBalanced os q platform fifo d few a.shared s step inv flying.even;
        all_exist =
            subst (λ (m : ℕ). All (λ (i : ℕ). i < m) a.pending) (sym same_count) flying.all_exist;
        shallow = rw same_count flying.shallow;
        in_depth = in_depth;
        handed_on = omega (
          arith,
          handed_on,
          fewer,
          tells.counts,
          ap (λ (ts : List Task). length ts) tells.same_tasks,
        );
        counts_late = λ some_counted. omega arith;
      }

  FlightStep-IsFlying :
      (a b : Flight os q)
      → FlightStep os q platform d a b
      → IsFlying os q platform fifo d few a
      → IsFlying os q platform fifo d few b
  FlightStep-IsFlying a b (issue_step _ s before_depth reads) flying =
      let shallow = flying.shallow in
      let flies = issue-IsFlying os q platform fifo d few a s before_depth flying (
        read_shared-Reads os q platform fifo d a.shared s a.issued
          (omega (arith, shallow, before_depth)) reads) in
      subst
        (λ (is : List ℕ).
          IsFlying os q platform fifo d few (record {
            shared = s;
            issued = a.issued + 1;
            pending = is ++ a.pending;
            lost = a.lost;
          }))
        (sym
          (Asks-reads os q a.shared s _ (read_shared-Asks os q platform a.shared s a.issued reads)))
        flies
  FlightStep-IsFlying a b
        (thread_step _ s j t u completion k before after lt popped points given runs) flying =
      let asks =
        thread-Asks os q platform fifo d few a s j t u completion k before after lt popped points
          given runs flying in
      subst
        (λ (is : List ℕ).
          IsFlying os q platform fifo d few
            (record a { shared = s; pending = is ++ (before ++ after) }))
        (sym (Asks-reads os q a.shared s _ asks))
        (thread-IsFlying a s j t u completion k before after lt popped points given runs flying)
  FlightStep-IsFlying a b (count_step _ s f u late popped runs) flying =
      subst
        (λ (is : List ℕ).
          IsFlying os q platform fifo d few (record a { shared = s; pending = is ++ a.pending }))
        (sym (Asks-reads os q a.shared s _ (count-Asks os q platform fifo d few a s f u runs)))
        (count-IsFlying a s f u late popped runs flying)
  FlightStep-IsFlying a b (lose_step _ k before after given) flying =
      let (_, one_more) = some_depth_of os q platform fifo d few a k before after given flying in
      let (_, rest_exist) = thread_exists os q platform fifo d few a k before after given flying in
      let handed_on = flying.handed_on in
      record {
        invariant = flying.invariant;
        even = flying.even;
        all_exist = rest_exist;
        shallow = flying.shallow;
        in_depth = flying.in_depth;
        handed_on = omega (arith, handed_on, one_more);
        counts_late = flying.counts_late;
      }
  FlightStep-IsFlying a b (other_step _ w) flying =
      let step : Step os q platform d.thread_count a.shared (record a.shared { world = w }) =
        world_step w refl in
      record {
        invariant = Step-Invariant os q platform fifo d a.shared _ step flying.invariant;
        even =
            Step-IsBalanced os q platform fifo d few a.shared _ step flying.invariant flying.even;
        all_exist = flying.all_exist;
        shallow = flying.shallow;
        in_depth = flying.in_depth;
        handed_on = flying.handed_on;
        counts_late = flying.counts_late;
      }

  -- What holds while the reads are in flight is kept by any steps in any order.
  pub FlightSteps-IsFlying :
      (a b : Flight os q)
      → FlightSteps os q platform d a b
      → IsFlying os q platform fifo d few a
      → IsFlying os q platform fifo d few b
  FlightSteps-IsFlying a b on_ground flying = flying
  FlightSteps-IsFlying a b (flown {b = c} steps step) flying =
      FlightStep-IsFlying c b step (FlightSteps-IsFlying a c steps flying)
