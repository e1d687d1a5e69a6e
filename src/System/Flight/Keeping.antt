-- ===== src/System/Flight/Keeping.antt =====
-- What the steps keep of a context.
use mathlib.Core.Path.{subst}
use file_read_speed_test.Base.{ℕ, ◌<◌, sym, arith}
use file_read_speed_test.Words.{Platform, size_mod}
use file_read_speed_test.Win32.{Win32}
use file_read_speed_test.FileRead.{IoContext}
use file_read_speed_test.TaskQueue.{TaskQueues, IsFifo}
use file_read_speed_test.ReadTask.{Task}
use file_read_speed_test.EntryPoint.{Depths}
use file_read_speed_test.System.Flight.Reading.{Holds, IsStable, read_shared-Holds}
use file_read_speed_test.FileRead.{OverlappedIoFileRead}
use file_read_speed_test.System.Safety.{worker-Moves}
use file_read_speed_test.System.Tells.{main-Tells}
use file_read_speed_test.System.Shutdown.{early}
use file_read_speed_test.System.{with_queue}
use file_read_speed_test.System.Flight.{
  Flight, FlightStep, issue_step, thread_step, count_step, lose_step, other_step, FlightSteps,
  on_ground, flown,
}
use file_read_speed_test.System.Flight.Flying.{IsFlying, thread_exists}
use file_read_speed_test.System.Flight.Safety.{FlightSteps-IsFlying}
use file_read_speed_test.System.Flight.Marking.{run_read_task-Holds}

module _ (os : Win32) (q : TaskQueues Task) (platform : Platform) (fifo : IsFifo q) (d : Depths)
    (few : d.thread_count < size_mod platform) (P : IoContext → Type 0) (stable : IsStable P) where
  pub FlightStep-Holds :
      (a b : Flight os q) (i : ℕ)
      → FlightStep os q platform d a b
      → IsFlying os q platform fifo d few a
      → Holds P i a.shared.file_read.contexts
      → Holds P i b.shared.file_read.contexts
  FlightStep-Holds a b i (issue_step _ s before_depth reads) flying holds =
      let shallow = flying.shallow in
      read_shared-Holds os q platform fifo d P a.shared s a.issued i stable
        (omega (arith, shallow, before_depth)) reads holds
  FlightStep-Holds a b i
        (thread_step _ s j t u completion k before after lt popped points given runs) flying holds =
      let (in_range, _) = thread_exists os q platform fifo d few a k before after given flying in
      let inv = flying.invariant in
      let (sound, _, _) =
        worker-Moves os q platform fifo d a.shared s j t u completion k inv lt popped points
          in_range runs in
      run_read_task-Holds os q platform fifo d P stable t completion
        (with_queue os q platform d.thread_count a.shared j u) s k inv.prepared.small sound.fits
        points in_range runs i holds
  FlightStep-Holds a b i (count_step _ s f u late popped runs) flying holds =
      let tells =
        main-Tells os q platform fifo d few a.shared s f u flying.invariant
          (early os q platform fifo d few a.shared f u popped flying.even) popped runs in
      subst (λ (r : OverlappedIoFileRead). Holds P i r.contexts) (sym tells.same_file_read) holds
  FlightStep-Holds a b i (lose_step _ k before after given) flying holds = holds
  FlightStep-Holds a b i (other_step _ w) flying holds = holds

  pub FlightSteps-Holds :
      (a b : Flight os q) (i : ℕ)
      → FlightSteps os q platform d a b
      → IsFlying os q platform fifo d few a
      → Holds P i a.shared.file_read.contexts
      → Holds P i b.shared.file_read.contexts
  FlightSteps-Holds a b i on_ground flying holds = holds
  FlightSteps-Holds a b i (flown {b = c} steps step) flying holds =
      FlightStep-Holds c b i step (FlightSteps-IsFlying os q platform fifo d few a c steps flying)
        (FlightSteps-Holds a c i steps flying holds)
