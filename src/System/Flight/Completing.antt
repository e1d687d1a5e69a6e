-- ===== src/System/Flight/Completing.antt =====
-- That what has been read and is no longer pending is complete.
use mathlib.Core.Path.{subst}
use file_read_speed_test.Base.{
  ℕ, ◌+◌, ◌<◌, ◌≡◌, inl, inr, refl, ap, ◌∙◌, true, List, ◌∷◌, ◌++◌, ◌==◌, ==_iff, Bool-cases,
  if◌then◌else◌, arith,
}
use file_read_speed_test.Words.{Platform, size_mod}
use file_read_speed_test.Win32.{Win32}
use file_read_speed_test.TaskQueue.{TaskQueues, IsFifo}
use file_read_speed_test.ReadTask.{Task}
use file_read_speed_test.EntryPoint.{Depths}
use file_read_speed_test.System.{with_queue}
use file_read_speed_test.System.Safety.{worker-Moves}
use file_read_speed_test.System.Reads.{times, times_append}
use file_read_speed_test.ReadTask.Requests.{reads_between}
use file_read_speed_test.System.Flight.{
  Flight, FlightStep, issue_step, thread_step, count_step, lose_step, other_step, FlightSteps,
  on_ground, flown, reads_in, all_reads,
}
use file_read_speed_test.System.Flight.Reading.{IsComplete, complete-IsStable}
use file_read_speed_test.System.Flight.Flying.{IsFlying, thread_exists}
use file_read_speed_test.System.Flight.Safety.{FlightSteps-IsFlying}
use file_read_speed_test.System.Flight.Keeping.{FlightStep-Holds}
use file_read_speed_test.System.Flight.Marking.{run_read_task-completes}

-- One more where the number is taken out.
times_take_out :
    (k i : ℕ) (before after : List ℕ)
    → times k (before ++ (i ∷ after)) ≡ (if i == k then 1 else 0) + times k (before ++ after)
times_take_out k i before after =
    omega (arith, times_append k before (i ∷ after), times_append k before after)

module _ (os : Win32) (q : TaskQueues Task) (platform : Platform) (fifo : IsFifo q) (d : Depths)
    (few : d.thread_count < size_mod platform) where
  -- What is among the reads, and neither pending nor lost, is complete.
  abbrev pub AreComplete : List ℕ → Flight os q → Type 0
  AreComplete reads a =
      (k : ℕ)
      → 0 < times k reads
      → times k a.pending + times k a.lost ≡ 0
      → IsComplete k a.shared.file_read.contexts

  -- What is no longer pending is complete, or was not pending before.
  thread-AreComplete :
      (a b : Flight os q) (k i : ℕ) (before after reads next : List ℕ)
      → a.pending ≡ before ++ (i ∷ after)
      → b.pending ≡ next ++ (before ++ after)
      → b.lost ≡ a.lost
      → IsComplete i b.shared.file_read.contexts
      → (IsComplete k a.shared.file_read.contexts → IsComplete k b.shared.file_read.contexts)
      → AreComplete reads a
      → 0 < times k (next ++ reads)
      → times k b.pending + times k b.lost ≡ 0
      → IsComplete k b.shared.file_read.contexts
  thread-AreComplete a b k i before after reads next given left same_lost completes keeps are
        was_read not_pending =
      let split = ap (times k) left ∙ times_append k next (before ++ after) in
      let split_reads = times_append k next reads in
      let still_lost = ap (times k) same_lost in
      let out = ap (times k) given ∙ times_take_out k i before after in
      elim (Bool-cases (i == k)) [
        | inl same ↦
            subst (λ (x : ℕ). IsComplete x b.shared.file_read.contexts) ((==_iff i k).0 same)
              completes
        | inr other ↦
            let still : times k a.pending ≡ times k (before ++ after) =
              out ∙ rw other (omega arith) in
            keeps (
              are k (omega (arith, split, split_reads, still_lost, was_read, not_pending))
                (omega (arith, split, still, still_lost, not_pending)))
      ]

  FlightStep-AreComplete :
      (a b : Flight os q) (reads : List ℕ) (step : FlightStep os q platform d a b)
      → IsFlying os q platform fifo d few a
      → AreComplete reads a
      → AreComplete (reads_in os q step ++ reads) b
  FlightStep-AreComplete a b reads (issue_step _ s before_depth read_next) flying are k was_read
        not_pending =
      let split_reads = times_append k (reads_between os q a.shared s) reads in
      let split = times_append k (reads_between os q a.shared s) a.pending in
      FlightStep-Holds os q platform fifo d few (λ c. c.is_complete ≡ true) complete-IsStable a b k
        (issue_step a s before_depth read_next) flying
        (are k (omega (arith, split_reads, split, was_read, not_pending))
          (omega (arith, split, not_pending)))
  FlightStep-AreComplete a b reads
        (thread_step _ s j t u completion i before after lt popped points given runs) flying are k
        was_read not_pending =
      let (in_range, _) = thread_exists os q platform fifo d few a i before after given flying in
      let inv = flying.invariant in
      let (sound, _, _) =
        worker-Moves os q platform fifo d a.shared s j t u completion i inv lt popped points
          in_range runs in
      thread-AreComplete a b k i before after reads (reads_between os q a.shared s) given refl refl
        (run_read_task-completes os q platform fifo d t completion
          (with_queue os q platform d.thread_count a.shared j u) s i inv.prepared.small sound.fits
          points in_range runs)
        (FlightStep-Holds os q platform fifo d few (λ c. c.is_complete ≡ true) complete-IsStable a b
          k (thread_step a s j t u completion i before after lt popped points given runs) flying)
        are was_read not_pending
  FlightStep-AreComplete a b reads (count_step _ s f u late popped runs) flying are k was_read
        not_pending =
      let split_reads = times_append k (reads_between os q a.shared s) reads in
      let split = times_append k (reads_between os q a.shared s) a.pending in
      FlightStep-Holds os q platform fifo d few (λ c. c.is_complete ≡ true) complete-IsStable a b k
        (count_step a s f u late popped runs) flying
        (are k (omega (arith, split_reads, split, was_read, not_pending))
          (omega (arith, split, not_pending)))
  FlightStep-AreComplete a b reads (lose_step _ i before after given) flying are k was_read
        not_pending =
      let out = ap (times k) given ∙ times_take_out k i before after in
      are k was_read (omega (arith, out, not_pending))
  FlightStep-AreComplete a b reads (other_step _ w) flying are k was_read not_pending =
      are k was_read not_pending

  -- Any steps in any order keep it, with what they read.
  pub FlightSteps-AreComplete :
      (a b : Flight os q) (reads : List ℕ) (steps : FlightSteps os q platform d a b)
      → IsFlying os q platform fifo d few a
      → AreComplete reads a
      → AreComplete (all_reads os q steps ++ reads) b
  FlightSteps-AreComplete a b reads on_ground flying are k was_read not_pending =
      are k was_read not_pending
  FlightSteps-AreComplete a b reads (flown {b = c} steps step) flying are k was_read not_pending =
      let read_in = reads_in os q step in
      let before = all_reads os q steps in
      let same : times k (read_in ++ (before ++ reads)) ≡ times k ((read_in ++ before) ++ reads) =
        omega (
          arith,
          times_append k read_in (before ++ reads),
          times_append k before reads,
          times_append k (read_in ++ before) reads,
          times_append k read_in before,
        ) in
      FlightStep-AreComplete c b (before ++ reads) step
        (FlightSteps-IsFlying os q platform fifo d few a c steps flying)
        (FlightSteps-AreComplete a c reads steps flying are) k (omega (arith, same, was_read))
        not_pending
