-- ===== src/System/Flight/Sequence.antt =====
-- The schedules in which no thread runs before all the initial reads have been issued.
use mathlib.Core.Path.{subst, subst₂}
use native.Mathlib.Nat.{mod-eq_of_lt}
use mathlib.Core.Option.{some-injective}
use file_read_speed_test.Base.{
  ℕ, zero, suc, ◌+◌, ◌%◌, ◌<◌, ◌≤◌, ◌≡◌, inl, inr, refl, sym, ap, ◌∙◌, some, List, [], ◌∷◌, ◌++◌,
  Option-cases, bind_some, bind_none, arith,
}
use file_read_speed_test.Words.{Platform, size_mod}
use file_read_speed_test.Win32.{Win32}
use file_read_speed_test.TaskQueue.{TaskQueues, IsFifo}
use file_read_speed_test.ReadTask.{Task, Shared, read_shared, in_world}
use file_read_speed_test.EntryPoint.{Depths, issue_reads, issue_initial_reads}
use file_read_speed_test.System.{Steps, here, and_then, worker_step, main_step, world_step}
use file_read_speed_test.System.Reads.{first_reads}
use file_read_speed_test.System.Flight.{
  Flight, FlightSteps, on_ground, flown, issue_step, thread_step, count_step, lose_step, other_step,
  take_off,
}
use file_read_speed_test.System.Flight.Flying.{IsFlying, thread_exists}
use file_read_speed_test.ReadTask.Requests.{reads_between, Asks-reads}
use file_read_speed_test.System.Flight.Asking.{read_shared-Asks}
use file_read_speed_test.System.Flight.Safety.{FlightSteps-IsFlying}

module _ (os : Win32) (q : TaskQueues Task) where
  -- The first `i` contexts have been read, and none of them has been given to a wait.
  abbrev pub all_pending : Shared os q → ℕ → Flight os q
  all_pending s i = record { shared = s; issued = i; pending = first_reads i; lost = [] }

  -- From one state to a later one, `main` has issued so many reads, and none of what `ReadFile` was
  -- given has been given to a wait.
  abbrev pub launched : Shared os q → Shared os q → ℕ → Flight os q
  launched s s' i = record { shared = s'; issued = i; pending = reads_between os q s s'; lost = [] }

  module _ (platform : Platform) (d : Depths) (few_reads : d.queue_depth < size_mod platform) where
    issue_reads-FlightSteps :
        (rounds i : ℕ) (a : Flight os q) (s s' : Shared os q)
        → i + rounds ≡ d.queue_depth
        → issue_reads os q platform rounds i s ≡ some (tt, s')
        → FlightSteps os q platform d a (all_pending s i)
        → FlightSteps os q platform d a (all_pending s' d.queue_depth)
    unfolding issue_reads
    issue_reads-FlightSteps zero i a s s' e issues steps =
        let same : i ≡ d.queue_depth = omega arith in
        let reads = ap (λ (p : Unit {0} × Shared os q). p.1) (some-injective _ _ issues) in
        subst₂ (λ (x : Shared os q) (n : ℕ). FlightSteps os q platform d a (all_pending x n)) reads
          same steps
    issue_reads-FlightSteps (suc rounds) i a s s' e issues steps =
        elim (Option-cases (read_shared os q i s)) [
          | inl fails ↦
              absurd (let contra = sym (bind_none (read_shared os q i) _ s fails) ∙ issues in cc)
          | inr ((_, s''), reads) ↦
              let next : (i + 1) % size_mod platform ≡ suc i =
                mod-eq_of_lt (omega arith) ∙ omega arith in
              let rest = rw next at (sym (bind_some (read_shared os q i) _ s reads) ∙ issues) in
              let one_more : i + 1 ≡ suc i = omega arith in
              let steps' : FlightSteps os q platform d a (all_pending s'' (suc i)) =
                let reads_it =
                  Asks-reads os q s s'' _ (read_shared-Asks os q platform s s'' i reads) in
                let one : FlightSteps os q platform d a (record {
                  shared = s'';
                  issued = i + 1;
                  pending = i ∷ first_reads i;
                  lost = [];
                }) =
                  subst
                    (λ (is : List ℕ). FlightSteps os q platform d a (record {
                      shared = s'';
                      issued = i + 1;
                      pending = is ++ first_reads i;
                      lost = [];
                    }))
                    reads_it (flown steps (issue_step (all_pending s i) s'' (omega arith) reads)) in
                rw one_more at one in
              let e' : suc i + rounds ≡ d.queue_depth = omega arith in
              issue_reads-FlightSteps rounds (suc i) a s'' s' e' rest steps'
        ]

    -- If the queue's depth fits a `size_t`, then where `main` issues the initial reads in one go
    -- and comes to an end, the steps of the threads and `main` lead there too, with every initial
    -- read issued and pending.
    pub issue_initial_reads-FlightSteps :
        (s s' : Shared os q)
        → issue_initial_reads os q platform d s ≡ some (tt, s')
        → FlightSteps os q platform d (take_off os q s) (all_pending s' d.queue_depth)
    unfolding issue_initial_reads in_world
    issue_initial_reads-FlightSteps s s' issues =
        issue_reads-FlightSteps d.queue_depth 0 (take_off os q s) _ s' (omega arith) issues
          on_ground

module _ (os : Win32) (q : TaskQueues Task) (platform : Platform) (fifo : IsFifo q) (d : Depths)
    (few : d.thread_count < size_mod platform) where
  still_issued :
      (a b : Flight os q)
      → FlightSteps os q platform d a b
      → d.queue_depth ≤ a.issued
      → d.queue_depth ≤ b.issued
  still_issued a b on_ground late = late
  still_issued a b (flown {b = c} steps (issue_step _ s early reads)) late =
      let before = still_issued a c steps late in omega (arith, before)
  still_issued a b
        (flown {b = c} steps
          (thread_step _ s j t u completion k before after lt popped points given runs))
        late =
      still_issued a c steps late
  still_issued a b (flown {b = c} steps (count_step _ s f u is_late popped runs)) late = is_late
  still_issued a b (flown {b = c} steps (lose_step _ k before after given)) late =
      still_issued a c steps late
  still_issued a b (flown {b = c} steps (other_step _ w)) late = still_issued a c steps late

  -- Once the initial reads have been issued, the steps are those of the threads on contexts that
  -- exist.
  pub FlightSteps-Steps :
      (a b : Flight os q)
      → FlightSteps os q platform d a b
      → d.queue_depth ≤ a.issued
      → IsFlying os q platform fifo d few a
      → Steps os q platform d.thread_count a.shared b.shared
  FlightSteps-Steps a b on_ground late flying = here
  FlightSteps-Steps a b (flown {b = c} steps (issue_step _ s early reads)) late flying =
      let before = still_issued a c steps late in absurd (omega (arith, before))
  FlightSteps-Steps a b
        (flown {b = c} steps
          (thread_step _ s j t u completion k before after lt popped points given runs))
        late flying =
      let flying' = FlightSteps-IsFlying os q platform fifo d few a c steps flying in
      let (in_range, _) = thread_exists os q platform fifo d few c k before after given flying' in
      and_then c.shared s (FlightSteps-Steps a c steps late flying)
        (worker_step j t u completion k lt popped points in_range runs)
  FlightSteps-Steps a b (flown {b = c} steps (count_step _ s f u is_late popped runs)) late flying =
      and_then c.shared s (FlightSteps-Steps a c steps late flying) (main_step f u popped runs)
  FlightSteps-Steps a b (flown {b = c} steps (lose_step _ k before after given)) late flying =
      FlightSteps-Steps a c steps late flying
  FlightSteps-Steps a b (flown {b = c} steps (other_step _ w)) late flying =
      and_then c.shared _ (FlightSteps-Steps a c steps late flying) (world_step w refl)
