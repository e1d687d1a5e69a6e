-- ===== src/System/Tells.antt =====
-- What the message of a thread does when the main thread counts it.
use mathlib.Core.Path.{subst}
use file_read_speed_test.Base.{
  ℕ, ◌+◌, ◌%◌, ◌<◌, ◌≡◌, ◌≢◌, ◌⊎◌, inl, inr, refl, ap, ◌∙◌, ◌==◌, ==_iff, Bool-cases, true, some,
  arith,
}
use native.Mathlib.Nat.{mod-eq_of_lt}
use file_read_speed_test.Words.{Platform, size_mod}
use file_read_speed_test.Win32.{Win32}
use file_read_speed_test.TaskQueue.{TaskQueues, IsFifo}
use file_read_speed_test.ReadTask.{Finished, Task, finished_task, Shared, update, run_finished}
use file_read_speed_test.ReadTask.Queues.{update_self, update_ne}
use file_read_speed_test.EntryPoint.{Depths}
use file_read_speed_test.System.{with_queue}
use file_read_speed_test.System.Invariant.{Invariant, Invariant-popped}
use file_read_speed_test.System.Safety.{same_result}

module _ (os : Win32) (q : TaskQueues Task) (platform : Platform) (fifo : IsFifo q) (d : Depths)
    (few : d.thread_count < size_mod platform) where
  -- The shared objects when a message has been counted, with the queues that there are then.
  abbrev counted : Shared os q → (ℕ → q.Queue) → Shared os q
  counted s queues = record s { completed_threads = s.completed_threads + 1; queues = queues }

  abbrev closed : (ℕ → q.Queue) → ℕ → q.Queue
  closed queues = update queues d.thread_count (q.shutdown (queues d.thread_count))

  run_finished-counted :
      (s : Shared os q) (f : Finished)
      → f.thread_count ≡ d.thread_count
      → f.main_task_queue ≡ d.thread_count
      → s.completed_threads < d.thread_count
      → ((s.completed_threads + 1 ≡ d.thread_count)
          × (run_finished os q platform f s ≡ some (tt, counted s (closed s.queues))))
        ⊎ ((s.completed_threads + 1 < d.thread_count)
            × (run_finished os q platform f s ≡ some (tt, counted s s.queues)))
  unfolding run_finished
  run_finished-counted s f same_count to_main early =
      let next : (s.completed_threads + 1) % size_mod platform ≡ s.completed_threads + 1 =
        mod-eq_of_lt (omega arith) in
      elim (Bool-cases (s.completed_threads + 1 == d.thread_count)) [
        | inl last ↦
            inl ((==_iff _ d.thread_count).0 last, rw (next, same_count, to_main, last) refl)
        | inr more ↦
            let ne : s.completed_threads + 1 ≢ d.thread_count =
              λ e. let yes = (==_iff _ d.thread_count).1 e in cc in
            inr (omega arith, rw (next, same_count, more) refl)
      ]

  -- From `s`, where `u` is what the pop of the message has left of the main queue.
  pub record Tells (s s' : Shared os q) (u : q.Queue) : Type 0 where
    pub same_file_read : s'.file_read ≡ s.file_read
    pub counts : s'.completed_threads ≡ s.completed_threads + 1
    pub others : (i : ℕ) → d.thread_count ≢ i → s'.queues i ≡ s.queues i
    pub same_tasks : fifo.tasks (s'.queues d.thread_count) ≡ fifo.tasks u
    pub same_shut :
        s.completed_threads + 1 < d.thread_count
        → q.is_shutting_down (s'.queues d.thread_count) ≡ q.is_shutting_down u
    pub shuts :
        s.completed_threads + 1 ≡ d.thread_count
        → q.is_shutting_down (s'.queues d.thread_count) ≡ true

  run_finished-Tells :
      (s : Shared os q) (f : Finished) (u : q.Queue)
      → f.thread_count ≡ d.thread_count
      → f.main_task_queue ≡ d.thread_count
      → s.completed_threads < d.thread_count
      → (s' : Shared os q) × (run_finished os q platform f
            (with_queue os q platform d.thread_count s d.thread_count u)
          ≡ some (tt, s'))
        × Tells s s' u
  run_finished-Tells s f u same_count to_main early =
      let n = d.thread_count in
      let at_n = update_self s.queues n u in
      let rest = update s.queues n u in
      let others : (i : ℕ) → n ≢ i → rest i ≡ s.queues i = λ i ne. update_ne s.queues n i u ne in
      elim (run_finished-counted (with_queue os q platform n s n u) f same_count to_main early) [
        | inl (full, ends) ↦
            let at_closed = update_self rest n (q.shutdown (rest n)) in
            let (shut, same_tasks) = fifo.shutdown_lem (rest n) in
            (
              counted s (closed rest),
              ends,
              record {
                same_file_read = refl;
                counts = refl;
                others = λ i ne. update_ne rest n i _ ne ∙ others i ne;
                same_tasks = ap fifo.tasks at_closed ∙ same_tasks ∙ ap fifo.tasks at_n;
                same_shut = λ less. absurd (omega arith);
                shuts = λ _. ap q.is_shutting_down at_closed ∙ shut;
              },
            )
        | inr (less, ends) ↦ (
          counted s rest,
          ends,
          record {
            same_file_read = refl;
            counts = refl;
            others = others;
            same_tasks = ap fifo.tasks at_n;
            same_shut = λ _. ap q.is_shutting_down at_n;
            shuts = λ full. absurd (omega arith);
          },
        )
      ]

  -- A step of the main thread, where the counter is not full.
  pub main-Tells :
      (s s' : Shared os q) (f : Finished) (u : q.Queue)
      → Invariant os q fifo d s
      → s.completed_threads < d.thread_count
      → q.try_pop_task (s.queues d.thread_count) ≡ (some (finished_task f), u)
      → run_finished os q platform f (with_queue os q platform d.thread_count s d.thread_count u)
        ≡ some (tt, s')
      → Tells s s' u
  main-Tells s s' f u inv early popped runs =
      let (sound, _) =
        Invariant-popped os q fifo d platform s inv d.thread_count u (finished_task f) (omega arith)
          popped in
      let (s'', runs', tells) = run_finished-Tells s f u sound.1 sound.2 early in
      subst (λ (z : Shared os q). Tells s z u) (same_result os q platform fifo d runs' runs) tells
