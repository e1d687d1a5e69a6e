-- ===== src/EntryPoint/Ending.antt =====
-- How `main` comes to its orderly end, after the loop over the main queue.
use mathlib.Core.Path.{subst}
use file_read_speed_test.Base.{
  ℕ, zero, suc, ◌+◌, ◌<◌, ◌≤◌, ◌≡◌, ◌≢◌, refl, ap, ◌∙◌, inl, inr, ◌==◌, ==_iff, Bool-cases, true,
  some, List, [], ◌∷◌, length, bind_some, arith,
}
use file_read_speed_test.Words.{Platform}
use file_read_speed_test.Win32.{Win32}
use file_read_speed_test.TaskQueue.{TaskQueues, IsFifo, TaskThreads}
use file_read_speed_test.ReadTask.{Task, Shared, update}
use file_read_speed_test.ReadTask.Queues.{update_self, update_ne}
use file_read_speed_test.EntryPoint.{shutdown_queues, join_threads}

module _ (os : Win32) (q : TaskQueues Task) (platform : Platform) (fifo : IsFifo q)
    (t : TaskThreads os.World q.Queue) where
  -- The queues with the numbers from `i` up to `n` shut down, and no task is lost.
  pub record AreShut (i n : ℕ) (s s' : Shared os q) : Type 0 where
    pub shut : (j : ℕ) → i ≤ j → j < n → q.is_shutting_down (s'.queues j) ≡ true
    pub same_below : (j : ℕ) → j < i → s'.queues j ≡ s.queues j
    pub same_above : (j : ℕ) → n ≤ j → s'.queues j ≡ s.queues j
    pub same_tasks : (j : ℕ) → fifo.tasks (s'.queues j) ≡ fifo.tasks (s.queues j)
    pub same_file_read : s'.file_read ≡ s.file_read
    pub same_world : s'.world ≡ s.world

  abbrev shut_one : Shared os q → ℕ → Shared os q
  shut_one s i = record s { queues = update s.queues i (q.shutdown (s.queues i)) }

  AreShut-cons :
      (i n : ℕ) (s s' : Shared os q)
      → i < n
      → AreShut (i + 1) n (shut_one s i) s'
      → AreShut i n s s'
  AreShut-cons i n s s' lt rest =
      let (is_shut, kept) = fifo.shutdown_lem (s.queues i) in
      let at_i = update_self s.queues i (q.shutdown (s.queues i)) in
      record {
        shut = λ j ge below. elim (Bool-cases (i == j)) [
          | inl same ↦
              subst (λ (k : ℕ). q.is_shutting_down (s'.queues k) ≡ true) ((==_iff i j).0 same)
                (ap q.is_shutting_down (rest.same_below i (omega arith) ∙ at_i) ∙ is_shut)
          | inr other ↦
              let ne : i ≢ j = λ e. let yes = (==_iff i j).1 e in cc in
              rest.shut j (omega arith) below
        ];
        same_below =
            λ j less. rest.same_below j (omega arith) ∙ update_ne s.queues i j _ (λ e. omega arith);
        same_above = λ j ge. rest.same_above j ge ∙ update_ne s.queues i j _ (λ e. omega arith);
        same_tasks = λ j. rest.same_tasks j ∙ elim (Bool-cases (i == j)) [
          | inl same ↦
              subst
                (λ (k : ℕ).
                  fifo.tasks (update s.queues i (q.shutdown (s.queues i)) k)
                  ≡ fifo.tasks (s.queues k))
                ((==_iff i j).0 same) (ap fifo.tasks at_i ∙ kept)
          | inr other ↦
              let ne : i ≢ j = λ e. let yes = (==_iff i j).1 e in cc in
              ap fifo.tasks (update_ne s.queues i j _ ne)
        ];
        same_file_read = rest.same_file_read;
        same_world = rest.same_world;
      }

  pub shutdown_queues-AreShut :
      (rounds i n : ℕ) (s : Shared os q)
      → i + rounds ≡ n
      → (s' : Shared os q) × (shutdown_queues os q platform rounds i s ≡ some (tt, s'))
        × AreShut i n s s'
  unfolding shutdown_queues
  shutdown_queues-AreShut zero i n s sum = (
    s,
    refl,
    record {
      shut = λ j ge below. absurd (omega arith);
      same_below = λ j less. refl;
      same_above = λ j ge. refl;
      same_tasks = λ j. refl;
      same_file_read = refl;
      same_world = refl;
    },
  )
  shutdown_queues-AreShut (suc rounds) i n s sum =
      let (s', runs, rest) =
        shutdown_queues-AreShut rounds (i + 1) n (shut_one s i) (omega arith) in
      (s', runs, AreShut-cons i n s s' (omega arith) rest)

  pub join_threads-returns :
      (threads : List t.Thread) (w : os.World)
      → (joined : List t.Thread) × (w' : os.World) × (join_threads os q platform t threads w
          ≡ some (joined, w'))
        × (length joined ≡ length threads)
  unfolding join_threads
  join_threads-returns [] w = ([], w, refl, refl)
  join_threads-returns (thread ∷ threads) w =
      let (joined, w', runs, same) = join_threads-returns threads (t.join thread w).1 in
      (
        (t.join thread w).0 ∷ joined,
        w',
        bind_some (join_threads os q platform t threads) _ _ runs,
        ap suc same,
      )
