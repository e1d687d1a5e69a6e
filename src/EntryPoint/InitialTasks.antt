-- ===== src/EntryPoint/InitialTasks.antt =====
-- The tasks that `main` gives to the threads.
use native.Mathlib.Nat.{mod-eq_of_lt}
use file_read_speed_test.Base.{
  ℕ, zero, suc, ◌+◌, ◌*◌, ◌%◌, ◌<◌, ◌≤◌, ◌≡◌, ◌≢◌, ◌⊎◌, inl, inr, refl, ap, ◌∙◌, ◌==◌, false, some,
  [], ◌∷◌, ◌++◌, ==_iff, Bool-cases, mul-block-le, arith,
}
use file_read_speed_test.Words.{Platform, size_mod, quad_mod}
use file_read_speed_test.Win32.{Win32}
use file_read_speed_test.TaskQueue.{TaskQueues, okay, IsFifo, IsResponsive}
use file_read_speed_test.ReadTask.{Task, read_task, Shared, add_task}
use file_read_speed_test.ReadTask.Steps.{added}
use file_read_speed_test.ReadTask.Queues.{update_self, update_ne}
use file_read_speed_test.ReadTask.Chain.{IsAligned}
use file_read_speed_test.EntryPoint.{Depths, initial_task, add_initial_tasks}

module _ (os : Win32) (q : TaskQueues Task) (platform : Platform) (fifo : IsFifo q)
    (d : Depths) where
  -- The task that the thread number `j` starts with: it stands at the start of the buffer `j`.
  abbrev pub task_of : ℕ → Task
  task_of j = read_task (initial_task platform d (j * d.buffer_size) j)

  -- What has changed when the threads from the number `i` on have been given their tasks.
  pub record IsGiven (i : ℕ) (s s' : Shared os q) : Type 0 where
    pub given :
        (j : ℕ)
        → i ≤ j
        → j < d.thread_count
        → fifo.tasks (s'.queues j) ≡ fifo.tasks (s.queues j) ++ (task_of j ∷ [])
    pub kept : (j : ℕ) → (j < i) ⊎ (d.thread_count ≤ j) → s'.queues j ≡ s.queues j
    pub same_file_read : s'.file_read ≡ s.file_read
    pub same_completed_threads : s'.completed_threads ≡ s.completed_threads
    pub same_world : s'.world ≡ s.world
    pub stays_open : (j : ℕ) → i ≤ j → j < d.thread_count → q.is_shutting_down (s'.queues j) ≡ false

  IsGiven-cons :
      (i : ℕ) (s s' : Shared os q)
      → i < d.thread_count
      → q.is_shutting_down (s.queues i) ≡ false
      → IsGiven (i + 1) (added os q platform s i (task_of i)) s'
      → IsGiven i s s'
  IsGiven-cons i s s' lt is_open rest =
      let at_i : fifo.tasks (s'.queues i) ≡ fifo.tasks (s.queues i) ++ (task_of i ∷ []) =
        ap fifo.tasks (rest.kept i (inl (omega arith)) ∙ update_self s.queues i _)
        ∙ (fifo.add_task_open (task_of i) (s.queues i) is_open).0 in
      let open_i : q.is_shutting_down (s'.queues i) ≡ false =
        ap q.is_shutting_down (rest.kept i (inl (omega arith)) ∙ update_self s.queues i _)
        ∙ (fifo.add_task_open (task_of i) (s.queues i) is_open).1 in
      record {
        given = λ j ge below. elim (Bool-cases (i == j)) [
          | inl same ↦ let same' = (==_iff i j).0 same in rw same' at at_i
          | inr other ↦
              let other' : i ≢ j = λ e. let yes = (==_iff i j).1 e in cc in
              rest.given j (omega arith) below
              ∙ ap (λ (u : q.Queue). fifo.tasks u ++ (task_of j ∷ []))
                  (update_ne s.queues i j _ other')
        ];
        kept = λ j out.
            let ne : i ≢ j = λ e. elim out [ inl less ↦ omega arith | inr more ↦ omega arith ] in
            rest.kept j (elim out [ inl less ↦ inl (omega arith) | inr more ↦ inr more ])
            ∙ update_ne s.queues i j _ ne;
        same_file_read = rest.same_file_read;
        same_completed_threads = rest.same_completed_threads;
        same_world = rest.same_world;
        stays_open = λ j ge below. elim (Bool-cases (i == j)) [
          | inl same ↦ let same' = (==_iff i j).0 same in rw same' at open_i
          | inr other ↦
              let other' : i ≢ j = λ e. let yes = (==_iff i j).1 e in cc in
              rest.stays_open j (omega arith) below
        ];
      }

  module _ (responsive : IsResponsive q) (fits : d.thread_count * d.buffer_size < quad_mod)
      (few : d.thread_count < size_mod platform) where
    still_open :
        (rounds i : ℕ) (s : Shared os q)
        → i + suc rounds ≡ d.thread_count
        → ((j : ℕ) → i ≤ j → j < d.thread_count → q.is_shutting_down (s.queues j) ≡ false)
        → (j : ℕ) → i + 1 ≤ j
        → j < d.thread_count
        → q.is_shutting_down ((added os q platform s i (task_of i)).queues j) ≡ false
    still_open rounds i s e all_open j ge lt =
        rw (update_ne s.queues i j (q.add_task (task_of i) (s.queues i)).1 (λ same. omega arith))
          (all_open j (omega arith) lt)

    add_initial_tasks-IsGiven :
        (rounds i : ℕ) (s : Shared os q)
        → i + rounds ≡ d.thread_count
        → ((j : ℕ) → i ≤ j → j < d.thread_count → q.is_shutting_down (s.queues j) ≡ false)
        → (s' : Shared os q) × (add_initial_tasks os q platform d rounds (i * d.buffer_size) i s
            ≡ some (okay, s'))
          × IsGiven i s s'
    unfolding add_initial_tasks add_task
    add_initial_tasks-IsGiven zero i s e all_open = (
      s,
      refl,
      record {
        given = λ j ge lt. absurd (omega arith);
        kept = λ j out. refl;
        same_file_read = refl;
        same_completed_threads = refl;
        same_world = refl;
        stays_open = λ j ge lt. absurd (omega arith);
      },
    )
    add_initial_tasks-IsGiven (suc rounds) i s e all_open =
        let is_open = all_open i (omega arith) (omega arith) in
        let taken = responsive.add_task_okay (task_of i) (s.queues i) is_open in
        let (s', runs, given) =
          add_initial_tasks-IsGiven rounds (i + 1) (added os q platform s i (task_of i))
            (omega arith) (still_open rounds i s e all_open) in
        let next_start : (i * d.buffer_size + d.buffer_size) % quad_mod ≡ (i + 1) * d.buffer_size =
          (let end = mul-block-le i d.thread_count d.buffer_size (omega arith) in omega arith) in
        let next : (i + 1) % size_mod platform ≡ i + 1 = mod-eq_of_lt (omega arith) in
        (s', rw (taken, next_start, next) runs, IsGiven-cons i s s' (omega arith) is_open given)

    -- If the queues of the threads are open and responsive, and the counts and products fit the
    -- machine's integers, the loop ends with success, each thread's queue has at its back the task
    -- for the buffer of the thread's number, which is aligned, and stays open, and the main queue
    -- is as it was.
    pub add_initial_tasks-IsAligned :
        d.queue_depth * d.buffer_size < size_mod platform
        → (s : Shared os q)
        → ((j : ℕ) → j < d.thread_count → q.is_shutting_down (s.queues j) ≡ false)
        → (s' : Shared os q) × (add_initial_tasks os q platform d d.thread_count 0 0 s
            ≡ some (okay, s'))
          × IsGiven 0 s s'
          × ((j : ℕ) → IsAligned d.buffer_size (initial_task platform d (j * d.buffer_size) j))
    add_initial_tasks-IsAligned interval s all_open =
        let (s', runs, given) =
          add_initial_tasks-IsGiven d.thread_count 0 s (omega arith) (λ j ge. all_open j) in
        let at_start : 0 * d.buffer_size ≡ 0 = omega arith in
        (
          s',
          rw at_start at runs,
          given,
          λ j. record { starts = refl; strides = mod-eq_of_lt interval },
        )
