-- ===== src/System/Flight/Flying.antt =====
-- What holds between the steps while reads are in flight, and that an initial read keeps it.
use mathlib.Core.Path.{subst, subst₂}
use file_read_speed_test.Base.{
  ℕ, ◌+◌, ◌<◌, ◌≤◌, ◌≡◌, sym, ap, ◌∙◌, List, ◌∷◌, ◌++◌, length, length-append, All-take_out, All,
  arith,
}
use file_read_speed_test.Words.{Platform, size_mod}
use file_read_speed_test.Win32.{Win32}
use file_read_speed_test.TaskQueue.{TaskQueues, IsFifo}
use file_read_speed_test.ReadTask.{Task, Shared}
use file_read_speed_test.EntryPoint.{Depths}
use file_read_speed_test.System.Counts.{tasks_in}
use file_read_speed_test.System.Invariant.{Invariant, Invariant-transport}
use file_read_speed_test.System.Balance.{IsBalanced}
use file_read_speed_test.System.Shutdown.{IsEven, early}
use file_read_speed_test.System.Flight.{Flight}
use file_read_speed_test.System.Flight.Reading.{Reads}

module _ (os : Win32) (q : TaskQueues Task) (platform : Platform) (fifo : IsFifo q) (d : Depths)
    (few : d.thread_count < size_mod platform) where
  -- The invariant and the balance of the threads; every pending context exists; and each initial
  -- read is still pending, or has been handed on until its last thread has told or been counted.
  pub record IsFlying (a : Flight os q) : Type 0 where
    pub invariant : Invariant os q fifo d a.shared
    pub even : IsEven os q platform fifo d few a.shared
    pub all_exist : All (λ (k : ℕ). k < length a.shared.file_read.contexts) a.pending
    pub shallow : d.queue_depth ≤ length a.shared.file_read.contexts
    pub in_depth : a.issued ≤ d.queue_depth
    pub handed_on :
        length a.pending
          + length a.lost
          + a.shared.completed_threads
          + tasks_in q fifo a.shared.queues d.thread_count
        ≡ a.issued
    pub counts_late : 0 < a.shared.completed_threads → a.issued ≡ d.queue_depth

  -- A step that issues no read is one of the threads, with a context that exists.
  pub thread_exists :
      (a : Flight os q) (k : ℕ) (before after : List ℕ)
      → a.pending ≡ before ++ (k ∷ after)
      → IsFlying a
      → (k < length a.shared.file_read.contexts)
        × All (λ (i : ℕ). i < length a.shared.file_read.contexts) (before ++ after)
  thread_exists a k before after given flying =
      All-take_out (λ (i : ℕ). i < length a.shared.file_read.contexts) before k after
        (rw given at flying.all_exist)

  pub issue-IsFlying :
      (a : Flight os q) (s : Shared os q)
      → a.issued < d.queue_depth
      → IsFlying a
      → Reads os q platform fifo d a.shared s
      → IsFlying (record {
        shared = s;
        issued = a.issued + 1;
        pending = a.issued ∷ a.pending;
        lost = a.lost;
      })
  issue-IsFlying a s early flying r =
      let handed_on = flying.handed_on in
      let shallow = flying.shallow in
      let main =
        ap (λ (queues : ℕ → q.Queue). tasks_in q fifo queues d.thread_count) r.same_queues in
      record {
        invariant =
            Invariant-transport os q fifo d a.shared s r.same_count r.same_size
              (λ j le. rw r.same_queues (flying.invariant.all_tasks j le)) flying.invariant;
        even =
            subst₂ (IsBalanced q fifo d.thread_count) (sym r.same_queues)
              (sym r.same_completed_threads) flying.even;
        all_exist =
            subst (λ (n : ℕ). All (λ (k : ℕ). k < n) (a.issued ∷ a.pending)) (sym r.same_count)
              (omega (arith, early, shallow), flying.all_exist);
        shallow = rw r.same_count shallow;
        in_depth = omega arith;
        handed_on = omega (arith, handed_on, main, r.same_completed_threads);
        counts_late = λ some_counted.
            let late = flying.counts_late (rw r.same_completed_threads at some_counted) in
            absurd (omega (arith, late, early));
      }

  pub some_depth_of :
      (a : Flight os q) (k : ℕ) (before after : List ℕ)
      → a.pending ≡ before ++ (k ∷ after)
      → IsFlying a
      → (0 < d.queue_depth) × (length a.pending ≡ length (before ++ after) + 1)
  some_depth_of a k before after given flying =
      let handed_on = flying.handed_on in
      let in_depth = flying.in_depth in
      let one_more : length a.pending ≡ length (before ++ after) + 1 =
        ap (λ (is : List ℕ). length is) given
        ∙ omega (arith, length-append before (k ∷ after), length-append before after) in
      (omega (arith, handed_on, in_depth, one_more), one_more)
