-- ===== src/System/Once.antt =====
-- That each context is read exactly once, where as many reads as threads are kept in flight.
use native.Mathlib.Nat.{mod-eq_of_lt}
use file_read_speed_test.Base.{
  ℕ, ◌+◌, ◌%◌, ◌<◌, ◌≤◌, ◌≡◌, ◌≢◌, inl, inr, refl, sym, ap, ◌∙◌, true, false, some, length, ◌==◌,
  ==_iff, Bool-cases, ltb, if◌then◌else◌, ◌>>◌, arith,
}
use file_read_speed_test.Words.{Platform, size_mod}
use file_read_speed_test.Win32.{Win32}
use file_read_speed_test.TaskQueue.{TaskQueues, IsFifo, IsResponsive}
use file_read_speed_test.ReadTask.{Task, Shared}
use file_read_speed_test.EntryPoint.{Depths, add_initial_tasks, issue_initial_reads}
use file_read_speed_test.System.{Steps}
use file_read_speed_test.System.Counts.{sum, sum_zero, sum_single}
use file_read_speed_test.System.Ready.{IsReadyToStart}
use file_read_speed_test.System.Reads.{times, first_reads, reads_after}
use file_read_speed_test.System.Visits.{visits, read_times}

pub not_below : (k n : ℕ) → n ≤ k → ltb k n ≡ false
not_below k n le = ground arith

visits_own : (n k : ℕ) → 0 < n → n ≤ k → visits n k (k % n) ≡ 1
visits_own n k pos le =
    let lt : k % n < n = grind arith in
    let same = (==_iff (k % n % n) (k % n)).1 (mod-eq_of_lt lt) in rw same (ground arith)

visits_other : (n k j : ℕ) → j < n → k % n ≢ j → visits n k j ≡ 0
visits_other n k j lt ne =
    let own : j % n ≡ j = mod-eq_of_lt lt in
    let apart : ((j % n) == (k % n)) ≡ false = elim (Bool-cases ((j % n) == (k % n))) [
      | inl same ↦ absurd (ne (sym ((==_iff (j % n) (k % n)).0 same) ∙ own))
      | inr other ↦ other
    ] in
    rw apart (ground arith)

visits_early : (n k j : ℕ) → j < n → k < n → visits n k j ≡ 0
visits_early n k j below lt = elim (Bool-cases (ltb j k)) [
  | inl after ↦
      let own : k % n ≡ k = mod-eq_of_lt lt in
      let less : j < k = ground arith in visits_other n k j below (λ e. omega (arith, own, e))
  | inr not_after ↦ rw not_after (ground arith)
]

-- Of as many threads as the depth, exactly one strides over a context after the initial ones.
pub sum-visits : (n k : ℕ) → 0 < n → (if ltb k n then 1 else 0) + sum (visits n k) n ≡ 1
sum-visits n k pos = elim (Bool-cases (ltb k n)) [
  | inl initial ↦
      let lt : k < n = ground arith in
      let none_later = sum_zero (visits n k) n (λ j below. visits_early n k j below lt) in
      rw initial (omega (arith, none_later))
  | inr later ↦
      let le : n ≤ k = ground arith in
      let lt : k % n < n = grind arith in
      let one = sum_single (visits n k) n (k % n) lt (λ j below ne. visits_other n k j below ne) in
      rw later (omega (arith, one, visits_own n k pos le))
]

module _ (os : Win32) (q : TaskQueues Task) (platform : Platform) (fifo : IsFifo q) (d : Depths)
    (few : d.thread_count < size_mod platform) (same_depth : d.queue_depth ≡ d.thread_count) where
  -- With as deep a queue as there are threads, at least one thread, and responsive queues, from
  -- shared objects that are ready to start (a prepared file whose size is no multiple of the
  -- buffer's, a queue that is not deeper than the number of contexts, empty and open queues, a
  -- counter of 0, sums and products that fit): when, after any steps in any order, the main queue
  -- is shut down, the initial reads and those of the steps have read each context exactly once, and
  -- no other number.
  read_once :
      (s s' s'' : Shared os q) (k : ℕ)
      → IsResponsive q
      → 0 < d.thread_count
      → IsReadyToStart os q platform fifo d s
      → (add_initial_tasks os q platform d d.thread_count 0 0
            >> issue_initial_reads os q platform d)
          s
        ≡ some (tt, s')
      → (steps : Steps os q platform d.thread_count s' s'')
      → q.is_shutting_down (s''.queues d.thread_count) ≡ true
      → times k (reads_after (first_reads d.queue_depth) steps)
        ≡ (if ltb k (length s.file_read.contexts) then 1 else 0)
  read_once s s' s'' k responsive some_thread ready starts steps shut =
      let n = d.thread_count in
      let shallow = ready.shallow in
      let counted =
        read_times os q platform fifo d few (omega (arith, same_depth)) s s' s'' k responsive
          some_thread ready starts steps shut in
      let same =
        ap
          (λ (depth : ℕ).
            (if ltb k depth then 1 else 0)
            + (if ltb k (length s.file_read.contexts) then sum (visits depth k) n else 0))
          same_depth in
      counted ∙ same ∙ elim (Bool-cases (ltb k (length s.file_read.contexts))) [
        | inl inside ↦ rw inside (sum-visits n k some_thread)
        | inr outside ↦
            let late : length s.file_read.contexts ≤ k = ground arith in
            let past : ltb k n ≡ false = not_below k n (omega (arith, shallow, same_depth, late)) in
            rw (outside, past) refl
      ]
