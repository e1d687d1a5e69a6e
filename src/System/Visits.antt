-- ===== src/System/Visits.antt =====
-- How often each context is read.
use file_read_speed_test.Base.{
  ℕ, ◌+◌, ◌%◌, ◌<◌, ◌≤◌, ◌≡◌, inl, inr, refl, sym, ap, ◌∙◌, Bool, true, ◌&&◌, some, List, [], ◌∷◌,
  length, ◌==◌, ==_iff, Bool-cases, ltb, leb, if◌then◌else◌, ◌>>◌, arith,
}
use file_read_speed_test.Words.{Platform, size_mod}
use file_read_speed_test.Win32.{Win32}
use file_read_speed_test.TaskQueue.{TaskQueues, IsFifo, IsResponsive}
use file_read_speed_test.ReadTask.{Task, Shared}
use file_read_speed_test.EntryPoint.{Depths, add_initial_tasks, issue_initial_reads}
use file_read_speed_test.System.{Steps}
use file_read_speed_test.System.Counts.{sum, sum_same, sum_zero}
use file_read_speed_test.System.Shutdown.{main_queue_closes}
use file_read_speed_test.System.Ready.{IsReadyToStart}
use file_read_speed_test.System.Launch.{starts-HasStarted}
use file_read_speed_test.System.Reads.{
  times, first_reads, reads_after, reads_by, times-reads_after, times-first_reads_in,
  times-first_reads_out,
}
use file_read_speed_test.System.Turns.{Share-transport}
use file_read_speed_test.System.Following.{Steps-AreAt, start-AreAt, Steps-count}
use file_read_speed_test.System.Share.{Share, turn, turn_after, turn_up, of_residue}

pub no_tasks : (tasks : List Task) → length tasks ≡ 0 → tasks ≡ []
no_tasks [] e = refl
no_tasks (task ∷ tasks) e = absurd (omega (arith, e))

-- 1 for a context that a thread strides over after its first one, 0 for any other.
abbrev pub visits : ℕ → ℕ → ℕ → ℕ
visits depth k j = if ltb j k && ((j % depth) == (k % depth)) then 1 else 0

pub first_reads-times : (n k : ℕ) → times k (first_reads n) ≡ (if ltb k n then 1 else 0)
first_reads-times n k = elim (Bool-cases (ltb k n)) [
  | inl inside ↦ rw inside (times-first_reads_in n k (ground arith))
  | inr outside ↦ rw outside (times-first_reads_out n k (ground arith))
]

-- The turns of a thread that has come to its end.
ended-turn :
    (depth count j k i : ℕ) (reads : List ℕ)
    → Share depth count j reads []
    → 0 < i
    → turn depth j i ≡ k
    → times k reads ≡ (if ltb k count then 1 else 0)
ended-turn depth count j k i reads f more is_turn = elim f.stands [
  | inl (t, one, _) ↦ absurd (let e = one in cc)
  | inr (_, past) ↦ ap (λ (x : ℕ). times x reads) (sym is_turn) ∙ elim (Bool-cases (leb i f.last)) [
    | inl early_turn ↦
        let le : i ≤ f.last = ground arith in
        let up = turn_up depth j f.last i le in
        let within : k < count = omega (arith, f.in_count (omega arith), up, is_turn) in
        f.read_once i more le ∙ ground arith
    | inr late ↦
        let later : f.last < i = ground arith in
        let after = turn_after depth j f.last i later in
        let outside : count ≤ k = omega (arith, past, after, is_turn) in
        f.not_read i later ∙ ground arith
  ]
]

-- Where a thread has come to its end, it has read what it strides over, once.
ended-times :
    (depth count j k : ℕ) (reads : List ℕ)
    → 0 < depth
    → Share depth count j reads []
    → times k reads ≡ (if ltb k count then visits depth k j else 0)
ended-times depth count j k reads pos f = elim (Bool-cases (ltb j k)) [
  | inr not_after ↦
      let le : k ≤ j = ground arith in f.others k (inl le) ∙ rw not_after (ground arith)
  | inl after ↦ elim (Bool-cases ((j % depth) == (k % depth))) [
    | inr other ↦
        f.others k (inr (λ e. let yes = (==_iff (j % depth) (k % depth)).1 e in cc))
        ∙ rw (after, other) (ground arith)
    | inl same ↦
        let (i, more, is_turn) =
          of_residue depth j k pos (ground arith) ((==_iff (j % depth) (k % depth)).0 same) in
        rw (after, same) (ended-turn depth count j k i reads f more is_turn)
  ]
]

module _ (os : Win32) (q : TaskQueues Task) (platform : Platform) (fifo : IsFifo q) (d : Depths)
    (few : d.thread_count < size_mod platform) (some_depth : 0 < d.queue_depth) where
  pub total-shares :
      (k count : ℕ) (reads : ℕ → List ℕ)
      → ((j : ℕ) → j < d.thread_count → Share d.queue_depth count j (reads j) [])
      → sum (λ j. times k (reads j)) d.thread_count
        ≡ (if ltb k count then sum (visits d.queue_depth k) d.thread_count else 0)
  total-shares k count reads shares =
      let n = d.thread_count in
      let each = λ (j : ℕ) (lt : j < n).
        ended-times d.queue_depth count j k (reads j) some_depth (shares j lt) in
      elim (Bool-cases (ltb k count)) [
        | inl inside ↦ rw inside (
            sum_same (visits d.queue_depth k) (λ j. times k (reads j)) n
              (λ j lt.
                each j lt ∙ ap (λ (b : Bool). if b then visits d.queue_depth k j else 0) inside))
        | inr outside ↦ rw outside (
            sum_zero (λ j. times k (reads j)) n
              (λ j lt.
                each j lt ∙ ap (λ (b : Bool). if b then visits d.queue_depth k j else 0) outside))
      ]

  -- With a queue of a depth other than 0, at least one thread, and responsive queues, from shared
  -- objects that are ready to start (a prepared file whose size is no multiple of the buffer's, a
  -- queue that is not deeper than the number of contexts, empty and open queues, a counter of 0,
  -- sums and products that fit): when, after any steps in any order, the main queue is shut down,
  -- the initial reads and those of the steps have read a context once if its number is below the
  -- depth, and once more for each thread with a smaller number of the same residue modulo the
  -- depth, and no number that is not a context's.
  pub read_times :
      (s s' s'' : Shared os q) (k : ℕ)
      → IsResponsive q
      → 0 < d.thread_count
      → IsReadyToStart os q platform fifo d s
      → (add_initial_tasks os q platform d d.thread_count 0 0
            >> issue_initial_reads os q platform d)
          s
        ≡ some (tt, s')
      → (steps : Steps os q platform d.thread_count s' s'')
      → q.is_shutting_down (s''.queues d.thread_count) ≡ true
      → times k (reads_after (first_reads d.queue_depth) steps)
        ≡ (if ltb k d.queue_depth then 1 else 0)
          + (if ltb k (length s.file_read.contexts)
              then sum (visits d.queue_depth k) d.thread_count
              else 0)
  read_times s s' s'' k responsive some_thread ready starts steps shut =
      let n = d.thread_count in
      let has = starts-HasStarted os q platform fifo d s s' responsive ready starts in
      let none_left =
        (main_queue_closes os q platform fifo d few s' s'' some_thread has.invariant has.even
            steps).0
          shut in
      let same_count =
        Steps-count os q platform fifo d few some_depth s' s'' steps has.invariant has.even
        ∙ has.same_count in
      let are_at =
        Steps-AreAt os q platform fifo d few some_depth s' s'' steps has.invariant has.even
          (start-AreAt os q platform fifo d few some_depth s s' has) in
      let shares = λ (j : ℕ) (lt : j < n).
        Share-transport (sym same_count) refl
          (sym (no_tasks (fifo.tasks (s''.queues j)) (none_left j (omega arith)))) (are_at j lt) in
      times-reads_after k (first_reads d.queue_depth) s' s'' steps
      ∙ ap (λ (x : ℕ). times k (first_reads d.queue_depth) + x)
          (total-shares k (length s.file_read.contexts) (λ j. reads_by j steps) shares)
      ∙ ap
          (λ (x : ℕ).
            x + (if ltb k (length s.file_read.contexts) then sum (visits d.queue_depth k) n else 0))
          (first_reads-times d.queue_depth k)
