-- ===== src/System/Reads.antt =====
-- Which contexts are read by the steps of the threads.
use file_read_speed_test.Base.{
  ℕ, zero, suc, ◌+◌, ◌%◌, ◌<◌, ◌≤◌, ◌≡◌, ◌≢◌, inl, inr, refl, ◌∙◌, Option, none, some, List, [],
  ◌∷◌, ◌++◌, ◌==◌, ==_iff, Bool-cases, if◌then◌else◌, ◌>>◌, return, bind_some, bind_none, sym,
  arith, Option-cases,
}
use file_read_speed_test.Words.{Platform, size_mod, quad_limit}
use file_read_speed_test.Win32.{Win32}
use file_read_speed_test.FileRead.{get_new_read_offset}
use file_read_speed_test.FileRead.Reading.{get_new_read_offset_cases}
use file_read_speed_test.TaskQueue.{TaskQueues}
use file_read_speed_test.ReadTask.{
  OverlappedIoFileReadTask, new_overlapped_io_file_read_task, Task, read_task, finished_task,
  Shared, Run, read_shared, add_task, continue_read,
}
use file_read_speed_test.ReadTask.Chain.{successor}
pub use file_read_speed_test.EntryPoint.InitialReads.{first_reads}
use file_read_speed_test.System.Counts.{sum, sum_same, sum_zero, sum_single, sum_add}
use file_read_speed_test.System.{Step, worker_step, main_step, world_step, Steps, here, and_then}

-- How often a number stands in a list.
abbrev pub times : ℕ → List ℕ → ℕ
times k [] = 0
times k (i ∷ is) = (if i == k then 1 else 0) + times k is

pub times_self : (k : ℕ) (is : List ℕ) → times k (k ∷ is) ≡ 1 + times k is
times_self k is = rw ((==_iff k k).1 refl) refl

pub times_other : (i k : ℕ) (is : List ℕ) → i ≢ k → times k (i ∷ is) ≡ times k is
times_other i k is ne = ground arith

pub times_append : (k : ℕ) (is js : List ℕ) → times k (is ++ js) ≡ times k is + times k js
times_append k [] js = omega arith
times_append k (i ∷ is) js = omega (arith, times_append k is js)

pub times-first_reads_out : (n k : ℕ) → n ≤ k → times k (first_reads n) ≡ 0
times-first_reads_out zero k ge = refl
times-first_reads_out (suc n) k ge =
    times_other n k (first_reads n) (λ e. omega arith) ∙ times-first_reads_out n k (omega arith)

pub times-first_reads_in : (n k : ℕ) → k < n → times k (first_reads n) ≡ 1
times-first_reads_in zero k lt = absurd (omega arith)
times-first_reads_in (suc n) k lt = elim (Bool-cases (n == k)) [
  | inl last ↦
      let last' = (==_iff n k).0 last in
      rw last
        (let none_below = times-first_reads_out n k (omega arith) in omega (arith, none_below))
  | inr earlier ↦
      let ne : n ≢ k = λ e. let yes = (==_iff n k).1 e in cc in
      times_other n k (first_reads n) ne ∙ times-first_reads_in n k (omega arith)
]

abbrev pub reads_at : Platform → OverlappedIoFileReadTask → Option ℕ → List ℕ
reads_at platform t none = []
reads_at platform t (some new_read_offset) = (successor t % size_mod platform) ∷ []

-- Which context the run of a task reads, if any, in terms of the task.
unfoldable pub reads_of : Platform → ℕ → OverlappedIoFileReadTask → List ℕ
reads_of platform file_size t =
    reads_at platform t
      (get_new_read_offset file_size t.current_read_start t.buffer_interval_in_bytes)

pub reads_of_next :
    (platform : Platform) (file_size : ℕ) (t : OverlappedIoFileReadTask)
    → file_size < quad_limit
    → t.current_read_start + t.buffer_interval_in_bytes < quad_limit
    → t.current_read_start + t.buffer_interval_in_bytes ≤ file_size
    → successor t % size_mod platform ≡ successor t
    → reads_of platform file_size t ≡ successor t ∷ []
unfolding reads_of
reads_of_next platform file_size t small fits inside no_wrap =
    elim (get_new_read_offset_cases file_size _ _ small fits) [
      | inl (past, _) ↦ absurd (omega arith)
      | inr (_, e) ↦ rw (e, reads_of, no_wrap) refl
    ]

pub reads_of_last :
    (platform : Platform) (file_size : ℕ) (t : OverlappedIoFileReadTask)
    → file_size < quad_limit
    → t.current_read_start + t.buffer_interval_in_bytes < quad_limit
    → file_size < t.current_read_start + t.buffer_interval_in_bytes
    → reads_of platform file_size t ≡ []
unfolding reads_of
reads_of_last platform file_size t small fits past =
    elim (get_new_read_offset_cases file_size _ _ small fits) [
      | inl (_, e) ↦ rw (e, reads_of) refl
      | inr (inside, _) ↦ absurd (omega arith)
    ]

module _ {os : Win32} {q : TaskQueues Task} where
  unfoldable pub read_all : List ℕ → Run os q (Unit {0})
  read_all [] = return tt
  read_all (i ∷ is) = read_shared os q i >> read_all is

  -- What follows the wait reads these contexts, and then adds a task to a queue.
  continue_read-reads_at :
      (platform : Platform) (t : OverlappedIoFileReadTask) (o : Option ℕ) (s : Shared os q)
      → (queue : ℕ) × (task : Task) × (continue_read os q platform t o s
          ≡ (read_all (reads_at platform t o) >> (add_task os q queue task >> return tt)) s)
  unfolding continue_read read_all
  continue_read-reads_at platform t none s = (t.main_task_queue, finished_task _, refl)
  continue_read-reads_at platform t (some offset) s =
      let i = successor t % size_mod platform in
      (
        t.task_queue,
        read_task (
            new_overlapped_io_file_read_task offset t.buffer_interval_in_bytes i t.thread_count
              t.queue_depth t.task_queue t.main_task_queue),
        elim (Option-cases (read_shared os q i s)) [
          | inl fails ↦
              bind_none (read_shared os q i) _ s fails
              ∙ sym (bind_none (read_all (i ∷ [])) _ s (bind_none (read_shared os q i) _ s fails))
          | inr ((_, s'), reads) ↦
              bind_some (read_shared os q i) _ s reads
              ∙ sym (bind_some (read_all (i ∷ [])) _ s (bind_some (read_shared os q i) _ s reads))
        ],
      )

  module _ {platform : Platform} {thread_count : ℕ} where
    -- The contexts that steps read, the last one first, after those in a list.
    abbrev pub reads_of_step : {s s' : Shared os q} → Step os q platform thread_count s s' → List ℕ
    reads_of_step {s} (worker_step j t u completion k lt popped points in_range runs) =
        reads_of platform s.file_read.file_size t
    reads_of_step (main_step f u popped runs) = []
    reads_of_step (world_step w e) = []

    abbrev pub reads_after :
        List ℕ → {s s' : Shared os q} → Steps os q platform thread_count s s' → List ℕ
    reads_after reads here = reads
    reads_after reads (and_then s' s'' before step) = reads_of_step step ++ reads_after reads before

    -- Those that the thread number `j` reads.
    abbrev pub own_reads : ℕ → {s s' : Shared os q} → Step os q platform thread_count s s' → List ℕ
    own_reads j {s} (worker_step i t u completion k lt popped points in_range runs) =
        if i == j then reads_of platform s.file_read.file_size t else []
    own_reads j (main_step f u popped runs) = []
    own_reads j (world_step w e) = []

    abbrev pub reads_by : ℕ → {s s' : Shared os q} → Steps os q platform thread_count s s' → List ℕ
    reads_by j here = []
    reads_by j (and_then s' s'' before step) = own_reads j step ++ reads_by j before

    pub times-own_reads :
        (k : ℕ) (s s' : Shared os q) (step : Step os q platform thread_count s s')
        → times k (reads_of_step step) ≡ sum (λ j. times k (own_reads j step)) thread_count
    times-own_reads k s s' (worker_step i t u completion c lt popped points in_range runs) =
        let reads = reads_of platform s.file_read.file_size t in
        let at_i : times k (if i == i then reads else []) ≡ times k reads =
          rw ((==_iff i i).1 refl) refl in
        sym at_i
        ∙ sym (
            sum_single (λ j. times k (if i == j then reads else [])) thread_count i lt
              (λ j below ne. ground arith))
    times-own_reads k s s' (main_step f u popped runs) =
        sym (sum_zero (λ j. 0) thread_count (λ j lt. refl))
    times-own_reads k s s' (world_step w e) = sym (sum_zero (λ j. 0) thread_count (λ j lt. refl))

    -- The reads of the steps are those of the threads together.
    pub times-reads_after :
        (k : ℕ) (first : List ℕ) (s s' : Shared os q)
        (steps : Steps os q platform thread_count s s')
        → times k (reads_after first steps)
          ≡ times k first + sum (λ j. times k (reads_by j steps)) thread_count
    times-reads_after k first s s' here =
        omega (arith, sum_zero (λ j. 0) thread_count (λ j lt. refl))
    times-reads_after k first s s'' (and_then s' _ before step) =
        let each =
          sum_same (λ j. times k (own_reads j step) + times k (reads_by j before))
            (λ j. times k (own_reads j step ++ reads_by j before)) thread_count
            (λ j lt. times_append k (own_reads j step) (reads_by j before)) in
        omega (
          arith,
          times_append k (reads_of_step step) (reads_after first before),
          times-reads_after k first s s' before,
          times-own_reads k s' s'' step,
          each,
          sum_add (λ j. times k (own_reads j step)) (λ j. times k (reads_by j before)) thread_count,
        )
