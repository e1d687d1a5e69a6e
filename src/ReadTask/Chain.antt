-- ===== src/ReadTask/Chain.antt =====
-- The successive tasks of one thread, over contexts that cover the file.
use file_read_speed_test.Base.{
  ℕ, ◌+◌, ◌-◌, ◌*◌, ◌/◌, ◌%◌, ◌<◌, ◌≤◌, ◌≡◌, none, some, length, get_elem?, length-set,
  get_elem?-lt, lt-ceil_of_mul-lt, ceil-mul, arith,
}
use file_read_speed_test.Words.{Platform, x86, x64, size_mod, dword_mod, quad_limit}
use file_read_speed_test.Win32.{Win32, Completion}
use file_read_speed_test.FileRead.{IoContext}
use file_read_speed_test.TaskQueue.{TaskQueues}
use file_read_speed_test.ReadTask.{OverlappedIoFileReadTask, Task, read_task, Shared, run_read_task}
use file_read_speed_test.ReadTask.Steps.{
  next_task, marked, added, has_read, run_read_task_next, run_read_task_out_of_range,
}

-- The task stands at the start of its context's buffer, and its interval is that of `queue_depth`
-- buffers.
pub record IsAligned (b : ℕ) (t : OverlappedIoFileReadTask) : Type 0 where
  pub starts : t.current_read_start ≡ t.context_index * b
  pub strides : t.buffer_interval_in_bytes ≡ t.queue_depth * b

-- The file has a context for each started buffer, and its numbers fit the machine's.
pub record IsPrepared (b : ℕ) {os : Win32} {q : TaskQueues Task} (s : Shared os q) : Type 0 where
  pub positive : 0 < b
  pub covered : length s.file_read.contexts ≡ (s.file_read.file_size + b - 1) / b
  pub few : (s.file_read.file_size + b - 1) / b < dword_mod
  pub small : s.file_read.file_size < quad_limit

-- The buffer that the task's successor would read.
abbrev pub successor : OverlappedIoFileReadTask → ℕ
successor t = t.context_index + t.queue_depth

pub mod-size_mod : (platform : Platform) (n : ℕ) → n < dword_mod → n % size_mod platform ≡ n
mod-size_mod x86 n small = omega arith
mod-size_mod x64 n small = omega arith

module _ (os : Win32) (q : TaskQueues Task) (platform : Platform) (b : ℕ) where
  run_read_task_to :
      (t : OverlappedIoFileReadTask) (s : Shared os q) (completion : Completion) (k : ℕ)
      (c d : IoContext)
      → completion.context ≡ some k
      → get_elem? s.file_read.contexts k ≡ some c
      → s.file_read.file_size < quad_limit
      → t.current_read_start + t.buffer_interval_in_bytes < quad_limit
      → t.current_read_start + t.buffer_interval_in_bytes ≤ s.file_read.file_size
      → successor t % size_mod platform ≡ successor t
      → get_elem? (marked os q platform s k c).file_read.contexts (successor t) ≡ some d
      → run_read_task os q platform t completion s
        ≡ some (
          tt,
          added os q platform
              (has_read os q platform (marked os q platform s k c) (successor t) d)
              t.task_queue
              (read_task (next_task platform t)),
        )
  run_read_task_to t s completion k c d points at_k small fits inside no_wrap at_new = rw no_wrap (
      rw no_wrap at (
        run_read_task_next os q platform t s completion k c points at_k small fits d inside
          (rw no_wrap at_new)))

  -- For shared objects that have a context for each started buffer, fewer than 2 ^ 32, and an
  -- aligned task with a completed context that exists: while the buffer `queue_depth` further on
  -- starts before the end of the file, a run is defined, marks the completed context, reads exactly
  -- that later one, and queues its successor at its own queue, which is aligned again.
  pub run_read_task-IsAligned :
      (t : OverlappedIoFileReadTask) (s : Shared os q) (completion : Completion) (k : ℕ)
      (c : IoContext)
      → IsPrepared b s
      → IsAligned b t
      → completion.context ≡ some k
      → get_elem? s.file_read.contexts k ≡ some c
      → successor t * b < s.file_read.file_size
      → (d : IoContext) × (get_elem? (marked os q platform s k c).file_read.contexts (successor t)
          ≡ some d)
        × (run_read_task os q platform t completion s
            ≡ some (
              tt,
              added os q platform
                  (has_read os q platform (marked os q platform s k c) (successor t) d)
                  t.task_queue
                  (read_task (next_task platform t)),
            ))
        × IsAligned b (next_task platform t)
  run_read_task-IsAligned t s completion k c prepared aligned points at_k inside =
      let in_range =
        lt-ceil_of_mul-lt (successor t) s.file_read.file_size b prepared.positive inside in
      let no_wrap = mod-size_mod platform (successor t) (omega arith) in
      let (d, at_new) =
        get_elem?-lt (marked os q platform s k c).file_read.contexts (successor t)
          (omega (arith, length-set {0} s.file_read.contexts k)) in
      (
        d,
        at_new,
        run_read_task_to t s completion k c d points at_k prepared.small (omega arith) (omega arith)
            no_wrap at_new,
        record { starts = rw no_wrap (omega arith); strides = aligned.strides },
      )

  -- For shared objects that have a context for each started buffer, fewer than 2 ^ 32, and an
  -- aligned task with a completed context that exists: where the buffer `queue_depth` further on
  -- would start exactly at the end of the file, a run is undefined.
  pub run_read_task_at_end :
      (t : OverlappedIoFileReadTask) (s : Shared os q) (completion : Completion) (k : ℕ)
      (c : IoContext)
      → IsPrepared b s
      → IsAligned b t
      → completion.context ≡ some k
      → get_elem? s.file_read.contexts k ≡ some c
      → successor t * b ≡ s.file_read.file_size
      → run_read_task os q platform t completion s ≡ none
  run_read_task_at_end t s completion k c prepared aligned points at_k ends =
      let count : (s.file_read.file_size + b - 1) / b ≡ successor t =
        rw ends at (ceil-mul (successor t) b prepared.positive) in
      let no_wrap = mod-size_mod platform (successor t) (omega arith) in
      run_read_task_out_of_range os q platform t s completion k c points at_k prepared.small
        (omega arith) (omega arith) (omega arith)
