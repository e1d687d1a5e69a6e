-- ===== src/ReadTask/Steps.antt =====
-- What one run of a task does to the shared objects, on every branch.
use file_read_speed_test.Base.{
  ℕ, ◌+◌, ◌%◌, ◌<◌, ◌≤◌, ◌≡◌, inl, inr, refl, true, none, some, length, get_elem?, set, length-set,
  arith, bind_some, bind_none, ◌∙◌,
}
use file_read_speed_test.Words.{Platform, size_mod, quad_limit}
use file_read_speed_test.Win32.{Win32, Completion}
use file_read_speed_test.FileRead.{IoContext, get_new_read_offset}
use file_read_speed_test.FileRead.Reading.{
  get_new_read_offset_cases, read_in_range, read_out_of_range, started, world_after,
}
use file_read_speed_test.TaskQueue.{TaskQueues}
use file_read_speed_test.ReadTask.{
  OverlappedIoFileReadTask, Task, read_task, finished_task, Shared, update, in_world, read_shared,
  add_task, mark_complete, continue_read, run_read_task,
}

-- The task that `Run` adds to its own queue.
abbrev pub next_task : Platform → OverlappedIoFileReadTask → OverlappedIoFileReadTask
next_task platform t = record t {
  current_read_start = t.current_read_start + t.buffer_interval_in_bytes;
  context_index = (t.context_index + t.queue_depth) % size_mod platform;
}

-- The task that it adds to the main queue in the end.
abbrev pub last_task : OverlappedIoFileReadTask → Task
last_task t =
    finished_task (record { thread_count = t.thread_count; main_task_queue = t.main_task_queue })

module _ (os : Win32) (q : TaskQueues Task) (platform : Platform) where
  module _ (s : Shared os q) (k : ℕ) (c : IoContext) where
    -- The shared objects when the context `c`, number `k`, has been marked as complete.
    abbrev pub marked : Shared os q
    marked = record s {
      file_read = record s.file_read {
        contexts =
            set s.file_read.contexts k
              (record c { request_complete_time = (os.now s.world).0; is_complete = true });
      };
      world = (os.now s.world).1;
    }

  -- The shared objects when a task has been added to a queue.
  abbrev pub added : Shared os q → ℕ → Task → Shared os q
  added s queue task = record s {
    queues = update s.queues queue (q.add_task task (s.queues queue)).1;
  }

  -- The shared objects when the context `c`, number `i`, has been read.
  abbrev pub has_read : Shared os q → ℕ → IoContext → Shared os q
  has_read s i c = record s {
    file_read = record s.file_read {
      contexts = set s.file_read.contexts i (started os s.file_read i s.world c);
    };
    world = world_after os s.file_read i s.world c;
  }

  module _ (t : OverlappedIoFileReadTask) (s : Shared os q) (completion : Completion) (k : ℕ)
      (c : IoContext) (points : completion.context ≡ some k)
      (at_k : get_elem? s.file_read.contexts k ≡ some c)
      (small : s.file_read.file_size < quad_limit)
      (fits : t.current_read_start + t.buffer_interval_in_bytes < quad_limit) where
    pub run_read_task-marked :
        run_read_task os q platform t completion s
        ≡ continue_read os q platform t
            (get_new_read_offset s.file_read.file_size t.current_read_start
              t.buffer_interval_in_bytes)
            (marked s k c)
    unfolding run_read_task mark_complete in_world
    run_read_task-marked = rw (points, run_read_task) (bind_some (mark_complete os q k _) _ _ marks)
      where
        marks :
            mark_complete os q k (os.now s.world).0 (record s { world = (os.now s.world).1 })
            ≡ some (tt, marked s k c)
        marks = rw (at_k, mark_complete)

    abbrev pub new_context_index : ℕ
    new_context_index = (t.context_index + t.queue_depth) % size_mod platform

    -- For a completed context that exists and sums that fit 63 bits, where the next offset lies
    -- beyond the size of the file a run is defined: it marks the completed context, tells the main
    -- queue, and issues no read.
    pub run_read_task_last :
        s.file_read.file_size < t.current_read_start + t.buffer_interval_in_bytes
        → run_read_task os q platform t completion s
          ≡ some (tt, added (marked s k c) t.main_task_queue (last_task t))
    unfolding continue_read add_task
    run_read_task_last past =
        elim (get_new_read_offset_cases s.file_read.file_size t.current_read_start
          t.buffer_interval_in_bytes small fits) [
            | inl (_, ends) ↦ rw (run_read_task-marked, ends) refl
            | inr (inside, _) ↦ absurd (omega arith)
          ]

    -- Otherwise, if the context `queue_depth` further on exists, the run marks the completed
    -- context, reads that one, and queues the task for it behind itself.
    pub run_read_task_next :
        (d : IoContext)
        → t.current_read_start + t.buffer_interval_in_bytes ≤ s.file_read.file_size
        → get_elem? (marked s k c).file_read.contexts new_context_index ≡ some d
        → run_read_task os q platform t completion s
          ≡ some (
            tt,
            added
                (has_read (marked s k c) new_context_index d)
                t.task_queue
                (read_task (next_task platform t)),
          )
    unfolding continue_read add_task read_shared
    run_read_task_next d inside at_new =
        elim (get_new_read_offset_cases s.file_read.file_size t.current_read_start
          t.buffer_interval_in_bytes small fits) [
            | inl (past, _) ↦ absurd (omega arith)
            | inr (_, goes_on) ↦
                run_read_task-marked
                ∙ rw goes_on (bind_some (read_shared os q new_context_index) _ _ reads)
          ]
      where
        reads :
            read_shared os q new_context_index (marked s k c)
            ≡ some (tt, has_read (marked s k c) new_context_index d)
        reads =
            rw (read_in_range os (marked s k c).file_read new_context_index _ d at_new, read_shared)

    -- And if it does not exist, the run is undefined.
    pub run_read_task_out_of_range :
        t.current_read_start + t.buffer_interval_in_bytes ≤ s.file_read.file_size
        → length s.file_read.contexts ≤ new_context_index
        → run_read_task os q platform t completion s ≡ none
    unfolding continue_read read_shared
    run_read_task_out_of_range inside past =
        elim (get_new_read_offset_cases s.file_read.file_size t.current_read_start
          t.buffer_interval_in_bytes small fits) [
            | inl (out, _) ↦ absurd (omega arith)
            | inr (_, goes_on) ↦
                run_read_task-marked
                ∙ rw goes_on (bind_none (read_shared os q new_context_index) _ _ fails)
          ]
      where
        fails : read_shared os q new_context_index (marked s k c) ≡ none
        fails = rw (
          read_out_of_range os (marked s k c).file_read new_context_index _
              (omega (arith, length-set {0} s.file_read.contexts k)),
          read_shared,
        )
