-- ===== src/System/Flight/Marking.antt =====
-- Which contexts a run of a task completes.
use mathlib.Core.Path.{subst}
use file_read_speed_test.Base.{
  ℕ, ◌+◌, ◌%◌, ◌<◌, ◌≡◌, inl, inr, refl, sym, ◌∙◌, true, Option, none, some, length, get_elem?,
  get_elem?-set_self, get_elem?-lt, Option-cases, bind_some, bind_none,
}
use file_read_speed_test.Words.{Platform, size_mod, quad_limit}
use file_read_speed_test.Win32.{Win32, Completion}
use file_read_speed_test.FileRead.{IoContext}
use file_read_speed_test.TaskQueue.{TaskQueues, IsFifo}
use file_read_speed_test.ReadTask.{
  OverlappedIoFileReadTask, new_overlapped_io_file_read_task, Task, read_task, Shared, read_shared,
  add_task, continue_read, run_read_task,
}
use file_read_speed_test.ReadTask.Steps.{marked, added, run_read_task-marked}
use file_read_speed_test.EntryPoint.{Depths}
use file_read_speed_test.EntryPoint.InitialReads.{read_shared_exists}
use file_read_speed_test.System.Safety.{same_result}
use file_read_speed_test.System.Flight.Reading.{
  Holds, IsComplete, IsStable, complete-IsStable, set-Holds, read_shared-Holds,
}

module _ (os : Win32) (q : TaskQueues Task) (platform : Platform) (fifo : IsFifo q)
    (d : Depths) where
  module _ (P : IoContext → Type 0) (stable : IsStable P) where
    continue_read-Holds :
        (t : OverlappedIoFileReadTask) (o : Option ℕ) (s s' : Shared os q) (i : ℕ)
        → continue_read os q platform t o s ≡ some (tt, s')
        → Holds P i s.file_read.contexts
        → Holds P i s'.file_read.contexts
    unfolding continue_read add_task
    continue_read-Holds t none s s' i runs holds =
        subst (λ (x : Shared os q). Holds P i x.file_read.contexts)
          (same_result os q platform fifo d refl runs) holds
    continue_read-Holds t (some offset) s s' i runs holds =
        let next = (t.context_index + t.queue_depth) % size_mod platform in
        elim (Option-cases (read_shared os q next s)) [
          | inl fails ↦
              let undefined = bind_none (read_shared os q next) _ s fails in
              absurd (let contra = sym undefined ∙ runs in cc)
          | inr ((_, s''), reads) ↦
              let exists = read_shared_exists os q platform s s'' next reads in
              let task = read_task (
                new_overlapped_io_file_read_task offset t.buffer_interval_in_bytes next
                  t.thread_count t.queue_depth t.task_queue t.main_task_queue) in
              let goes_on : continue_read os q platform t (some offset) s
                  ≡ some (tt, added os q platform s'' t.task_queue task) =
                bind_some (read_shared os q next) _ s reads in
              subst (λ (x : Shared os q). Holds P i x.file_read.contexts)
                (same_result os q platform fifo d goes_on runs)
                (read_shared-Holds os q platform fifo d P s s'' next i stable exists reads holds)
        ]

    module _ (t : OverlappedIoFileReadTask) (completion : Completion) (s s' : Shared os q) (k : ℕ)
        (small : s.file_read.file_size < quad_limit)
        (fits : t.current_read_start + t.buffer_interval_in_bytes < quad_limit)
        (points : completion.context ≡ some k) (in_range : k < length s.file_read.contexts)
        (runs : run_read_task os q platform t completion s ≡ some (tt, s')) where
      -- What holds of the contexts once the one of the completion is marked, holds after the run.
      marked-Holds :
          (i : ℕ) (c : IoContext)
          → get_elem? s.file_read.contexts k ≡ some c
          → Holds P i (marked os q platform s k c).file_read.contexts
          → Holds P i s'.file_read.contexts
      marked-Holds i c at_k holds =
          continue_read-Holds t _ (marked os q platform s k c) s' i
            (sym (run_read_task-marked os q platform t s completion k c points at_k small fits)
              ∙ runs)
            holds

      pub run_read_task-Holds :
          (i : ℕ) → Holds P i s.file_read.contexts → Holds P i s'.file_read.contexts
      run_read_task-Holds i holds =
          let (c, at_k) = get_elem?-lt s.file_read.contexts k in_range in
          marked-Holds i c at_k
            (set-Holds P s.file_read.contexts k i c _ at_k (stable.on_completion c _) holds)

  -- A run completes the context that it was given.
  pub run_read_task-completes :
      (t : OverlappedIoFileReadTask) (completion : Completion) (s s' : Shared os q) (k : ℕ)
      → s.file_read.file_size < quad_limit
      → t.current_read_start + t.buffer_interval_in_bytes < quad_limit
      → completion.context ≡ some k
      → k < length s.file_read.contexts
      → run_read_task os q platform t completion s ≡ some (tt, s')
      → IsComplete k s'.file_read.contexts
  run_read_task-completes t completion s s' k small fits points in_range runs =
      let (c, at_k) = get_elem?-lt s.file_read.contexts k in_range in
      marked-Holds (λ x. x.is_complete ≡ true) complete-IsStable t completion s s' k small fits
        points in_range runs k c at_k
        (_, get_elem?-set_self s.file_read.contexts k _ in_range, refl)
