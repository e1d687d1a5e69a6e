-- ===== src/System/Flight/Asking.antt =====
-- What the code hands to `ReadFile` while reads are in flight.
use mathlib.Core.Path.{subst}
use mathlib.Core.Option.{some-injective}
use file_read_speed_test.Base.{
  ℕ, ◌+◌, ◌%◌, ◌<◌, ◌≡◌, refl, sym, ap, ◌∙◌, inl, inr, Option, none, some, List, [], ◌∷◌, ◌++◌,
  length, get_elem?-lt, ◌==◌, Bool-cases, Option-cases, bind_some, bind_none,
}
use file_read_speed_test.Words.{Platform, size_mod, quad_limit}
use file_read_speed_test.Win32.{Win32, Completion}
use file_read_speed_test.TaskQueue.{TaskQueues, IsFifo}
use file_read_speed_test.ReadTask.{
  OverlappedIoFileReadTask, Finished, new_overlapped_io_file_read_task, Task, read_task, Shared,
  update, read_shared, add_task, continue_read, run_read_task, run_finished,
}
use file_read_speed_test.ReadTask.Steps.{marked, added, run_read_task-marked}
use file_read_speed_test.EntryPoint.{Depths}
use file_read_speed_test.EntryPoint.InitialReads.{read_shared_in_range, read_shared_exists}
use file_read_speed_test.ReadTask.Requests.{Asks, nothing_asked, has_read-Asks}
use file_read_speed_test.System.Reads.{reads_at, reads_of}
use file_read_speed_test.System.{with_queue}
use file_read_speed_test.System.Safety.{same_result, worker-Moves}
use file_read_speed_test.System.Flight.{Flight}
use file_read_speed_test.System.Flight.Flying.{IsFlying, thread_exists}

module _ (os : Win32) (q : TaskQueues Task) where
  module _ (platform : Platform) where
    pub read_shared-Asks :
        (s s' : Shared os q) (i : ℕ)
        → read_shared os q i s ≡ some (tt, s')
        → Asks os q s s' (i ∷ [])
    read_shared-Asks s s' i reads =
        let lt = read_shared_exists os q platform s s' i reads in
        let (c, at_i) = get_elem?-lt s.file_read.contexts i lt in
        subst (λ (x : Shared os q). Asks os q s x (i ∷ []))
          (ap (λ (p : Unit {0} × Shared os q). p.1)
            (some-injective _ _ (sym (read_shared_in_range os q platform s i c at_i) ∙ reads)))
          (has_read-Asks os q platform s i c at_i)

module _ (os : Win32) (q : TaskQueues Task) (platform : Platform) (fifo : IsFifo q)
    (d : Depths) where
  continue_read-Asks :
      (t : OverlappedIoFileReadTask) (o : Option ℕ) (s s' : Shared os q)
      → continue_read os q platform t o s ≡ some (tt, s')
      → Asks os q s s' (reads_at platform t o)
  unfolding continue_read add_task
  continue_read-Asks t none s s' runs =
      subst (λ (x : Shared os q). Asks os q s x []) (same_result os q platform fifo d refl runs)
        (nothing_asked os q s _ refl refl)
  continue_read-Asks t (some offset) s s' runs =
      let next = (t.context_index + t.queue_depth) % size_mod platform in
      elim (Option-cases (read_shared os q next s)) [
        | inl fails ↦
            let undefined = bind_none (read_shared os q next) _ s fails in
            absurd (let contra = sym undefined ∙ runs in cc)
        | inr ((_, s''), reads) ↦
            let task = read_task (
              new_overlapped_io_file_read_task offset t.buffer_interval_in_bytes next t.thread_count
                t.queue_depth t.task_queue t.main_task_queue) in
            let goes_on : continue_read os q platform t (some offset) s
                ≡ some (tt, added os q platform s'' t.task_queue task) =
              bind_some (read_shared os q next) _ s reads in
            let asks = read_shared-Asks os q platform s s'' next reads in
            subst (λ (x : Shared os q). Asks os q s x (next ∷ []))
              (same_result os q platform fifo d goes_on runs)
              (record {
                rs = asks.rs;
                grows = asks.grows;
                same_contexts = asks.same_contexts;
                are_requests = asks.are_requests;
                same_file = asks.same_file;
              })
      ]

  -- A run asks for the context that its task goes on to.
  pub run_read_task-Asks :
      (t : OverlappedIoFileReadTask) (completion : Completion) (s s' : Shared os q) (k : ℕ)
      → s.file_read.file_size < quad_limit
      → t.current_read_start + t.buffer_interval_in_bytes < quad_limit
      → completion.context ≡ some k
      → k < length s.file_read.contexts
      → run_read_task os q platform t completion s ≡ some (tt, s')
      → Asks os q s s' (reads_of platform s.file_read.file_size t)
  unfolding reads_of
  run_read_task-Asks t completion s s' k small fits points in_range runs =
      let (c, at_k) = get_elem?-lt s.file_read.contexts k in_range in
      let asks = continue_read-Asks t _ (marked os q platform s k c) s' (
        sym (run_read_task-marked os q platform t s completion k c points at_k small fits)
        ∙ runs) in
      record {
        rs = asks.rs;
        grows = asks.grows ∙ ap (λ xs. asks.rs ++ xs) (os.now_requests s.world);
        same_contexts = asks.same_contexts;
        are_requests = asks.are_requests;
        same_file = asks.same_file;
      }

  -- The message of a thread asks for nothing.
  pub run_finished-Asks :
      (f : Finished) (s s' : Shared os q)
      → run_finished os q platform f s ≡ some (tt, s')
      → Asks os q s s' []
  unfolding run_finished
  run_finished-Asks f s s' runs =
      let completed = (s.completed_threads + 1) % size_mod platform in
      let n = f.main_task_queue in
      let counted : Shared os q = record s { completed_threads = completed } in
      let shut : Shared os q = record counted {
        queues = update s.queues n (q.shutdown (s.queues n));
      } in
      elim (Bool-cases (completed == f.thread_count)) [
        | inl all ↦
            let to_shut : run_finished os q platform f s ≡ some (tt, shut) =
              rw (all, run_finished) refl in
            subst (λ (x : Shared os q). Asks os q s x [])
              (same_result os q platform fifo d {s = shut} to_shut runs)
              (nothing_asked os q s shut refl refl)
        | inr not_all ↦
            let to_counted : run_finished os q platform f s ≡ some (tt, counted) =
              rw (not_all, run_finished) refl in
            subst (λ (x : Shared os q). Asks os q s x [])
              (same_result os q platform fifo d {s = counted} to_counted runs)
              (nothing_asked os q s counted refl refl)
      ]

module _ (os : Win32) (q : TaskQueues Task) (platform : Platform) (fifo : IsFifo q) (d : Depths)
    (few : d.thread_count < size_mod platform) where
  pub thread-Asks :
      (a : Flight os q) (s : Shared os q) (j : ℕ) (t : OverlappedIoFileReadTask) (u : q.Queue)
      (completion : Completion) (k : ℕ) (before after : List ℕ)
      → j < d.thread_count
      → q.try_pop_task (a.shared.queues j) ≡ (some (read_task t), u)
      → completion.context ≡ some k
      → a.pending ≡ before ++ (k ∷ after)
      → run_read_task os q platform t completion
          (with_queue os q platform d.thread_count a.shared j u)
        ≡ some (tt, s)
      → IsFlying os q platform fifo d few a
      → Asks os q a.shared s (reads_of platform a.shared.file_read.file_size t)
  thread-Asks a s j t u completion k before after lt popped points given runs flying =
      let (in_range, _) = thread_exists os q platform fifo d few a k before after given flying in
      let inv = flying.invariant in
      let (sound, _, _) =
        worker-Moves os q platform fifo d a.shared s j t u completion k inv lt popped points
          in_range runs in
      let asks =
        run_read_task-Asks os q platform fifo d t completion
          (with_queue os q platform d.thread_count a.shared j u) s k inv.prepared.small sound.fits
          points in_range runs in
      record {
        rs = asks.rs;
        grows = asks.grows;
        same_contexts = asks.same_contexts;
        are_requests = asks.are_requests;
        same_file = asks.same_file;
      }

  pub count-Asks :
      (a : Flight os q) (s : Shared os q) (f : Finished) (u : q.Queue)
      → run_finished os q platform f
          (with_queue os q platform d.thread_count a.shared d.thread_count u)
        ≡ some (tt, s)
      → Asks os q a.shared s []
  count-Asks a s f u runs =
      let asks =
        run_finished-Asks os q platform fifo d f
          (with_queue os q platform d.thread_count a.shared d.thread_count u) s runs in
      record {
        rs = asks.rs;
        grows = asks.grows;
        same_contexts = asks.same_contexts;
        are_requests = asks.are_requests;
        same_file = asks.same_file;
      }
