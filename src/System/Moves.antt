-- ===== src/System/Moves.antt =====
-- What a read task does among the tasks of the other threads.
use mathlib.Core.Path.{subst}
use mathlib.Core.Option.{some-injective}
use file_read_speed_test.Base.{
  ℕ, ◌+◌, ◌*◌, ◌%◌, ◌<◌, ◌≤◌, ◌≡◌, ◌≢◌, ◌⊎◌, inl, inr, refl, sym, ap, ◌∙◌, some, length, length-set,
  get_elem?, get_elem?-lt, get_elem?-set_self, get_elem?-set_ne, lt_of_get_elem?, set, List,
  lt-ceil_of_mul-lt, arith, ==_iff, Bool-cases, ◌==◌,
}
use file_read_speed_test.Words.{Platform, quad_limit}
use file_read_speed_test.Win32.{Win32, Completion}
use file_read_speed_test.FileRead.{IoContext}
use file_read_speed_test.TaskQueue.{TaskQueues, IsFifo}
use file_read_speed_test.ReadTask.{
  OverlappedIoFileReadTask, Task, read_task, Shared, update, run_read_task,
}
use file_read_speed_test.ReadTask.Steps.{
  next_task, last_task, marked, added, has_read, run_read_task_last,
}
use file_read_speed_test.ReadTask.Chain.{
  IsAligned, successor, mod-size_mod, run_read_task-IsAligned,
}
use file_read_speed_test.EntryPoint.{Depths}
use file_read_speed_test.System.Invariant.{
  IsSound, IsTaskOf, Invariant, Invariant-transport, Invariant-added,
}

ne_of_ragged : (m size b : ℕ) → size % b ≢ 0 → 0 < b → m * b ≢ size
ne_of_ragged m size b ragged pos e = ragged (grind arith)

lt_or_gt : (m n : ℕ) → m ≢ n → (m < n) ⊎ (n < m)
lt_or_gt m n ne = ground arith

-- Marking a context leaves every start time.
marked_start_time :
    (contexts : List IoContext) (k i : ℕ) (c x new : IoContext)
    → get_elem? contexts k ≡ some c
    → get_elem? contexts i ≡ some x
    → new.request_start_time ≡ c.request_start_time
    → (y : IoContext) × (get_elem? (set contexts k new) i ≡ some y)
      × (y.request_start_time ≡ x.request_start_time)
marked_start_time contexts k i c x new at_k at_i same = elim (Bool-cases (k == i)) [
  | inl equal ↦
      let equal' = (==_iff k i).0 equal in
      let is_x : c ≡ x = some-injective _ _ (sym at_k ∙ ap (get_elem? contexts) equal' ∙ at_i) in
      (
        new,
        ap (get_elem? (set contexts k new)) (sym equal')
            ∙ get_elem?-set_self contexts k new (lt_of_get_elem? contexts k c at_k),
        same ∙ ap (λ (z : IoContext). z.request_start_time) is_x,
      )
  | inr other ↦
      let ne : k ≢ i = λ e. let yes = (==_iff k i).1 e in cc in
      (x, get_elem?-set_ne contexts new ne ∙ at_i, refl)
]

module _ (os : Win32) (q : TaskQueues Task) (platform : Platform) (fifo : IsFifo q)
    (d : Depths) where
  -- What a read task of the thread number `j` does, on the completion of any context: it reads the
  -- successor's context and queues the successor, or tells the main queue. No other context gets a
  -- start time.
  pub record Moves (t : OverlappedIoFileReadTask) (j : ℕ) (s s' : Shared os q) : Type 0 where
    pub same_completed_threads : s'.completed_threads ≡ s.completed_threads
    pub same_size : s'.file_read.file_size ≡ s.file_read.file_size
    pub same_count : length s'.file_read.contexts ≡ length s.file_read.contexts
    pub goes :
        ((successor t * d.buffer_size < s.file_read.file_size)
          × (successor t < length s.file_read.contexts)
          × ((next_task platform t).context_index ≡ successor t)
          × (s'.queues
              ≡ update s.queues j (q.add_task (read_task (next_task platform t)) (s.queues j)).1))
        ⊎ ((s.file_read.file_size < successor t * d.buffer_size)
            × (s'.queues
                ≡ update s.queues d.thread_count
                    (q.add_task (last_task t) (s.queues d.thread_count)).1))
    pub unread :
        (i : ℕ) (c : IoContext)
        → get_elem? s.file_read.contexts i ≡ some c
        → i ≢ successor t
        → (c' : IoContext) × (get_elem? s'.file_read.contexts i ≡ some c')
          × (c'.request_start_time ≡ c.request_start_time)

  -- The successor of a sound task is sound if its buffer starts inside the file.
  next-IsSound :
      (j : ℕ) (t : OverlappedIoFileReadTask) (size : ℕ)
      → IsSound d j t
      → size + d.queue_depth * d.buffer_size < quad_limit
      → successor t * d.buffer_size < size
      → IsAligned d.buffer_size (next_task platform t)
      → IsSound d j (next_task platform t)
  next-IsSound j t size sound room inside next =
      let same_stride = ap (λ (n : ℕ). n * d.buffer_size) sound.depth in
      record {
        aligned = next;
        depth = sound.depth;
        count = sound.count;
        own_queue = sound.own_queue;
        main_queue = sound.main_queue;
        fits = omega (arith, same_stride, sound.aligned.starts, sound.aligned.strides);
      }

  -- A task of the queue number `j` is added to it under an equal number.
  adding :
      (s : Shared os q) (i j : ℕ) (task : Task)
      → i ≡ j
      → j ≤ d.thread_count
      → IsTaskOf d j task
      → Invariant os q fifo d s
      → Invariant os q fifo d (added os q platform s i task)
        × (update s.queues i (q.add_task task (s.queues i)).1
            ≡ update s.queues j (q.add_task task (s.queues j)).1)
  adding s i j task e le sound inv = (
    subst (λ (n : ℕ). Invariant os q fifo d (added os q platform s n task)) (sym e)
        (Invariant-added os q fifo d platform s inv j task le sound),
    ap (λ (n : ℕ). update s.queues n (q.add_task task (s.queues n)).1) e,
  )

  -- A sound task on the completion of a context that exists runs to an end, and keeps the invariant.
  pub run_read_task-Invariant :
      (j : ℕ) (t : OverlappedIoFileReadTask) (s : Shared os q) (completion : Completion) (k : ℕ)
      → j < d.thread_count
      → IsSound d j t
      → completion.context ≡ some k
      → k < length s.file_read.contexts
      → Invariant os q fifo d s
      → (s' : Shared os q) × (run_read_task os q platform t completion s ≡ some (tt, s'))
        × Invariant os q fifo d s'
        × Moves t j s s'
  run_read_task-Invariant j t s completion k lt sound points in_range inv =
      let (c, at_k) = get_elem?-lt s.file_read.contexts k in_range in
      let b = d.buffer_size in
      let size = s.file_read.file_size in
      let s₁ = marked os q platform s k c in
      let inv₁ : Invariant os q fifo d s₁ =
        Invariant-transport os q fifo d s s₁ (length-set s.file_read.contexts k _) refl
          inv.all_tasks inv in
      elim (lt_or_gt (successor t * b) size
        (ne_of_ragged (successor t) size b inv.ragged inv.prepared.positive)) [
          | inl inside ↦
              let (c', at_new, runs, next) =
                run_read_task-IsAligned os q platform b t s completion k c inv.prepared
                  sound.aligned points at_k inside in
              let s₂ = has_read os q platform s₁ (successor t) c' in
              let inv₂ : Invariant os q fifo d s₂ =
                Invariant-transport os q fifo d s₁ s₂
                  (length-set s₁.file_read.contexts (successor t) _) refl inv₁.all_tasks inv₁ in
              let in_count : successor t < length s.file_read.contexts = omega (
                arith,
                inv.prepared.covered,
                lt-ceil_of_mul-lt (successor t) size b inv.prepared.positive inside,
              ) in
              let no_wrap =
                mod-size_mod platform (successor t)
                  (omega (arith, inv.prepared.covered, inv.prepared.few)) in
              let sound' = next-IsSound j t size sound inv.room inside next in
              let (kept, queues) =
                adding s₂ t.task_queue j (read_task (next_task platform t)) sound.own_queue
                  (omega arith) (lt, sound') inv₂ in
              (
                added os q platform s₂ t.task_queue (read_task (next_task platform t)),
                runs,
                kept,
                record {
                  same_completed_threads = refl;
                  same_size = refl;
                  same_count =
                      length-set s₁.file_read.contexts (successor t) _
                      ∙ length-set s.file_read.contexts k _;
                  goes = inl (inside, in_count, no_wrap, queues);
                  unread = λ i x at_i ne.
                      let (y, at_y, same) =
                        marked_start_time s.file_read.contexts k i c x _ at_k at_i refl in
                      (y, get_elem?-set_ne s₁.file_read.contexts _ (λ e. ne (sym e)) ∙ at_y, same);
                },
              )
          | inr past ↦
              let (kept, queues) =
                adding s₁ t.main_task_queue d.thread_count (last_task t) sound.main_queue
                  (omega arith) (refl, sound.count, sound.main_queue) inv₁ in
              (
                added os q platform s₁ t.main_task_queue (last_task t),
                run_read_task_last os q platform t s completion k c points at_k inv.prepared.small
                    sound.fits (omega (arith, sound.aligned.starts, sound.aligned.strides)),
                kept,
                record {
                  same_completed_threads = refl;
                  same_size = refl;
                  same_count = length-set s.file_read.contexts k _;
                  goes = inr (past, queues);
                  unread = λ i x at_i ne.
                      marked_start_time s.file_read.contexts k i c x _ at_k at_i refl;
                },
              )
        ]
