-- ===== src/System/Turns.antt =====
-- What a run of a read task does to the turns of the threads.
use mathlib.Core.Path.{subst, subst₂}
use file_read_speed_test.Base.{
  ℕ, ◌+◌, ◌-◌, ◌*◌, ◌/◌, ◌<◌, ◌≤◌, ◌≡◌, ◌≢◌, inl, inr, refl, sym, ap, ◌∙◌, some, List, [], ◌∷◌,
  ◌++◌, length, ◌==◌, ==_iff, Bool-cases, arith,
}
use file_read_speed_test.Words.{Platform, size_mod}
use file_read_speed_test.Win32.{Win32}
use file_read_speed_test.TaskQueue.{TaskQueues, IsFifo}
use file_read_speed_test.ReadTask.{OverlappedIoFileReadTask, Task, read_task, Shared, update}
use file_read_speed_test.ReadTask.Steps.{next_task, last_task}
use file_read_speed_test.ReadTask.Chain.{successor, mod-size_mod}
use file_read_speed_test.ReadTask.Queues.{update_self, update_ne}
use file_read_speed_test.EntryPoint.{Depths}
use file_read_speed_test.System.Counts.{try_pop_task-count}
use file_read_speed_test.System.Invariant.{IsSound, Invariant}
use file_read_speed_test.System.Shutdown.{IsEven}
use file_read_speed_test.System.Reads.{reads_of, reads_of_next, reads_of_last}
use file_read_speed_test.System.Share.{Share, turn, turn_next, Share-next, Share-last}

ceil_le : (i size b : ℕ) → 0 < b → size ≤ i * b → (size + b - 1) / b ≤ i
ceil_le i size b pos le = grind arith

-- What holds of `j`, and of each other number, holds of all.
at_or_else : (P : ℕ → Type 0) (j i : ℕ) → P j → (j ≢ i → P i) → P i
at_or_else P j i here_at others = elim (Bool-cases (j == i)) [
  | inl same ↦ subst P ((==_iff j i).0 same) here_at
  | inr other ↦ others (λ e. let yes = (==_iff j i).1 e in cc)
]

pub Share-transport :
    {n count count' j : ℕ} {reads reads' : List ℕ} {tasks tasks' : List Task}
    → count' ≡ count
    → reads' ≡ reads
    → tasks' ≡ tasks
    → Share n count j reads tasks
    → Share n count' j reads' tasks'
Share-transport {n} {count} {count'} {j} {reads} {reads'} {tasks} {tasks'} e e' e'' f =
    subst (λ (c : ℕ). Share n c j reads' tasks') (sym e)
      (subst₂ (Share n count j) (sym e') (sym e'') f)

module _ (q : TaskQueues Task) (fifo : IsFifo q) where
  -- The only task of a queue that is popped, and what is left.
  pop_only :
      (u u' : q.Queue) (t : OverlappedIoFileReadTask) (x : OverlappedIoFileReadTask)
      → q.try_pop_task u ≡ (some (read_task t), u')
      → fifo.tasks u ≡ read_task x ∷ []
      → (x ≡ t) × (fifo.tasks u' ≡ [])
  pop_only u u' t x popped one =
      let law = rw popped at (fifo.try_pop_task_lem u) in
      elim law.1 [
        | inl (nothing, _) ↦ cc
        | inr (first, is_first, order) ↦
            let same : first ≡ read_task t = cc in
            let lists : first ∷ fifo.tasks u' ≡ read_task x ∷ [] = sym order ∙ one in (cc, cc)
      ]

  pop_none : (u u' : q.Queue) (task : Task) → q.try_pop_task u ≡ (some task, u') → fifo.tasks u ≢ []
  pop_none u u' task popped nothing =
      let law = rw popped at (fifo.try_pop_task_lem u) in
      elim law.1 [
        | inl (none_there, _) ↦ cc
        | inr (first, is_first, order) ↦ let lists = sym order ∙ nothing in cc
      ]

module _ (os : Win32) (q : TaskQueues Task) (platform : Platform) (fifo : IsFifo q) (d : Depths)
    (few : d.thread_count < size_mod platform) (some_depth : 0 < d.queue_depth) where
  -- The threads with what each has read.
  abbrev pub AreAt : (ℕ → List ℕ) → Shared os q → Type 0
  AreAt reads s =
      (j : ℕ)
      → j < d.thread_count
      → Share d.queue_depth (length s.file_read.contexts) j (reads j) (fifo.tasks (s.queues j))

  pub reads_of_goes :
      (s : Shared os q) (j : ℕ) (t : OverlappedIoFileReadTask)
      → Invariant os q fifo d s
      → IsSound d j t
      → ((successor t * d.buffer_size < s.file_read.file_size)
          → successor t < length s.file_read.contexts
          → reads_of platform s.file_read.file_size t ≡ successor t ∷ [])
        × ((s.file_read.file_size < successor t * d.buffer_size)
            → (reads_of platform s.file_read.file_size t ≡ [])
              × (length s.file_read.contexts ≤ successor t))
  reads_of_goes s j t inv sound =
      let p = inv.prepared in
      let starts = sound.aligned.starts in
      let strides = sound.aligned.strides in
      (
        λ inside lt.
            reads_of_next platform s.file_read.file_size t p.small sound.fits
              (omega (arith, starts, strides, inside))
              (mod-size_mod platform (successor t) (omega (arith, lt, p.covered, p.few))),
        λ past. (
          reads_of_last platform s.file_read.file_size t p.small sound.fits
              (omega (arith, starts, strides, past)),
          omega (
            arith,
            p.covered,
            ceil_le (successor t) s.file_read.file_size d.buffer_size p.positive (omega arith),
          ),
        ),
      )

  -- What is popped stands at the turn of its thread, and nothing is left.
  at_turn :
      (s : Shared os q) (j : ℕ) (u : q.Queue) (t : OverlappedIoFileReadTask) (reads : List ℕ)
      → q.try_pop_task (s.queues j) ≡ (some (read_task t), u)
      → IsSound d j t
      → (f : Share d.queue_depth (length s.file_read.contexts) j reads (fifo.tasks (s.queues j)))
      → (successor t ≡ turn d.queue_depth j (f.last + 1)) × (fifo.tasks u ≡ [])
  at_turn s j u t reads popped sound f = elim f.stands [
    | inl (x, one, at_last) ↦
        let (same, nothing) = pop_only q fifo (s.queues j) u t x popped one in
        let same_index = ap (λ (y : OverlappedIoFileReadTask). y.context_index) same in
        (omega (arith, same_index, at_last, sound.depth, turn_next d.queue_depth j f.last), nothing)
    | inr (nothing, _) ↦ absurd (pop_none q fifo (s.queues j) u (read_task t) popped nothing)
  ]

  module _ (s s' : Shared os q) (j : ℕ) (u : q.Queue) (t : OverlappedIoFileReadTask)
      (reads reads' : ℕ → List ℕ) (lt : j < d.thread_count)
      (popped : q.try_pop_task (s.queues j) ≡ (some (read_task t), u))
      (even : IsEven os q platform fifo d few s) (sound : IsSound d j t) (are_at : AreAt reads s)
      (same_count : length s'.file_read.contexts ≡ length s.file_read.contexts)
      (other_reads : (i : ℕ) → j ≢ i → reads' i ≡ reads i) where
    abbrev at_rest : ℕ → q.Queue
    at_rest = update s.queues j u

    pub next-AreAt :
        reads' j ≡ successor t ∷ reads j
        → successor t < length s.file_read.contexts
        → (next_task platform t).context_index ≡ successor t
        → s'.queues ≡ update at_rest j (q.add_task (read_task (next_task platform t)) (at_rest j)).1
        → AreAt reads' s'
    next-AreAt same_reads in_count same_index own i below =
        let n = d.thread_count in
        let depth = d.queue_depth in
        let f = are_at j lt in
        let (turns, nothing) = at_turn s j u t (reads j) popped sound f in
        let task = read_task (next_task platform t) in
        let (_, same_open) = try_pop_task-count q fifo (s.queues j) u (read_task t) popped in
        let (order, _) = fifo.add_task_open task u (same_open ∙ even.workers_open j lt) in
        let one : fifo.tasks (s'.queues j) ≡ task ∷ [] =
          ap (λ (queues : ℕ → q.Queue). fifo.tasks (queues j)) own
          ∙ ap fifo.tasks (update_self at_rest j _)
          ∙ ap (λ (x : q.Queue). fifo.tasks (q.add_task task x).1) (update_self s.queues j u)
          ∙ order
          ∙ ap (λ (ts : List Task). ts ++ (task ∷ [])) nothing in
        let same_reads' = same_reads ∙ ap (λ (k : ℕ). k ∷ reads j) turns in
        at_or_else
          (λ k.
            k < n
            → Share depth (length s'.file_read.contexts) k (reads' k) (fifo.tasks (s'.queues k)))
          j i
          (λ _. Share-transport same_count same_reads' one (
            Share-next depth (length s.file_read.contexts) some_depth j (reads j)
              (fifo.tasks (s.queues j)) f (next_task platform t) (task ∷ [])
              (omega (arith, turns, in_count)) refl (same_index ∙ turns)))
          (λ ne below'.
            Share-transport same_count (other_reads i ne)
              (ap (λ (queues : ℕ → q.Queue). fifo.tasks (queues i)) own
                ∙ ap fifo.tasks (update_ne at_rest j i _ ne ∙ update_ne s.queues j i u ne))
              (are_at i below'))
          below

    pub last-AreAt :
        reads' j ≡ reads j
        → length s.file_read.contexts ≤ successor t
        → s'.queues
          ≡ update at_rest d.thread_count (q.add_task (last_task t) (at_rest d.thread_count)).1
        → AreAt reads' s'
    last-AreAt same_reads past main i below =
        let n = d.thread_count in
        let depth = d.queue_depth in
        let f = are_at j lt in
        let (turns, nothing) = at_turn s j u t (reads j) popped sound f in
        let worker : (k : ℕ) → k < n → s'.queues k ≡ at_rest k = λ k lt'.
          ap (λ (queues : ℕ → q.Queue). queues k) main
          ∙ update_ne at_rest n k _ (λ e. omega arith) in
        at_or_else
          (λ k.
            k < n
            → Share depth (length s'.file_read.contexts) k (reads' k) (fifo.tasks (s'.queues k)))
          j i
          (λ _.
            Share-transport same_count same_reads
              (ap fifo.tasks (worker j lt ∙ update_self s.queues j u))
              (Share-last depth (length s.file_read.contexts) some_depth j (reads j)
                (fifo.tasks (s.queues j)) f (fifo.tasks u) (omega (arith, turns, past)) nothing))
          (λ ne below'.
            Share-transport same_count (other_reads i ne)
              (ap fifo.tasks (worker i below' ∙ update_ne s.queues j i u ne)) (are_at i below'))
          below
