-- ===== src/System/Flight/Handing.antt =====
-- What a thread hands on when it runs its task: a read, or a message.
use file_read_speed_test.Base.{
  ℕ, ◌+◌, ◌<◌, ◌≡◌, ◌≢◌, false, ap, ◌∙◌, some, length, All, arith, inl, inr,
}
use file_read_speed_test.Words.{Platform, size_mod}
use file_read_speed_test.Win32.{Win32}
use file_read_speed_test.TaskQueue.{TaskQueues, IsFifo}
use file_read_speed_test.ReadTask.{OverlappedIoFileReadTask, Task, read_task, Shared, update}
use file_read_speed_test.ReadTask.Queues.{update_self, update_ne}
use file_read_speed_test.ReadTask.Steps.{next_task, last_task}
use file_read_speed_test.System.Reads.{reads_of}
use file_read_speed_test.System.Turns.{reads_of_goes}
use file_read_speed_test.EntryPoint.{Depths}
use file_read_speed_test.System.{with_queue}
use file_read_speed_test.System.Counts.{tasks_in, le_sum, add_task-count, try_pop_task-count}
use file_read_speed_test.System.Invariant.{Invariant, IsSound}
use file_read_speed_test.System.Shutdown.{IsEven}
use file_read_speed_test.System.Moves.{Moves}

module _ (os : Win32) (q : TaskQueues Task) (platform : Platform) (fifo : IsFifo q) (d : Depths)
    (few : d.thread_count < size_mod platform) where
  other-count :
      (queues : ℕ → q.Queue) (j i : ℕ) (u : q.Queue)
      → j ≢ i
      → tasks_in q fifo (update queues j u) i ≡ tasks_in q fifo queues i
  other-count queues j i u ne =
      ap (λ (x : q.Queue). length (fifo.tasks x)) (update_ne queues j i u ne)

  -- A thread tells the open main queue.
  message-count :
      (s : Shared os q) (j : ℕ) (u : q.Queue) (task message : Task)
      → j < d.thread_count
      → q.try_pop_task (s.queues j) ≡ (some task, u)
      → IsEven os q platform fifo d few s
      → let rest = update s.queues j u in
        tasks_in q fifo
          (update rest d.thread_count (q.add_task message (rest d.thread_count)).1)
          d.thread_count
        ≡ tasks_in q fifo s.queues d.thread_count + 1
  message-count s j u task message lt popped even =
      let n = d.thread_count in
      let queues = s.queues in
      let rest = update queues j u in
      let at_n : rest n ≡ queues n = update_ne queues j n u (λ e. omega arith) in
      let (fewer, _) = try_pop_task-count q fifo (queues j) u task popped in
      let balance = even.balance in
      let early : s.completed_threads < n =
        omega (arith, fewer, balance, le_sum (tasks_in q fifo queues) n j lt) in
      let is_open : q.is_shutting_down (rest n) ≡ false =
        ap q.is_shutting_down at_n ∙ even.main_open early in
      let (more, _) = add_task-count q fifo message (rest n) is_open in
      ap (λ (x : q.Queue). length (fifo.tasks x)) (update_self rest n _)
      ∙ more
      ∙ ap (λ (x : q.Queue). length (fifo.tasks x) + 1) at_n

  -- What a thread reads exists; it reads one context, or else tells the main queue.
  pub thread_hands_on :
      (s s' : Shared os q) (j : ℕ) (t : OverlappedIoFileReadTask) (u : q.Queue)
      → 0 < d.queue_depth
      → j < d.thread_count
      → q.try_pop_task (s.queues j) ≡ (some (read_task t), u)
      → Invariant os q fifo d s
      → IsEven os q platform fifo d few s
      → IsSound d j t
      → Moves os q platform fifo d t j (with_queue os q platform d.thread_count s j u) s'
      → let reads = reads_of platform s.file_read.file_size t in
        All (λ (k : ℕ). k < length s.file_read.contexts) reads
        × (length reads + tasks_in q fifo s'.queues d.thread_count
            ≡ 1 + tasks_in q fifo s.queues d.thread_count)
  thread_hands_on s s' j t u some_depth lt popped inv even sound moves =
      let n = d.thread_count in
      let rest = update s.queues j u in
      let (if_next, if_last) = reads_of_goes os q platform fifo d few some_depth s j t inv sound in
      let main = λ (queues : ℕ → q.Queue) (e : s'.queues ≡ queues).
        ap (λ (x : ℕ → q.Queue). tasks_in q fifo x n) e in
      elim moves.goes [
        | inl (inside, in_count, _, own) ↦
            let v = (q.add_task (read_task (next_task platform t)) (rest j)).1 in
            let here_count = other-count rest j n v (λ e. omega arith) in
            let before = other-count s.queues j n u (λ e. omega arith) in
            rw (if_next inside in_count)
              ((in_count, tt), omega (arith, main _ own, here_count, before))
        | inr (past, told) ↦
            let more = message-count s j u (read_task t) (last_task t) lt popped even in
            rw (if_last past).0 (tt, omega (arith, main _ told, more))
      ]
