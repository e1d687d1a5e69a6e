-- ===== src/EntryPoint/Orderly.antt =====
-- `main` from a read that is prepared to its exit code 0.
use mathlib.Core.Option.{some-injective}
use file_read_speed_test.Base.{
  ℕ, ◌<◌, ◌≡◌, refl, sym, ap, ◌∙◌, true, some, List, [], ◌∷◌, length, ℤ, pos, ◌>>◌, bind_some,
}
use file_read_speed_test.Words.{Platform}
use file_read_speed_test.Win32.{Win32}
use file_read_speed_test.Handles.{destroy, destroy_lem}
use file_read_speed_test.FileRead.{OverlappedIoFile, OverlappedIoFileRead, expected}
use file_read_speed_test.FileRead.Preparation.{IsReady}
use file_read_speed_test.TaskQueue.{TaskQueues, IsFifo, IsResponsive, TaskThreads, IsDestructible}
use file_read_speed_test.ReadTask.{Task, Shared, Run}
use file_read_speed_test.StateMachine.{StateMachines}
use file_read_speed_test.CommandLine.{NodeIndices, Locals, CLibrary}
use file_read_speed_test.ThreadPool.{destroy_threads}
use file_read_speed_test.EntryPoint.{
  Depths, add_initial_tasks, issue_initial_reads, join_threads, destroy_file_read,
}
use file_read_speed_test.EntryPoint.Main.{leave, with_main_task_queue, with_preparation}
use file_read_speed_test.EntryPoint.Sessions.{session-HasEnded}
use file_read_speed_test.System.{Steps}
use file_read_speed_test.EntryPoint.Beginning.{
  HasRoom, IsFresh, AreFresh, first_shared, first_shared-IsReadyToStart,
}

module _ (os : Win32) (q : TaskQueues Task) (platform : Platform) (fifo : IsFifo q)
    (t : TaskThreads os.World q.Queue) where
  -- Threads can be joined, and then destroyed.
  join_threads-destroyed :
      IsDestructible t
      → (threads : List t.Thread) (w : os.World)
      → (joined : List t.Thread) × (w' : os.World) × (join_threads os q platform t threads w
          ≡ some (joined, w'))
        × ((v : os.World) → (v' : os.World) × (destroy_threads os t joined v ≡ some (tt, v')))
  unfolding join_threads destroy_threads
  join_threads-destroyed law [] w = ([], w, refl, λ v. (v, refl))
  join_threads-destroyed law (thread ∷ threads) w =
      let (joined, w', joins, destroyed) = join_threads-destroyed law threads (t.join thread w).1 in
      (
        (t.join thread w).0 ∷ joined,
        w',
        bind_some (join_threads os q platform t threads) _ _ joins,
        λ v.
            let (v₁, first) = law.destroy_joined w v thread in
            let (v₂, rest) = destroyed v₁ in
            (v₂, bind_some (t.destroy_task_thread (t.join thread w).0) _ v first ∙ rest),
      )

  joined-destroyed :
      IsDestructible t
      → (threads joined : List t.Thread) (w w' v : os.World)
      → join_threads os q platform t threads w ≡ some (joined, w')
      → (v' : os.World) × (destroy_threads os t joined v ≡ some (tt, v'))
  joined-destroyed law threads joined w w' v joins =
      let (joined', _, joins', destroyed) = join_threads-destroyed law threads w in
      let same : joined' ≡ joined =
        ap (λ (p : List t.Thread × os.World). p.0) (some-injective _ _ (sym joins' ∙ joins)) in
      let (v', gone) = destroyed v in
      (v', ap (λ (ts : List t.Thread). destroy_threads os t ts v) (sym same) ∙ gone)

  destroy_file_read-returns :
      (r : OverlappedIoFileRead) (w : os.World)
      → (w' : os.World) × (destroy_file_read os q platform t r w ≡ some (tt, w'))
  unfolding destroy_file_read
  destroy_file_read-returns r w =
      let (w₁, port) = destroy_lem os r.completion_port w in
      let (w₂, handle) = destroy_lem os r.overlapped_io_file.handle_object w₁ in
      (w₂, bind_some (destroy os r.completion_port) _ w port ∙ handle)

  module _ (c : CLibrary) (m : StateMachines NodeIndices Locals)
      (task_runner_loop : ℕ → Run os q (Unit {0})) (d : Depths) where
    leave-returns :
        (file : OverlappedIoFile) (code : ℤ) (threads : List t.Thread) (s : Shared os q)
        → ((v : os.World) → (v' : os.World) × (destroy_threads os t threads v ≡ some (tt, v')))
        → (w' : os.World) × (leave os q platform t c m task_runner_loop d file (code, threads) s
            ≡ some (code, w'))
    unfolding leave
    leave-returns file code threads s destroyed =
        let (w₁, read) = destroy_file_read-returns s.file_read _ in
        let (w₂, handle) = destroy_lem os file.handle_object w₁ in
        let (w₃, gone) = destroyed w₂ in
        (
          w₃,
          bind_some (destroy_file_read os q platform t s.file_read) _ _ read
              ∙ bind_some (destroy os file.handle_object) _ w₁ handle
              ∙ bind_some (destroy_threads os t threads) _ w₂ gone,
        )

    with_main_task_queue-returns :
        (size handle pre_open_time : ℕ) (r : OverlappedIoFileRead) (threads : List t.Thread)
        (file : OverlappedIoFile) (main_task_queue : q.Queue) (w : os.World) (s₁ s₂ : Shared os q)
        → IsResponsive q
        → IsDestructible t
        → 0 < d.thread_count
        → HasRoom platform d size
        → IsReady d.buffer_size size handle r
        → AreFresh os q platform fifo t threads
        → IsFresh os q platform fifo t main_task_queue
        → (add_initial_tasks os q platform d d.thread_count 0 0
              >> issue_initial_reads os q platform d)
            (first_shared os q platform fifo t r threads main_task_queue w)
          ≡ some (tt, s₁)
        → task_runner_loop d.thread_count s₁ ≡ some (tt, s₂)
        → Steps os q platform d.thread_count s₁ s₂
        → q.is_shutting_down (s₂.queues d.thread_count) ≡ true
        → (w' : os.World) × (with_main_task_queue os q platform t c m task_runner_loop d
              pre_open_time threads file r main_task_queue w
            ≡ some (pos 0, w'))
    unfolding with_main_task_queue
    with_main_task_queue-returns size handle pre_open_time r threads file main_task_queue w s₁ s₂
          responsive law some_thread has_room ready all main_fresh starts loops steps shut =
        let s = first_shared os q platform fifo t r threads main_task_queue w in
        let is_ready =
          first_shared-IsReadyToStart os q platform fifo t d size handle r threads main_task_queue w
            has_room ready all main_fresh in
        let (joined, v, s₃, runs, ended) =
          session-HasEnded os q platform fifo t c m task_runner_loop d pre_open_time threads s s₁ s₂
            responsive some_thread is_ready starts loops steps shut in
        let (w', leaves) =
          leave-returns file (pos 0) joined s₃
            (λ u. joined-destroyed law threads joined s₂.world v u ended.joins) in
        (w', rw (runs, with_main_task_queue) leaves)

    -- With responsive queues, threads that can be destroyed once they are joined, at least one of
    -- them and as many as the tasks are given, sizes that have room and a file that has been
    -- prepared: if the main queue can be created, it and the threads' queues are empty and open,
    -- and the loop over the main queue comes back after steps of the threads in any order, with the
    -- main queue shut down, the rest of `main` is defined and ends with 0.
    pub with_preparation-returns :
        (size handle pre_open_time : ℕ) (r : OverlappedIoFileRead) (threads : List t.Thread)
        (file : OverlappedIoFile) (main_task_queue : q.Queue) (w w₁ : os.World)
        (s₁ s₂ : Shared os q)
        → IsResponsive q
        → IsDestructible t
        → length threads ≡ d.thread_count
        → 0 < d.thread_count
        → HasRoom platform d size
        → IsReady d.buffer_size size handle r
        → AreFresh os q platform fifo t threads
        → IsFresh os q platform fifo t main_task_queue
        → t.create_task_queue w ≡ (some main_task_queue, w₁)
        → (add_initial_tasks os q platform d d.thread_count 0 0
              >> issue_initial_reads os q platform d)
            (first_shared os q platform fifo t r threads main_task_queue w₁)
          ≡ some (tt, s₁)
        → task_runner_loop d.thread_count s₁ ≡ some (tt, s₂)
        → Steps os q platform d.thread_count s₁ s₂
        → q.is_shutting_down (s₂.queues d.thread_count) ≡ true
        → (w' : os.World) × (with_preparation os q platform t c m task_runner_loop d pre_open_time
              threads
              (expected r, file)
              w
            ≡ some (pos 0, w'))
    unfolding with_preparation
    with_preparation-returns size handle pre_open_time r threads file main_task_queue w w₁ s₁ s₂
          responsive law same_count some_thread has_room ready all main_fresh creates starts loops
          steps shut =
        let (w', returns) =
          with_main_task_queue-returns size handle pre_open_time r threads file main_task_queue w₁
            s₁ s₂ responsive law some_thread has_room ready all main_fresh starts loops steps
            shut in
        (w', rw (creates, with_preparation) returns)
