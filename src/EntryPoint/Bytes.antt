-- ===== src/EntryPoint/Bytes.antt =====
-- What becomes of each byte of the file.
use mathlib.Core.Option.{some-injective}
use file_read_speed_test.Base.{
  All, ◌++◌, ℕ, ◌+◌, ◌/◌, ◌<◌, ◌≤◌, ◌≡◌, sym, ap, ◌∙◌, true, some, List, length, get_elem?,
  lt_of_get_elem?, pos, ◌>>◌, arith,
}
use file_read_speed_test.Words.{Platform, dword_mod}
use file_read_speed_test.Win32.{Win32}
use file_read_speed_test.FileRead.{IoContext, OverlappedIoFile, OverlappedIoFileRead, expected}
use file_read_speed_test.FileRead.Coverage.{Covers, byte_in_context, one_context}
use file_read_speed_test.FileRead.Preparation.{IsReady}
use file_read_speed_test.TaskQueue.{TaskQueues, IsFifo, IsResponsive, TaskThreads, IsDestructible}
use file_read_speed_test.ReadTask.{Task, Shared, Run}
use file_read_speed_test.ReadTask.Requests.{IsRequestOf, asked, reads_between}
use file_read_speed_test.StateMachine.{StateMachines}
use file_read_speed_test.CommandLine.{NodeIndices, Locals, CLibrary}
use file_read_speed_test.EntryPoint.{Depths, add_initial_tasks, issue_initial_reads}
use file_read_speed_test.EntryPoint.Main.{with_preparation}
use file_read_speed_test.EntryPoint.Beginning.{
  HasRoom, IsFresh, AreFresh, first_shared, first_shared-IsReadyToStart,
}
use file_read_speed_test.EntryPoint.Orderly.{with_preparation-returns}
use file_read_speed_test.EntryPoint.Reported.{
  starts-requests, starts-FlightSteps, starts-IsFlying, session-reports_all,
}
use file_read_speed_test.System.Ready.{IsReadyToStart}
use file_read_speed_test.System.Reads.{times}
use file_read_speed_test.System.Flight.{Flight, FlightSteps, all_requests, all_reads}
use file_read_speed_test.System.Flight.Reading.{Holds, IsStable}
use file_read_speed_test.System.Flight.Keeping.{FlightSteps-Holds}
use file_read_speed_test.System.Flight.Sequence.{launched, FlightSteps-Steps}

Covers-IsStable : (p : ℕ) → IsStable (λ c. Covers c p)
Covers-IsStable p = record {
  on_read = λ c time covers. covers;
  on_completion = λ c time covers. covers;
}

module _ (os : Win32) (q : TaskQueues Task) (platform : Platform) (fifo : IsFifo q)
    (d : Depths) where
  -- What a context asks for at the start, it asks for at the end.
  Covers-at_end :
      (s s' : Shared os q) (b : Flight os q) (k p : ℕ) (c : IoContext)
      → IsResponsive q
      → IsReadyToStart os q platform fifo d s
      → (add_initial_tasks os q platform d d.thread_count 0 0
            >> issue_initial_reads os q platform d)
          s
        ≡ some (tt, s')
      → FlightSteps os q platform d (launched os q s s' d.queue_depth) b
      → get_elem? s.file_read.contexts k ≡ some c
      → Covers c p
      → Holds (λ x. Covers x p) k b.shared.file_read.contexts
  Covers-at_end s s' b k p c responsive ready starts steps at_k covers =
      let few = ready.few_threads in
      let (a, has, issues) = starts-FlightSteps os q platform fifo d s s' responsive ready starts in
      let at_start : get_elem? a.shared.file_read.contexts k ≡ some c =
        ap (λ (cs : List IoContext). get_elem? cs k) has.same_contexts ∙ at_k in
      FlightSteps-Holds os q platform fifo d few (λ x. Covers x p) (Covers-IsStable p) _ b k steps
        (starts-IsFlying os q platform fifo d s s' responsive ready starts)
        (FlightSteps-Holds os q platform fifo d few (λ x. Covers x p) (Covers-IsStable p) a _ k
          issues has.flying (c, at_start, covers))

  module _ (t : TaskThreads os.World q.Queue) (c : CLibrary) (m : StateMachines NodeIndices Locals)
      (task_runner_loop : ℕ → Run os q (Unit {0})) where
    -- With responsive queues, threads that can be destroyed once they are joined, at least one of
    -- them and as many as the tasks are given, a queue as deep as their number, a file of at most 4
    -- GiB, and a file that has been prepared, where the buffer size is not 0 and the file's size no
    -- multiple of it, the file has fewer than 2 ^ 32 buffers and no fewer than the queue is deep,
    -- the sums and products of the counts and sizes fit: if the main queue can be created, it and
    -- the threads' queues are empty and open, and the loop over the main queue comes back after
    -- steps of the threads in any order, in which `ReadFile` makes reads pending, each wait is
    -- given a pending one and reads may be lost, with the main queue shut down, then the rest of
    -- `main` is defined and ends with 0, and when the loop comes back each byte of the file is
    -- asked for by a context that is complete and that `ReadFile` has been given exactly once, and
    -- by no context of another number; and all that `ReadFile` has been given in the meantime are
    -- requests of a context: the file's handle, and the context's buffer, size and offset.
    pub every_byte_is_read :
        (size handle pre_open_time : ℕ) (r : OverlappedIoFileRead) (threads : List t.Thread)
        (file : OverlappedIoFile) (main_task_queue : q.Queue) (w w₁ : os.World) (s₁ : Shared os q)
        (b : Flight os q)
        → IsResponsive q
        → IsDestructible t
        → length threads ≡ d.thread_count
        → d.queue_depth ≡ d.thread_count
        → 0 < d.thread_count
        → HasRoom platform d size
        → size ≤ dword_mod
        → IsReady d.buffer_size size handle r
        → AreFresh os q platform fifo t threads
        → IsFresh os q platform fifo t main_task_queue
        → t.create_task_queue w ≡ (some main_task_queue, w₁)
        → (add_initial_tasks os q platform d d.thread_count 0 0
              >> issue_initial_reads os q platform d)
            (first_shared os q platform fifo t r threads main_task_queue w₁)
          ≡ some (tt, s₁)
        → task_runner_loop d.thread_count s₁ ≡ some (tt, b.shared)
        → (steps : FlightSteps os q platform d
            (launched os q
              (first_shared os q platform fifo t r threads main_task_queue w₁)
              s₁
              d.queue_depth)
            b)
        → q.is_shutting_down (b.shared.queues d.thread_count) ≡ true
        → ((w' : os.World) × (with_preparation os q platform t c m task_runner_loop d pre_open_time
                threads
                (expected r, file)
                w
              ≡ some (pos 0, w')))
          × ((p : ℕ)
              → p < size
              → (k : ℕ) × (x : IoContext) × (get_elem? b.shared.file_read.contexts k ≡ some x)
                × Covers x p
                × (x.is_complete ≡ true)
                × (times k (all_reads os q steps)
                      + times k (
                          reads_between os q
                            (first_shared os q platform fifo t r threads main_task_queue w₁)
                            s₁)
                    ≡ 1)
                × ((i : ℕ) (y : IoContext) → get_elem? r.contexts i ≡ some y → Covers y p → i ≡ k))
          × All (IsRequestOf b.shared.file_read) (all_requests os q steps ++ asked os w₁ s₁.world)
    every_byte_is_read size handle pre_open_time r threads file main_task_queue w w₁ s₁ b responsive
          law same_threads same_depth some_thread has_room low ready all main_fresh creates starts
          loops steps shut =
        let s = first_shared os q platform fifo t r threads main_task_queue w₁ in
        let is_ready =
          first_shared-IsReadyToStart os q platform fifo t d size handle r threads main_task_queue
            w₁ has_room ready all main_fresh in
        let few = is_ready.few_threads in
        let flying = starts-IsFlying os q platform fifo d s s₁ responsive is_ready starts in
        let (_, _, _, each) =
          session-reports_all os q platform fifo d t c m task_runner_loop pre_open_time threads s s₁
            b same_depth some_thread responsive is_ready starts loops steps shut in
        (
          with_preparation-returns os q platform fifo t c m task_runner_loop d size handle
              pre_open_time r threads file main_task_queue w w₁ s₁ b.shared responsive law
              same_threads some_thread has_room ready all main_fresh creates starts loops
              (FlightSteps-Steps os q platform fifo d few _ b steps (omega arith) flying) shut,
          λ p inside.
              let size_b = d.buffer_size in
              let k = p / size_b in
              let (y, at_k, asks) =
                byte_in_context size size_b handle r.contexts has_room.positive ready.has_contexts
                  ready.all_contexts low p inside in
              let (x, at_end, covers) =
                Covers-at_end s s₁ b k p y responsive is_ready starts steps at_k asks in
              let (once, (x', at_end', complete)) = each k (lt_of_get_elem? r.contexts k y at_k) in
              let same : x' ≡ x = some-injective _ _ (sym at_end' ∙ at_end) in
              (
                k,
                x,
                at_end,
                covers,
                sym (ap (λ (z : IoContext). z.is_complete) same) ∙ complete,
                once,
                λ i z at_i in_z.
                    one_context size size_b handle r.contexts has_room.positive ready.has_contexts
                      ready.all_contexts low p i k z y at_i at_k in_z asks,
              ),
          starts-requests os q platform fifo d s s₁ b responsive is_ready starts steps,
        )
