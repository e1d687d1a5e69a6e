-- ===== src/System/Flight/Requesting.antt =====
-- That all that `ReadFile` is given are requests of contexts.
use mathlib.Core.Path.{subst}
use file_read_speed_test.Base.{ℕ, ◌<◌, ◌≡◌, refl, sym, some, List, [], ◌∷◌, All, All-append}
use file_read_speed_test.Words.{Platform, size_mod}
use file_read_speed_test.Win32.{Win32, ReadRequest}
use file_read_speed_test.FileRead.{OverlappedIoFile}
use file_read_speed_test.TaskQueue.{TaskQueues, IsFifo, IsResponsive, okay}
use file_read_speed_test.ReadTask.{Task, Shared}
use file_read_speed_test.ReadTask.Requests.{IsRequest, IsRequestOf, Asks, asked, asked_lem}
use file_read_speed_test.EntryPoint.{Depths, add_initial_tasks}
use file_read_speed_test.System.Ready.{IsReadyToStart}
use file_read_speed_test.System.Flight.{
  Flight, FlightStep, issue_step, thread_step, count_step, lose_step, other_step, FlightSteps,
  on_ground, flown, take_off, requests_in, all_requests,
}
use file_read_speed_test.System.Flight.Reading.{IsStable}
use file_read_speed_test.System.Flight.Asking.{read_shared-Asks, thread-Asks, count-Asks}
use file_read_speed_test.System.Flight.Flying.{IsFlying}
use file_read_speed_test.System.Flight.Safety.{FlightSteps-IsFlying}
use file_read_speed_test.System.Flight.Keeping.{FlightStep-Holds}
use file_read_speed_test.System.Flight.Launch.{take_off-HasTakenOff}

pub map-All :
    (P Q : ReadRequest → Type 0) (rs : List ReadRequest)
    → ((x : ReadRequest) → P x → Q x)
    → All P rs
    → All Q rs
map-All P Q [] keeps all = tt
map-All P Q (x ∷ rs) keeps all = (keeps x all.0, map-All P Q rs keeps all.1)

IsRequest-IsStable : (handle : ℕ) (x : ReadRequest) → IsStable (IsRequest handle x)
IsRequest-IsStable handle x = record {
  on_read = λ c time same. same;
  on_completion = λ c time same. same;
}

module _ (os : Win32) (q : TaskQueues Task) (platform : Platform) (fifo : IsFifo q) (d : Depths)
    (few : d.thread_count < size_mod platform) where
  pub asked-IsRequestOf :
      (s s' : Shared os q) (reads : List ℕ)
      → Asks os q s s' reads
      → All (IsRequestOf s'.file_read) (asked os s.world s'.world)
  asked-IsRequestOf s s' reads asks =
      subst (All (IsRequestOf s'.file_read))
        (sym (asked_lem os s.world s'.world asks.rs asks.grows)) asks.are_requests

  -- What a step asks for are requests of contexts, and the file stays the same.
  FlightStep-asks :
      (a b : Flight os q) (step : FlightStep os q platform d a b)
      → IsFlying os q platform fifo d few a
      → All (IsRequestOf b.shared.file_read) (requests_in os q step)
        × (b.shared.file_read.overlapped_io_file ≡ a.shared.file_read.overlapped_io_file)
  FlightStep-asks a b (issue_step _ s early reads) flying =
      let asks = read_shared-Asks os q platform a.shared s a.issued reads in
      (asked-IsRequestOf a.shared s _ asks, asks.same_file)
  FlightStep-asks a b (thread_step _ s j t u completion k before after lt popped points given runs)
        flying =
      let asks =
        thread-Asks os q platform fifo d few a s j t u completion k before after lt popped points
          given runs flying in
      (asked-IsRequestOf a.shared s _ asks, asks.same_file)
  FlightStep-asks a b (count_step _ s f u late popped runs) flying =
      let asks = count-Asks os q platform fifo d few a s f u runs in
      (asked-IsRequestOf a.shared s _ asks, asks.same_file)
  FlightStep-asks a b (lose_step _ k before after given) flying = (tt, refl)
  FlightStep-asks a b (other_step _ w) flying = (tt, refl)

  -- A request of a context is one of it after a step.
  FlightStep-keeps :
      (a b : Flight os q) (x : ReadRequest) (step : FlightStep os q platform d a b)
      → IsFlying os q platform fifo d few a
      → IsRequestOf a.shared.file_read x
      → IsRequestOf b.shared.file_read x
  FlightStep-keeps a b x step flying is =
      let (_, same_file) = FlightStep-asks a b step flying in
      subst
        (λ (f : OverlappedIoFile).
          IsRequestOf (record b.shared.file_read { overlapped_io_file = f }) x)
        (sym same_file)
        (FlightStep-Holds os q platform fifo d few
          (IsRequest a.shared.file_read.overlapped_io_file.handle x)
          (IsRequest-IsStable a.shared.file_read.overlapped_io_file.handle x) a b x.context step
          flying is)

  pub FlightSteps-keeps :
      (a b : Flight os q) (x : ReadRequest)
      → FlightSteps os q platform d a b
      → IsFlying os q platform fifo d few a
      → IsRequestOf a.shared.file_read x
      → IsRequestOf b.shared.file_read x
  FlightSteps-keeps a b x on_ground flying is = is
  FlightSteps-keeps a b x (flown {b = c} steps step) flying is =
      FlightStep-keeps c b x step (FlightSteps-IsFlying os q platform fifo d few a c steps flying)
        (FlightSteps-keeps a c x steps flying is)

  pub FlightSteps-requests :
      (a b : Flight os q) (steps : FlightSteps os q platform d a b)
      → IsFlying os q platform fifo d few a
      → All (IsRequestOf b.shared.file_read) (all_requests os q steps)
  FlightSteps-requests a b on_ground flying = tt
  FlightSteps-requests a b (flown {b = c} steps step) flying =
      let flying' = FlightSteps-IsFlying os q platform fifo d few a c steps flying in
      All-append (IsRequestOf b.shared.file_read) (requests_in os q step) (all_requests os q steps)
        (FlightStep-asks c b step flying').0
        (map-All (IsRequestOf c.shared.file_read) (IsRequestOf b.shared.file_read)
          (all_requests os q steps) (λ x is. FlightStep-keeps c b x step flying' is)
          (FlightSteps-requests a c steps flying))

module _ (os : Win32) (q : TaskQueues Task) (platform : Platform) (fifo : IsFifo q)
    (d : Depths) where
  -- With responsive queues, from shared objects that are ready to start (a prepared file whose size
  -- is no multiple of the buffer's, a queue that is not deeper than the number of contexts, empty
  -- and open queues, a counter of 0, sums and products that fit): once the initial tasks are added,
  -- after any steps of `main` and the threads in any order, in which `ReadFile` makes reads
  -- pending, each wait is given a pending one and reads may be lost, each request that the steps
  -- have given to `ReadFile` is that of a context that exists: the file's handle, and the context's
  -- buffer, size and offset.
  pub requests_are_of_contexts :
      (s s' : Shared os q) (b : Flight os q)
      → IsResponsive q
      → IsReadyToStart os q platform fifo d s
      → add_initial_tasks os q platform d d.thread_count 0 0 s ≡ some (okay, s')
      → (steps : FlightSteps os q platform d (take_off os q s') b)
      → All (IsRequestOf b.shared.file_read) (all_requests os q steps)
  requests_are_of_contexts s s' b responsive ready adds steps =
      let few = ready.few_threads in
      let has = take_off-HasTakenOff os q platform fifo d few s s' responsive ready adds in
      FlightSteps-requests os q platform fifo d few _ b steps has.flying
