-- ===== src/EntryPoint/InitialReads.antt =====
-- The reads that `main` issues.
use native.Mathlib.Nat.{mod-eq_of_lt}
use mathlib.Core.Path.{subst}
use mathlib.Core.List.{append_assoc}
use file_read_speed_test.Base.{
  ℕ, zero, suc, ◌+◌, ◌%◌, ◌<◌, ◌≤◌, ◌≡◌, ◌≢◌, ◌⊎◌, inl, inr, refl, ap, ◌∙◌, List, [], ◌∷◌, ◌++◌,
  All-append_one, Option, none, some, length, get_elem?, get_elem?-set_self, get_elem?-set_ne,
  get_elem?-lt, lt_of_get_elem?, length-set, arith, bind_some, bind_none, ltb, sym, ◌==◌, ==_iff,
  Bool-cases,
}
use file_read_speed_test.Words.{Platform, size_mod}
use file_read_speed_test.Win32.{Win32}
use file_read_speed_test.FileRead.{IoContext, OverlappedIoFile, read_request}
use file_read_speed_test.FileRead.Reading.{
  read_in_range, read_out_of_range, started, world_after-requests,
}
use file_read_speed_test.TaskQueue.{TaskQueues}
use file_read_speed_test.ReadTask.{Task, Shared, in_world, read_shared}
use file_read_speed_test.ReadTask.Steps.{has_read}
use file_read_speed_test.ReadTask.Requests.{IsRequestOf, Asks, nothing_asked, contexts_of-append}
use file_read_speed_test.EntryPoint.{Depths, issue_reads, issue_initial_reads}

-- The contexts that `main` reads, the last one first.
abbrev pub first_reads : ℕ → List ℕ
first_reads zero = []
first_reads (suc n) = n ∷ first_reads n

-- Those of so many rounds of its loop, from a number on.
abbrev reads_from : ℕ → ℕ → List ℕ
reads_from i zero = []
reads_from i (suc rounds) = reads_from (i + 1) rounds ++ (i ∷ [])

reads_from_last : (i rounds : ℕ) → reads_from i (suc rounds) ≡ (i + rounds) ∷ reads_from i rounds
reads_from_last i zero = ap (λ n. n ∷ []) (omega arith)
reads_from_last i (suc rounds) =
    ap (λ is. is ++ (i ∷ [])) (reads_from_last (i + 1) rounds)
    ∙ ap (λ n. n ∷ reads_from i (suc rounds)) (omega arith)

reads_from-first_reads : (n : ℕ) → reads_from 0 n ≡ first_reads n
reads_from-first_reads zero = refl
reads_from-first_reads (suc n) =
    reads_from_last 0 n
    ∙ ap (λ is. (0 + n) ∷ is) (reads_from-first_reads n)
    ∙ ap (λ k. k ∷ first_reads n) (omega arith)

module _ (os : Win32) (q : TaskQueues Task) (platform : Platform) where
  -- A context as it was, but for its start time: the time of the clock in a world that remembers
  -- `n` requests more.
  abbrev pub IsStarted : Shared os q → ℕ → Option IoContext → Option IoContext → Type 0
  IsStarted s n none o = o ≡ none
  IsStarted s n (some c) o =
      (w : os.World) × (length (os.requests w) ≡ length (os.requests s.world) + n)
      × (o ≡ some (record c { request_start_time = (os.now w).0 }))

  -- The shared objects when `read_issue_time_` has been set.
  abbrev pub timed : Shared os q → Shared os q
  timed s = record s {
    file_read = record s.file_read { read_issue_time = (os.now s.world).0 };
    world = (os.now s.world).1;
  }

  IsStarted-later :
      (s s' : Shared os q) (n : ℕ) (o o' : Option IoContext)
      → length (os.requests s'.world) ≡ suc (length (os.requests s.world))
      → IsStarted s' n o o'
      → IsStarted s (n + 1) o o'
  IsStarted-later s s' n none o' one_more is = is
  IsStarted-later s s' n (some c) o' one_more (w, count, is) =
      (w, omega (arith, one_more, count), is)

  -- What has changed when the contexts with the numbers from `i` up to `n` have been read.
  pub record AreIssued (i n : ℕ) (s s' : Shared os q) : Type 0 where
    pub issued :
        (j : ℕ)
        → i ≤ j
        → j < n
        → (n : ℕ) × (n + i ≡ j)
          × IsStarted s n (get_elem? s.file_read.contexts j) (get_elem? s'.file_read.contexts j)
    pub kept :
        (j : ℕ)
        → (j < i) ⊎ (n ≤ j)
        → get_elem? s'.file_read.contexts j ≡ get_elem? s.file_read.contexts j
    pub same_count : length s'.file_read.contexts ≡ length s.file_read.contexts
    pub same_issue_time : s'.file_read.read_issue_time ≡ s.file_read.read_issue_time
    pub same_size : s'.file_read.file_size ≡ s.file_read.file_size
    pub same_queues : s'.queues ≡ s.queues
    pub same_completed_threads : s'.completed_threads ≡ s.completed_threads

  AreIssued-cons :
      (i n : ℕ) (s s' : Shared os q) (c : IoContext)
      → i < n
      → get_elem? s.file_read.contexts i ≡ some c
      → AreIssued (i + 1) n (has_read os q platform s i c) s'
      → AreIssued i n s s'
  AreIssued-cons i n s s' c lt at_i rest =
      let new = started os s.file_read i s.world c in
      let here : IsStarted s 0 (get_elem? s.file_read.contexts i)
          (get_elem? s'.file_read.contexts i) =
        rw at_i (
          s.world,
          omega arith,
          rest.kept i (inl (omega arith))
              ∙ get_elem?-set_self s.file_read.contexts i new
                  (lt_of_get_elem? s.file_read.contexts i c at_i),
        ) in
      record {
        issued = λ j ge below. elim (Bool-cases (i == j)) [
          | inl same ↦ let same' = (==_iff i j).0 same in (0, omega arith, rw same' at here)
          | inr other ↦
              let other' : i ≢ j = λ e. let yes = (==_iff i j).1 e in cc in
              let (m, e, later) = rest.issued j (omega arith) below in
              (
                m + 1,
                omega (arith, e),
                IsStarted-later s (has_read os q platform s i c) m _ _
                    (ap (λ rs. length rs) (world_after-requests os s.file_read i s.world c))
                    (subst
                      (λ (o : Option IoContext).
                        IsStarted (has_read os q platform s i c) m o
                          (get_elem? s'.file_read.contexts j))
                      (get_elem?-set_ne s.file_read.contexts new other') later),
              )
        ];
        kept = λ j out.
            let ne : i ≢ j = λ e. elim out [ inl less ↦ omega arith | inr more ↦ omega arith ] in
            rest.kept j (elim out [ inl less ↦ inl (omega arith) | inr more ↦ inr more ])
            ∙ get_elem?-set_ne s.file_read.contexts new ne;
        same_count = rest.same_count ∙ length-set s.file_read.contexts i new;
        same_issue_time = rest.same_issue_time;
        same_size = rest.same_size;
        same_queues = rest.same_queues;
        same_completed_threads = rest.same_completed_threads;
      }

  -- The first request of the loop is the oldest.
  Asks-cons :
      (i n rounds : ℕ) (s s' : Shared os q) (c : IoContext)
      → get_elem? s.file_read.contexts i ≡ some c
      → AreIssued (i + 1) n (has_read os q platform s i c) s'
      → Asks os q (has_read os q platform s i c) s' (reads_from (i + 1) rounds)
      → Asks os q s s' (reads_from i (suc rounds))
  Asks-cons i n rounds s s' c at_i issued asks =
      let request = read_request s.file_read.overlapped_io_file.handle i c in
      let older = world_after-requests os s.file_read i s.world c in
      record {
        rs = asks.rs ++ (request ∷ []);
        grows =
            asks.grows
            ∙ ap (λ rs. asks.rs ++ rs) older
            ∙ sym (append_assoc asks.rs (request ∷ []) (os.requests s.world));
        same_contexts =
            contexts_of-append asks.rs (request ∷ [])
            ∙ ap (λ is. is ++ (i ∷ [])) asks.same_contexts;
        are_requests = All-append_one (IsRequestOf s'.file_read) asks.rs request asks.are_requests (
          started os s.file_read i s.world c,
          issued.kept i (inl (omega arith))
              ∙ get_elem?-set_self s.file_read.contexts i _
                  (lt_of_get_elem? s.file_read.contexts i c at_i),
          (ap (λ (x : OverlappedIoFile). x.handle) (sym asks.same_file), refl, refl, refl, refl),
        );
        same_file = asks.same_file;
      }

  pub read_shared_in_range :
      (s : Shared os q) (i : ℕ) (c : IoContext)
      → get_elem? s.file_read.contexts i ≡ some c
      → read_shared os q i s ≡ some (tt, has_read os q platform s i c)
  unfolding read_shared
  read_shared_in_range s i c at_i = rw (read_in_range os s.file_read i s.world c at_i, read_shared)

  pub read_shared_out_of_range :
      (s : Shared os q) (i : ℕ) → length s.file_read.contexts ≤ i → read_shared os q i s ≡ none
  unfolding read_shared
  read_shared_out_of_range s i past =
      rw (read_out_of_range os s.file_read i s.world past, read_shared)

  -- A read that is defined is that of a context that exists.
  pub read_shared_exists :
      (s s' : Shared os q) (i : ℕ)
      → read_shared os q i s ≡ some (tt, s')
      → i < length s.file_read.contexts
  read_shared_exists s s' i reads = elim (Bool-cases (ltb i (length s.file_read.contexts))) [
    | inl inside ↦ ground arith
    | inr outside ↦
        let fails = read_shared_out_of_range s i (ground arith) in
        absurd (let contra = sym fails ∙ reads in cc)
  ]

  issue_reads-AreIssued :
      (rounds i n : ℕ) (s : Shared os q)
      → i + rounds ≡ n
      → n < size_mod platform
      → n ≤ length s.file_read.contexts
      → (s' : Shared os q) × (issue_reads os q platform rounds i s ≡ some (tt, s'))
        × AreIssued i n s s'
        × Asks os q s s' (reads_from i rounds)
  unfolding issue_reads
  issue_reads-AreIssued zero i n s e few enough = (
    s,
    refl,
    record {
      issued = λ j ge lt. absurd (omega arith);
      kept = λ j out. refl;
      same_count = refl;
      same_size = refl;
      same_issue_time = refl;
      same_queues = refl;
      same_completed_threads = refl;
    },
    nothing_asked os q s s refl refl,
  )
  issue_reads-AreIssued (suc rounds) i n s e few enough =
      let (c, at_i) = get_elem?-lt s.file_read.contexts i (omega arith) in
      let (s', runs, issued, asks) =
        issue_reads-AreIssued rounds (i + 1) n (has_read os q platform s i c) (omega arith) few
          (omega (arith, length-set {0} s.file_read.contexts i)) in
      let next : (i + 1) % size_mod platform ≡ i + 1 = mod-eq_of_lt (omega arith) in
      (
        s',
        bind_some (read_shared os q i) _ s (read_shared_in_range s i c at_i) ∙ rw next runs,
        AreIssued-cons i n s s' c (omega arith) at_i issued,
        Asks-cons i n rounds s s' c at_i issued asks,
      )

  issue_reads_past :
      (rounds i : ℕ) (s : Shared os q)
      → i ≤ length s.file_read.contexts
      → length s.file_read.contexts < i + rounds
      → length s.file_read.contexts < size_mod platform
      → issue_reads os q platform rounds i s ≡ none
  unfolding issue_reads
  issue_reads_past zero i s le past few = absurd (omega arith)
  issue_reads_past (suc rounds) i s le past few =
      elim (Bool-cases (i == length s.file_read.contexts)) [
        | inl at_end ↦
            let at_end' = (==_iff i _).0 at_end in
            bind_none (read_shared os q i) _ s (read_shared_out_of_range s i (omega arith))
        | inr before ↦
            let ne : i ≢ length s.file_read.contexts = λ e. let yes = (==_iff i _).1 e in cc in
            let (c, at_i) = get_elem?-lt s.file_read.contexts i (omega arith) in
            let next : (i + 1) % size_mod platform ≡ i + 1 = mod-eq_of_lt (omega arith) in
            let count = length-set s.file_read.contexts i (started os s.file_read i s.world c) in
            bind_some (read_shared os q i) _ s (read_shared_in_range s i c at_i)
            ∙ rw next (
                issue_reads_past rounds (i + 1) (has_read os q platform s i c) (omega arith)
                  (omega arith) (omega arith))
      ]

  -- If the queue's depth fits a `size_t` and there are as many contexts as the queue is deep, the
  -- initial reads are defined: the time of issue is that of the clock at first; `ReadFile` is given
  -- one request for each of the first `queue_depth` contexts, in their order, with the file's
  -- handle and the context's buffer, size and offset, and nothing else; the start time of each of
  -- these contexts is that of a clock at which as many of the requests had been made as its number
  -- says; and nothing else of the contexts, the file's size, the queues and the counter changes.
  pub issue_initial_reads_in_range :
      (d : Depths) (s : Shared os q)
      → d.queue_depth < size_mod platform
      → d.queue_depth ≤ length s.file_read.contexts
      → (s' : Shared os q) × (issue_initial_reads os q platform d s ≡ some (tt, s'))
        × AreIssued 0 d.queue_depth (timed s) s'
        × Asks os q s s' (first_reads d.queue_depth)
  unfolding issue_initial_reads in_world
  issue_initial_reads_in_range d s few enough =
      let (s', runs, issued, asks) =
        issue_reads-AreIssued d.queue_depth 0 d.queue_depth (timed s) (omega arith) few enough in
      (
        s',
        runs,
        issued,
        record {
          rs = asks.rs;
          grows = asks.grows ∙ ap (λ rs. asks.rs ++ rs) (os.now_requests s.world);
          same_contexts = asks.same_contexts ∙ reads_from-first_reads d.queue_depth;
          are_requests = asks.are_requests;
          same_file = asks.same_file;
        },
      )

  -- If there are fewer, a context that does not exist is read, which is undefined.
  pub issue_initial_reads_out_of_range :
      (d : Depths) (s : Shared os q)
      → length s.file_read.contexts < d.queue_depth
      → length s.file_read.contexts < size_mod platform
      → issue_initial_reads os q platform d s ≡ none
  unfolding issue_initial_reads in_world
  issue_initial_reads_out_of_range d s past few =
      issue_reads_past d.queue_depth 0 _ (omega arith) (omega arith) few
