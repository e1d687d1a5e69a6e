-- ===== src/System/Flight/Reading.antt =====
-- What an initial read of `main` changes while the threads run.
use mathlib.Core.Path.{subst}
use file_read_speed_test.Base.{
  ℕ, ◌<◌, ◌≡◌, ◌≢◌, inl, inr, refl, sym, ap, ◌∙◌, true, some, length, get_elem?, get_elem?-lt,
  get_elem?-set_self, get_elem?-set_ne, lt_of_get_elem?, length-set, set, List, ◌==◌, ==_iff,
  Bool-cases,
}
use mathlib.Core.Option.{some-injective}
use file_read_speed_test.Words.{Platform}
use file_read_speed_test.Win32.{Win32}
use file_read_speed_test.FileRead.{IoContext}
use file_read_speed_test.TaskQueue.{TaskQueues, IsFifo}
use file_read_speed_test.ReadTask.{Task, Shared, read_shared}
use file_read_speed_test.EntryPoint.{Depths}
use file_read_speed_test.EntryPoint.InitialReads.{read_shared_in_range}
use file_read_speed_test.System.Safety.{same_result}

-- The context number `i` exists and satisfies `P`.
abbrev pub Holds : (IoContext → Type 0) → ℕ → List IoContext → Type 0
Holds P i contexts = (c : IoContext) × (get_elem? contexts i ≡ some c) × P c

abbrev pub IsComplete : ℕ → List IoContext → Type 0
IsComplete = Holds (λ c. c.is_complete ≡ true)

-- A read and a completion keep `P`.
pub record IsStable (P : IoContext → Type 0) : Type 0 where
  pub on_read : (c : IoContext) (time : ℕ) → P c → P (record c { request_start_time = time })
  pub on_completion :
      (c : IoContext) (time : ℕ)
      → P c
      → P (record c { request_complete_time = time; is_complete = true })

pub complete-IsStable : IsStable (λ c. c.is_complete ≡ true)
complete-IsStable = record {
  on_read = λ c time complete. complete;
  on_completion = λ c time complete. refl;
}

-- Where a context is replaced, what holds of the others still does.
pub set-Holds :
    (P : IoContext → Type 0) (contexts : List IoContext) (k i : ℕ) (old new : IoContext)
    → get_elem? contexts k ≡ some old
    → (P old → P new)
    → Holds P i contexts
    → Holds P i (set contexts k new)
set-Holds P contexts k i old new at_k keeps (c, at_i, holds) = elim (Bool-cases (k == i)) [
  | inl same ↦
      let same' = (==_iff k i).0 same in
      let is_old : c ≡ old =
        some-injective _ _ (sym at_i ∙ ap (get_elem? contexts) (sym same') ∙ at_k) in
      (
        new,
        ap (get_elem? (set contexts k new)) (sym same')
            ∙ get_elem?-set_self contexts k new (lt_of_get_elem? contexts k old at_k),
        keeps (subst P is_old holds),
      )
  | inr other ↦
      let ne : k ≢ i = λ e. let yes = (==_iff k i).1 e in cc in
      (c, get_elem?-set_ne contexts new ne ∙ at_i, holds)
]

module _ (os : Win32) (q : TaskQueues Task) (platform : Platform) (fifo : IsFifo q)
    (d : Depths) where
  -- A read starts a context, and changes no queue and no counter.
  pub record Reads (s s' : Shared os q) : Type 0 where
    pub same_queues : s'.queues ≡ s.queues
    pub same_completed_threads : s'.completed_threads ≡ s.completed_threads
    pub same_size : s'.file_read.file_size ≡ s.file_read.file_size
    pub same_count : length s'.file_read.contexts ≡ length s.file_read.contexts

  pub read_shared-Reads :
      (s s' : Shared os q) (i : ℕ)
      → i < length s.file_read.contexts
      → read_shared os q i s ≡ some (tt, s')
      → Reads s s'
  read_shared-Reads s s' i lt reads =
      let (c, at_i) = get_elem?-lt s.file_read.contexts i lt in
      subst (Reads s)
        (same_result os q platform fifo d (read_shared_in_range os q platform s i c at_i) reads)
        (record {
          same_queues = refl;
          same_completed_threads = refl;
          same_size = refl;
          same_count = length-set s.file_read.contexts i _;
        })

  pub read_shared-Holds :
      (P : IoContext → Type 0) (s s' : Shared os q) (i k : ℕ)
      → IsStable P
      → i < length s.file_read.contexts
      → read_shared os q i s ≡ some (tt, s')
      → Holds P k s.file_read.contexts
      → Holds P k s'.file_read.contexts
  read_shared-Holds P s s' i k stable lt reads holds =
      let (c, at_i) = get_elem?-lt s.file_read.contexts i lt in
      subst (λ (x : Shared os q). Holds P k x.file_read.contexts)
        (same_result os q platform fifo d (read_shared_in_range os q platform s i c at_i) reads)
        (set-Holds P s.file_read.contexts i k c _ at_i (stable.on_read c _) holds)
