-- ===== src/ReadTask/Requests.antt =====
-- What the code hands to `ReadFile`, by the history of the world.
use file_read_speed_test.Base.{
  ℕ, ◌-◌, ◌≡◌, refl, ap, ◌∙◌, some, List, [], ◌∷◌, ◌++◌, map, length, length-append, take,
  take-append, get_elem?, get_elem?-set_self, lt_of_get_elem?, All, arith,
}
use file_read_speed_test.Words.{Platform}
use file_read_speed_test.Win32.{Win32, ReadRequest}
use file_read_speed_test.FileRead.{IoContext, OverlappedIoFileRead, read_request}
use file_read_speed_test.FileRead.Reading.{world_after-requests}
use file_read_speed_test.TaskQueue.{TaskQueues}
use file_read_speed_test.ReadTask.{Task, Shared}
use file_read_speed_test.ReadTask.Steps.{has_read}

-- The contexts of requests.
abbrev pub contexts_of : List ReadRequest → List ℕ
contexts_of = map (λ (r : ReadRequest). r.context)

pub contexts_of-append :
    (rs rs' : List ReadRequest) → contexts_of (rs ++ rs') ≡ contexts_of rs ++ contexts_of rs'
contexts_of-append [] rs' = refl
contexts_of-append (r ∷ rs) rs' = ap (λ is. r.context ∷ is) (contexts_of-append rs rs')

module _ (os : Win32) where
  -- What `ReadFile` is given from one world to a later one, the last one first.
  abbrev pub asked : os.World → os.World → List ReadRequest
  asked w w' = take (length (os.requests w') - length (os.requests w)) (os.requests w')

  pub asked_lem :
      (w w' : os.World) (rs : List ReadRequest)
      → os.requests w' ≡ rs ++ os.requests w
      → asked w w' ≡ rs
  asked_lem w w' rs e =
      let count : length (os.requests w') - length (os.requests w) ≡ length rs =
        omega (arith, ap (λ xs. length xs) e, length-append rs (os.requests w)) in
      ap (λ n. take n (os.requests w')) count
      ∙ ap (take (length rs)) e
      ∙ take-append rs (os.requests w)

-- What `ReadFile` is to be given for a context: the handle of the file, the context's buffer, and as
-- many bytes as it is to read, from its offset on.
abbrev pub IsRequest : ℕ → ReadRequest → IoContext → Type 0
IsRequest handle x c =
    (x.handle ≡ handle)
    × (x.memory ≡ c.buffer.memory)
    × (x.bytes_to_read ≡ c.bytes_to_read)
    × (x.offset ≡ c.overlapped.offset)
    × (x.offset_high ≡ c.overlapped.offset_high)

-- The context that a request points to exists, and the request is its own.
abbrev pub IsRequestOf : OverlappedIoFileRead → ReadRequest → Type 0
IsRequestOf r x =
    (c : IoContext) × (get_elem? r.contexts x.context ≡ some c)
    × IsRequest r.overlapped_io_file.handle x c

module _ (os : Win32) (q : TaskQueues Task) where
  -- The contexts that `ReadFile` is asked to read from one state to a later one, the last one first.
  abbrev pub reads_between : Shared os q → Shared os q → List ℕ
  reads_between s s' = contexts_of (asked os s.world s'.world)

  -- From one state to a later one, `ReadFile` is given requests of these contexts.
  pub record Asks (s s' : Shared os q) (reads : List ℕ) : Type 0 where
    pub rs : List ReadRequest
    pub grows : os.requests s'.world ≡ rs ++ os.requests s.world
    pub same_contexts : contexts_of rs ≡ reads
    pub are_requests : All (IsRequestOf s'.file_read) rs
    pub same_file : s'.file_read.overlapped_io_file ≡ s.file_read.overlapped_io_file

  pub nothing_asked :
      (s s' : Shared os q) → s'.world ≡ s.world → s'.file_read ≡ s.file_read → Asks s s' []
  nothing_asked s s' same_world same_file_read = record {
    rs = [];
    grows = ap os.requests same_world;
    same_contexts = refl;
    are_requests = tt;
    same_file = ap (λ (r : OverlappedIoFileRead). r.overlapped_io_file) same_file_read;
  }

  pub Asks-reads :
      (s s' : Shared os q) (reads : List ℕ) → Asks s s' reads → reads_between s s' ≡ reads
  Asks-reads s s' reads asks =
      ap contexts_of (asked_lem os s.world s'.world asks.rs asks.grows) ∙ asks.same_contexts

  pub has_read-Asks :
      (platform : Platform) (s : Shared os q) (i : ℕ) (c : IoContext)
      → get_elem? s.file_read.contexts i ≡ some c
      → Asks s (has_read os q platform s i c) (i ∷ [])
  has_read-Asks platform s i c at_i = record {
    rs = read_request s.file_read.overlapped_io_file.handle i c ∷ [];
    grows = world_after-requests os s.file_read i s.world c;
    same_contexts = refl;
    are_requests = (
      (
        _,
        get_elem?-set_self s.file_read.contexts i _ (lt_of_get_elem? s.file_read.contexts i c at_i),
        (refl, refl, refl, refl, refl),
      ),
      tt,
    );
    same_file = refl;
  }
