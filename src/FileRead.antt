-- ===== src/FileRead.antt =====
-- Code/OverlappedIOFileRead.hpp and Code/OverlappedIOFileRead.cpp: the file that is read, one
-- context for each buffer of it, and the operations on them.
pub mod Contexts
pub mod Coverage
pub mod Reading
pub mod Preparation
pub mod Printing
pub mod Worker
pub mod Waiting
use file_read_speed_test.Base.{
  ℕ, zero, suc, ◌+◌, ◌-◌, sub_ℕ, ◌*◌, ◌/◌, ◌%◌, ◌==◌, leb, if◌then◌else◌, Bool, false, Option, none,
  some, List, [], ◌∷◌, ◌++◌, String, get_elem?, set, Exec, ◌>>=◌, ◌>>◌, return, undefined, call,
}
use file_read_speed_test.Words.{dword_mod, quad_mod, quad_limit, signed_ltb}
use file_read_speed_test.Win32.{
  Win32, ReadRequest, file_size_line, open_delay_line, open_to_read_delay_line, buffer_line,
}
use file_read_speed_test.Handles.{HandleObject, new_handle_object, move_construct, destroy}
use file_read_speed_test.Allocator.{OsAllocation, allocate, deallocate}

-- A handle object with the time at which it was made.
pub record OverlappedIoFile : Type 0 where
  pub handle_object : HandleObject
  pub open handle_object use *
  pub file_open_time : ℕ

pub record Overlapped : Type 0 where
  pub offset : ℕ
  pub offset_high : ℕ

pub record IoContext : Type 0 where
  pub overlapped : Overlapped
  pub file_handle : ℕ
  pub buffer : OsAllocation
  pub bytes_to_read : ℕ
  pub file_offset : ℕ
  pub is_complete : Bool
  pub request_start_time : ℕ
  pub request_complete_time : ℕ

pub record OverlappedIoFileRead : Type 0 where
  pub overlapped_io_file : OverlappedIoFile
  pub completion_port : HandleObject
  pub contexts : List IoContext
  pub file_size : ℕ
  pub read_issue_time : ℕ

pub data PrepareToReadFileError : Type 0 where
  could_not_open_file could_not_create_completion_port could_not_create_thread
        could_not_get_file_size could_not_create_io_contexts :
      PrepareToReadFileError

-- A `std::expected`.
pub data Expected (A : Type 0) : Type 0 where
  expected : A → Expected A
  unexpected : PrepareToReadFileError → Expected A

-- The constructor leaves both times at the epoch.
abbrev pub new_io_context : Overlapped → ℕ → OsAllocation → ℕ → ℕ → IoContext
new_io_context overlapped handle buffer bytes_to_read file_offset = record {
  overlapped = overlapped;
  file_handle = handle;
  buffer = buffer;
  bytes_to_read = bytes_to_read;
  file_offset = file_offset;
  is_complete = false;
  request_start_time = 0;
  request_complete_time = 0;
}

-- `file_open_time_` is the time at which the constructor runs.
abbrev pub new_overlapped_io_file : ℕ → ℕ → OverlappedIoFile
new_overlapped_io_file handle now = record {
  handle_object = new_handle_object handle;
  file_open_time = now;
}

-- The constructor leaves the time at which the reads are issued at the epoch.
abbrev pub new_overlapped_io_file_read :
    OverlappedIoFile → HandleObject → List IoContext → ℕ → OverlappedIoFileRead
new_overlapped_io_file_read file port contexts file_size = record {
  overlapped_io_file = file;
  completion_port = port;
  contexts = contexts;
  file_size = file_size;
  read_issue_time = 0;
}

-- What `Read` hands to `ReadFile`.
abbrev pub read_request : ℕ → ℕ → IoContext → ReadRequest
read_request handle context_index c = record {
  handle = handle;
  memory = c.buffer.memory;
  bytes_to_read = c.bytes_to_read;
  offset = c.overlapped.offset;
  offset_high = c.overlapped.offset_high;
  context = context_index;
}

-- The sum is that of two 64-bit patterns; the comparison is signed. On 32 bits the sum is signed too,
-- and one out of range undefined in the code; here it wraps on both platforms.
unfoldable pub get_new_read_offset : ℕ → ℕ → ℕ → Option ℕ
get_new_read_offset file_size current_read_start buffer_interval_in_bytes =
    let new_read_offset = (current_read_start + buffer_interval_in_bytes) % quad_mod in
    if signed_ltb file_size new_read_offset then none else some new_read_offset

module _ (os : Win32) where
  unfoldable pub create_completion_port : OverlappedIoFile → ℕ → Exec os.World (Option HandleObject)
  create_completion_port file worker_thread_count = do
    handle ← call (os.create_io_completion_port file.handle worker_thread_count)
    if handle == 0 then return none else return (some (new_handle_object handle))

  -- The loop of `CreateIOContexts`, with the rounds that are left and the counter `i`.
  unfoldable pub create_contexts_loop :
      ℕ → ℕ → ℕ → ℕ → List IoContext → Exec os.World (Option (List IoContext))
  create_contexts_loop zero i buffer_size handle contexts = return (some contexts)
  create_contexts_loop (suc rounds) i buffer_size handle contexts = do
    allocation ← allocate os buffer_size
    elim allocation [
      | none ↦ return none
      | some buffer ↦
          let file_offset = (i * buffer_size) % dword_mod in
          let overlapped : Overlapped = record { offset = file_offset; offset_high = 0 } in
          create_contexts_loop rounds ((i + 1) % dword_mod) buffer_size handle
            (contexts ++ (new_io_context overlapped handle buffer buffer_size file_offset ∷ []))
    ]

  -- `buffer_size` is an `unsigned long`. The quotient is of 64-bit integers: a sum out of range
  -- and a division by zero are undefined.
  unfoldable pub create_io_contexts :
      ℕ → ℕ → OverlappedIoFile → Exec os.World (Option (List IoContext))
  create_io_contexts file_size buffer_size file =
      if buffer_size == 0
      then undefined
      else if leb quad_limit (file_size + buffer_size)
      then undefined
      else create_contexts_loop (((file_size + buffer_size - 1) / buffer_size) % dword_mod) 0
          buffer_size file.handle []

  -- The result holds the time that goes into `pre_open_time_`, a variable of the source file.
  unfoldable pub create_overlapped_io_file : String → Exec os.World (ℕ × Option OverlappedIoFile)
  create_overlapped_io_file file_name = do
    pre_open_time ← call os.now
    file_handle ← call (os.create_file file_name)
    if file_handle == os.invalid_handle_value then return (pre_open_time, none) else do
      file_open_time ← call os.now
      return (pre_open_time, some (new_overlapped_io_file file_handle file_open_time))

  -- `contexts_[context_index]` out of range is undefined. A refused read leaves no trace but the
  -- start time: both branches on the error are empty.
  unfoldable pub read : OverlappedIoFileRead → ℕ → Exec os.World OverlappedIoFileRead
  read r context_index = elim (get_elem? r.contexts context_index) [
    | none ↦ undefined
    | some c ↦ do
      request_start_time ← call os.now
      let started = record c { request_start_time = request_start_time }
      let r' = record r { contexts = set r.contexts context_index started }
      result ← call (os.read_file (read_request r.overlapped_io_file.handle context_index c))
      if result then return r' else do error ← call os.get_last_error; return r'
  ]

  -- The loop of `PrintResults` over the contexts from number `i` on.
  unfoldable pub print_contexts : ℕ → ℕ → List IoContext → Exec os.World (List IoContext)
  print_contexts read_issue_time i [] = return []
  print_contexts read_issue_time i (c ∷ contexts) = do
    call (
        os.write_line (
          buffer_line i (sub_ℕ c.request_start_time read_issue_time)
            (sub_ℕ c.request_complete_time c.request_start_time)))
    buffer ← deallocate os c.buffer
    rest ← print_contexts read_issue_time (i + 1) contexts
    return (record c { buffer = buffer } ∷ rest)

  unfoldable pub print_results : ℕ → OverlappedIoFileRead → Exec os.World OverlappedIoFileRead
  print_results pre_open_time r = do
    let file_open_time = r.overlapped_io_file.file_open_time
    call (os.write_line (open_delay_line (sub_ℕ file_open_time pre_open_time)))
    call (os.write_line (open_to_read_delay_line (sub_ℕ r.read_issue_time file_open_time)))
    contexts ← print_contexts r.read_issue_time 0 r.contexts
    return (record r { contexts = contexts })

  unfoldable pub get_ideal_buffer_size : OverlappedIoFile → Exec os.World (Option ℕ)
  get_ideal_buffer_size file = do
    logical_bytes_per_sector ← call (os.get_file_storage_info file.handle)
    elim logical_bytes_per_sector [
      | none ↦ return none
      | some _ ↦ do page_size ← call os.get_page_size; return (some page_size)
    ]

  -- The outcome of `PrepareToReadFile`, and what the file that it takes by reference holds then.
  abbrev pub Preparation : Type 0
  Preparation = Exec os.World (Expected OverlappedIoFileRead × OverlappedIoFile)

  -- From the contexts on. The file is moved from on success; without contexts the completion port
  -- is destroyed.
  unfoldable pub finish_preparation :
      OverlappedIoFile → ℕ → HandleObject → Option (List IoContext) → Preparation
  finish_preparation file size port none = do
    destroy os port
    return (unexpected could_not_create_io_contexts, file)
  finish_preparation file size port (some contexts) =
      let (object, moved_from) = move_construct os file.handle_object in
      return (
        expected (
            new_overlapped_io_file_read (record file { handle_object = object }) port contexts
              size),
        record file { handle_object = moved_from },
      )

  -- From the completion port on. The `size_t` becomes an `unsigned long`.
  unfoldable pub prepare_contexts : OverlappedIoFile → ℕ → ℕ → Option HandleObject → Preparation
  prepare_contexts file size buffer_size none =
      return (unexpected could_not_create_completion_port, file)
  prepare_contexts file size buffer_size (some port) = do
    io_contexts ← create_io_contexts size (buffer_size % dword_mod) file
    finish_preparation file size port io_contexts

  -- From the size of the file on.
  unfoldable pub prepare_port : OverlappedIoFile → ℕ → ℕ → Option ℕ → Preparation
  prepare_port file worker_thread_count buffer_size none =
      return (unexpected could_not_get_file_size, file)
  prepare_port file worker_thread_count buffer_size (some size) = do
    call (os.write_line (file_size_line size))
    completion_port ← create_completion_port file worker_thread_count
    prepare_contexts file size buffer_size completion_port

  unfoldable pub prepare_to_read_file : OverlappedIoFile → ℕ → ℕ → Preparation
  prepare_to_read_file file worker_thread_count buffer_size = do
    file_size ← call (os.get_file_size file.handle)
    prepare_port file worker_thread_count buffer_size file_size
