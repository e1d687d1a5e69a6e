-- ===== src/Win32.antt =====
-- The calls of Windows, of the clock and of the console that the program makes. None of that code
-- is in the repository: `Win32` is the interface, over an unknown `World`, and a pointer is its
-- address, with 0 for `NULL`.
use file_read_speed_test.Base.{ℕ, ℤ, String, Bool, Option, List, ◌∷◌, ◌≡◌}

-- What `ReadFile` is given. `context` is the element of `contexts_` whose `overlapped_` is passed.
pub record ReadRequest : Type 0 where
  pub handle : ℕ
  pub memory : ℕ
  pub bytes_to_read : ℕ
  pub offset : ℕ
  pub offset_high : ℕ
  pub context : ℕ

-- What `GetQueuedCompletionStatus` gives back: its result, the key, and the context whose
-- `overlapped_` it points to, or none for a null pointer.
pub record Completion : Type 0 where
  pub result : Bool
  pub completion_key : ℕ
  pub context : Option ℕ

-- A line that the program prints; the first five without their fixed text. Delays are in ticks of the clock, and
-- negative where the later time was never set.
pub data Line : Type 0 where
  file_size_line : ℕ → Line
  open_delay_line : ℤ → Line
  open_to_read_delay_line : ℤ → Line
  buffer_line : ℕ → ℤ → ℤ → Line
  cores_line : ℕ → ℕ → Bool → Line
  text_line : String → Line
  number_line : String → ℕ → Line

-- What is read of a `SYSTEM_LOGICAL_PROCESSOR_INFORMATION_EX` in a buffer.
pub record ProcessorInformation : Type 0 where
  pub size : ℕ
  pub flags : ℕ
  pub efficiency_class : ℕ

pub record Win32 : Type 1 where
  pub World : Type 0
  pub invalid_handle_value : ℕ
  pub error_handle_eof : ℕ
  pub error_io_pending : ℕ
  pub error_insufficient_buffer : ℕ
  pub ltp_pc_smt : ℕ
  pub clock_is_steady : Bool
  pub now : World → ℕ × World
  pub sleep : ℕ → World → Unit {0} × World
  pub write_line : Line → World → Unit {0} × World
  pub get_last_error : World → ℕ × World
  pub create_file : String → World → ℕ × World
  pub close_handle : ℕ → World → Bool × World
  pub get_file_size : ℕ → World → Option ℕ × World
  pub get_file_storage_info : ℕ → World → Option ℕ × World
  pub get_page_size : World → ℕ × World
  pub create_io_completion_port : ℕ → ℕ → World → ℕ × World
  pub get_queued_completion_status : ℕ → World → Completion × World
  pub read_file : ReadRequest → World → Bool × World
  pub virtual_alloc : ℕ → World → ℕ × World
  pub virtual_free : ℕ → World → Bool × World
  -- `GetLogicalProcessorInformationEx` without a buffer gives its result and the size that a buffer
  -- needs. With a buffer of that size it fails, or fills it: the structure at each offset.
  pub get_processor_information_size : World → (Bool × ℕ) × World
  pub get_processor_information : ℕ → World → Option (ℕ → ProcessorInformation) × World
  -- What `ReadFile` has been given so far, the last one first, whether or not it was refused. It is
  -- no call: a world can always be given such a history. Neither the clock nor `GetLastError`
  -- adds to it.
  pub requests : World → List ReadRequest
  pub read_file_requests :
      (r : ReadRequest) (w : World) → requests (read_file r w).1 ≡ r ∷ requests w
  pub now_requests : (w : World) → requests (now w).1 ≡ requests w
  pub get_last_error_requests : (w : World) → requests (get_last_error w).1 ≡ requests w
