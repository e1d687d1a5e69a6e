-- ===== src/Tests/Windows.antt =====
-- A Windows for the tests: a clock that ticks, a console, one file, and memory that runs out.
use file_read_speed_test.Base.{
  ℕ, ◌+◌, ◌-◌, ◌*◌, ◌==◌, ltb, if◌then◌else◌, refl, true, false, some, List, [], ◌∷◌, ◌++◌,
}
use file_read_speed_test.Win32.{Win32, ReadRequest, Line, ProcessorInformation}

-- `memory_left` is the number of allocations that still succeed, `requests` what `ReadFile` was given.
pub record SmallWorld : Type 0 where
  pub clock : ℕ
  pub console : List Line
  pub last_error : ℕ
  pub memory_left : ℕ
  pub requests : List ReadRequest

abbrev pub fresh_world : SmallWorld
fresh_world = record { clock = 0; console = []; last_error = 0; memory_left = 10; requests = [] }

-- Two cores of class 1 with hyperthreading and one of class 0 without, in 32 bytes each.
abbrev pub core_at : ℕ → ProcessorInformation
core_at offset =
    if ltb offset 64
    then record { size = 32; flags = 1; efficiency_class = 1 }
    else record { size = 32; flags = 0; efficiency_class = 0 }

abbrev pub file_bytes : ℕ
file_bytes = 10

abbrev pub small_windows : Win32
small_windows = record {
  World = SmallWorld;
  invalid_handle_value = 0xffff_ffff;
  error_handle_eof = 38;
  error_io_pending = 997;
  error_insufficient_buffer = 122;
  ltp_pc_smt = 1;
  clock_is_steady = true;
  sleep = λ milliseconds w. (tt, record w { clock = w.clock + milliseconds });
  now = λ w. (w.clock, record w { clock = w.clock + 1 });
  write_line = λ l w. (tt, record w { console = w.console ++ (l ∷ []) });
  get_last_error = λ w. (w.last_error, w);
  create_file = λ name w. (7, w);
  close_handle = λ h w. (true, w);
  get_file_size = λ h w. (some file_bytes, w);
  get_file_storage_info = λ h w. (some 512, w);
  get_page_size = λ w. (4096, w);
  create_io_completion_port = λ h n w. (8, w);
  get_queued_completion_status =
      λ h w. (record { result = true; completion_key = 0; context = some 0 }, w);
  read_file = λ r w. (false, record w { last_error = 997; requests = r ∷ w.requests });
  virtual_alloc = λ size w.
      if w.memory_left == 0
      then (0, w)
      else (65536 * w.memory_left, record w { memory_left = w.memory_left - 1 });
  virtual_free = λ p w. (true, w);
  get_processor_information_size = λ w. ((false, 96), record w { last_error = 122 });
  get_processor_information = λ size w. (some core_at, w);
  requests = λ w. w.requests;
  read_file_requests = λ r w. refl;
  now_requests = λ w. refl;
  get_last_error_requests = λ w. refl;
}
