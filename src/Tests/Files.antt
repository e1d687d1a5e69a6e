-- ===== src/Tests/Files.antt =====
-- Contexts, reads and preparations of small files.
use file_read_speed_test.Base.{
  ℕ, ◌+◌, ◌/◌, ◌^◌, ◌≡◌, refl, none, some, List, [], ◌∷◌, get_elem?, arith,
}
use file_read_speed_test.Allocator.{allocate}
use file_read_speed_test.FileRead.{
  IoContext, OverlappedIoFile, OverlappedIoFileRead, new_io_context, create_contexts_loop,
  create_io_contexts, prepare_to_read_file,
}
use file_read_speed_test.FileRead.Contexts.{Made, create_io_contexts-Made}
use file_read_speed_test.FileRead.Coverage.{Covers, byte_is_covered, high_byte_is_lost}
use file_read_speed_test.FileRead.Preparation.{
  Prepared, prepare_to_read_file-Prepared, prepare_to_read_file-undefined,
}
use file_read_speed_test.Tests.Windows.{SmallWorld, fresh_world, small_windows}

abbrev pub small_file : OverlappedIoFile
small_file = record { handle_object = record { handle = 7 }; file_open_time = 0 }

-- The context of a buffer of `b` bytes at an offset, with its memory.
abbrev pub context_of : ℕ → ℕ → ℕ → IoContext
context_of b offset memory =
    new_io_context (record { offset = offset; offset_high = 0 }) 7 (record { memory = memory }) b
      offset

-- The contexts of ten bytes in buffers of four.
abbrev pub three_contexts : List IoContext
three_contexts = context_of 4 0 655_360 ∷ context_of 4 4 589_824 ∷ context_of 4 8 524_288 ∷ []

abbrev after_three : SmallWorld
after_three = record fresh_world { memory_left = 7 }

made_three :
    create_io_contexts small_windows 10 4 small_file fresh_world
    ≡ some (some three_contexts, after_three)
unfolding create_io_contexts create_contexts_loop allocate
made_three = refl

-- The contexts of 8 GiB in buffers of 2 GiB: the last two start where the first two do.
abbrev high_contexts : List IoContext
high_contexts =
    context_of (2 ^ 31) 0 655_360
    ∷ context_of (2 ^ 31) (2 ^ 31) 589_824
    ∷ context_of (2 ^ 31) 0 524_288
    ∷ context_of (2 ^ 31) (2 ^ 31) 458_752
    ∷ []

made_high :
    create_io_contexts small_windows (2 ^ 33) (2 ^ 31) small_file fresh_world
    ≡ some (some high_contexts, record fresh_world { memory_left = 6 })
unfolding create_io_contexts create_contexts_loop allocate
made_high = refl

abbrev small_read : OverlappedIoFileRead
small_read = record {
  overlapped_io_file = small_file;
  completion_port = record { handle = 8 };
  contexts = three_contexts;
  file_size = 10;
  read_issue_time = 0;
}

create_io_contexts-Made_example :
    Made small_windows 4 7 3 (create_io_contexts small_windows 10 4 small_file fresh_world)
create_io_contexts-Made_example =
    create_io_contexts-Made small_windows 10 4 small_file fresh_world (omega arith) (omega arith)
      (omega arith)

byte_is_covered_example : (c : IoContext) × (get_elem? three_contexts (9 / 4) ≡ some c) × Covers c 9
byte_is_covered_example =
    byte_is_covered small_windows 10 4 small_file fresh_world after_three three_contexts
      (omega arith) (omega arith) (omega arith) made_three 9 (omega arith) (omega arith)

high_byte_is_lost_example : ¬ Covers (context_of (2 ^ 31) (2 ^ 31) 458_752) (2 ^ 32 + 2 ^ 31)
high_byte_is_lost_example =
    high_byte_is_lost small_windows (2 ^ 33) (2 ^ 31) small_file fresh_world
      (record fresh_world { memory_left = 6 }) high_contexts (omega arith) (omega arith)
      (omega arith) made_high (2 ^ 32 + 2 ^ 31) 3 (context_of (2 ^ 31) (2 ^ 31) 458_752)
      (omega arith) refl

prepare_to_read_file-Prepared_example :
    Prepared small_windows small_file 2 4 10
      (prepare_to_read_file small_windows small_file 2 4 fresh_world)
prepare_to_read_file-Prepared_example =
    prepare_to_read_file-Prepared small_windows small_file 2 4 10 (omega arith) (omega arith)
      (omega arith) (omega arith) fresh_world refl

prepare_to_read_file-undefined_example :
    prepare_to_read_file small_windows small_file 2 0 fresh_world ≡ none
prepare_to_read_file-undefined_example =
    prepare_to_read_file-undefined small_windows small_file 2 0 10 fresh_world refl refl
      (omega arith)
