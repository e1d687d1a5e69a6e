-- ===== src/FileRead/Preparation.antt =====
-- `PrepareToReadFile`, on every branch.
use file_read_speed_test.Base.{
  ℕ, ◌+◌, ◌-◌, ◌/◌, ◌%◌, ◌<◌, ◌≡◌, ◌≢◌, refl, ◌∙◌, ◌==◌, ==_iff, ◌⊎◌, inl, inr, Bool-cases,
  Option-cases, Option, none, some, List, length, AllFrom, arith, bind_some, bind_none,
}
use file_read_speed_test.Words.{dword_mod, quad_limit}
use file_read_speed_test.Win32.{Win32, file_size_line}
use file_read_speed_test.Handles.{
  HandleObject, new_handle_object, move_construct, destroy, destroy_lem,
}
use file_read_speed_test.FileRead.{
  IoContext, OverlappedIoFile, OverlappedIoFileRead, Expected, expected, unexpected,
  could_not_create_completion_port, could_not_create_io_contexts, create_completion_port,
  create_io_contexts, prepare_to_read_file, finish_preparation, prepare_contexts, prepare_port,
}
use file_read_speed_test.FileRead.Contexts.{IsContext, Made, create_io_contexts-Made}

-- The object is ready to read a file of `size` bytes in buffers of `b`.
pub record IsReady (b size handle : ℕ) (r : OverlappedIoFileRead) : Type 0 where
  pub has_size : r.file_size ≡ size
  pub has_handle : r.overlapped_io_file.handle ≡ handle
  pub has_port : r.completion_port.handle ≢ 0
  pub has_contexts : length r.contexts ≡ (size + b - 1) / b
  pub all_contexts : AllFrom (IsContext b handle) 0 r.contexts

module _ (os : Win32) (file : OverlappedIoFile) where
  create_completion_port-cases :
      (n : ℕ) (w : os.World)
      → (((os.create_io_completion_port file.handle n w).0 ≡ 0)
          × (create_completion_port os file n w
              ≡ some (none, (os.create_io_completion_port file.handle n w).1)))
        ⊎ (((os.create_io_completion_port file.handle n w).0 ≢ 0)
            × (create_completion_port os file n w
                ≡ some (
                  some (new_handle_object (os.create_io_completion_port file.handle n w).0),
                  (os.create_io_completion_port file.handle n w).1,
                )))
  unfolding create_completion_port
  create_completion_port-cases n w =
      elim (Bool-cases ((os.create_io_completion_port file.handle n w).0 == 0)) [
        | inl refused ↦ inl ((==_iff _ 0).0 refused, rw refused)
        | inr granted ↦ inr (ground arith, rw granted)
      ]

  -- The world when the size of the file is known and printed.
  abbrev pub before_port : ℕ → os.World → os.World
  before_port size w = (os.write_line (file_size_line size) (os.get_file_size file.handle w).1).1

  prepare_to_read_file-step :
      (n b size : ℕ) (w : os.World) (port : Option HandleObject) (w' : os.World)
      → (os.get_file_size file.handle w).0 ≡ some size
      → create_completion_port os file n (before_port size w) ≡ some (port, w')
      → prepare_to_read_file os file n b w ≡ prepare_contexts os file size b port w'
  unfolding prepare_to_read_file prepare_port
  prepare_to_read_file-step n b size w port w' known made = rw known (
      bind_some (create_completion_port os file n) (prepare_contexts os file size b)
        (before_port size w) made)

  -- What may come of the call once Windows has given the size of the file: the object that is
  -- ready, with the file moved from; or the error of what Windows refused, with the file as it was.
  abbrev pub Prepared :
      ℕ → ℕ → ℕ → Option ((Expected OverlappedIoFileRead × OverlappedIoFile) × os.World) → Type 0
  Prepared n b size none = ⊥
  Prepared n b size (some ((expected r, left), w)) =
      IsReady b size file.handle r × (left.handle ≡ os.invalid_handle_value)
  Prepared n b size (some ((unexpected could_not_create_completion_port, left), w)) =
      (left ≡ file) × (v : os.World) × ((os.create_io_completion_port file.handle n v).0 ≡ 0)
  Prepared n b size (some ((unexpected could_not_create_io_contexts, left), w)) =
      (left ≡ file) × (v : os.World) × ((os.virtual_alloc b v).0 ≡ 0)
  Prepared n b size (some ((unexpected _, left), w)) = ⊥

  module _ (n b size : ℕ) (pos : 0 < b) (narrow : b < dword_mod) (small : size + b < quad_limit)
      (few : (size + b - 1) / b < dword_mod) where
    finish_preparation-Prepared :
        (port : HandleObject) (contexts : Option (List IoContext)) (w : os.World)
        → port.handle ≢ 0
        → Made os b file.handle ((size + b - 1) / b) (some (contexts, w))
        → Prepared n b size (finish_preparation os file size port contexts w)
    unfolding finish_preparation move_construct
    finish_preparation-Prepared port none w not_null made =
        let (w', closed) = destroy_lem os port w in
        rw (bind_some (destroy os port) _ w closed) (refl, made.0, made.1)
    finish_preparation-Prepared port (some contexts) w not_null made = (
      record {
        has_size = refl;
        has_handle = refl;
        has_port = not_null;
        has_contexts = made.0;
        all_contexts = made.1;
      },
      refl,
    )

    prepare_contexts-Prepared :
        (port : HandleObject) (w : os.World)
        → port.handle ≢ 0
        → Prepared n b size (prepare_contexts os file size b (some port) w)
    unfolding prepare_contexts
    prepare_contexts-Prepared port w not_null =
        let made = create_io_contexts-Made os size b file w pos small few in
        let fits : b % dword_mod ≡ b = omega arith in
        elim (Option-cases (create_io_contexts os size b file w)) [
          | inl fault ↦ absurd (rw fault at made)
          | inr ((contexts, w'), done) ↦
              rw
                (
                  fits,
                  bind_some (create_io_contexts os size b file)
                      (finish_preparation os file size port) w done,
                )
                (finish_preparation-Prepared port contexts w' not_null (rw done at made))
        ]

    -- For a buffer size other than 0 below 2 ^ 32 and a file whose size Windows gives, which makes
    -- fewer than 2 ^ 32 buffers and with the buffer size a sum that fits 63 bits, the preparation
    -- is defined: an object that is ready to read, and the file moved from; or the error that says
    -- which of the completion port and an allocation Windows has refused, and the file as it was.
    pub prepare_to_read_file-Prepared :
        (w : os.World)
        → (os.get_file_size file.handle w).0 ≡ some size
        → Prepared n b size (prepare_to_read_file os file n b w)
    unfolding prepare_contexts
    prepare_to_read_file-Prepared w known =
        elim (create_completion_port-cases n (before_port size w)) [
          | inl (is_null, refused) ↦
              rw (prepare_to_read_file-step n b size w none _ known refused)
                (refl, before_port size w, is_null)
          | inr (not_null, granted) ↦
              rw (prepare_to_read_file-step n b size w _ _ known granted)
                (prepare_contexts-Prepared _ _ not_null)
        ]

  -- If the size of the file and the completion port can be had, a buffer size whose low 32 bits are
  -- 0 makes the preparation undefined.
  pub prepare_to_read_file-undefined :
      (n b size : ℕ) (w : os.World)
      → b % dword_mod ≡ 0
      → (os.get_file_size file.handle w).0 ≡ some size
      → (os.create_io_completion_port file.handle n (before_port size w)).0 ≢ 0
      → prepare_to_read_file os file n b w ≡ none
  unfolding prepare_contexts create_io_contexts
  prepare_to_read_file-undefined n b size w no_low_bits known not_null =
      elim (create_completion_port-cases n (before_port size w)) [
        | inl (is_null, _) ↦ absurd (not_null is_null)
        | inr (_, granted) ↦
            prepare_to_read_file-step n b size w _ _ known granted
            ∙ bind_none (create_io_contexts os size (b % dword_mod) file)
                (finish_preparation os file size _) _ (rw no_low_bits)
      ]
