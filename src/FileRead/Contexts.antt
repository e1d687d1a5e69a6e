-- ===== src/FileRead/Contexts.antt =====
-- `CreateIOContexts`: what it makes, in terms of the file's size and the size of a buffer.
use file_read_speed_test.Base.{
  ℕ, zero, suc, ◌+◌, ◌-◌, ◌*◌, ◌/◌, ◌%◌, ◌<◌, ◌≡◌, ◌≢◌, refl, inl, inr, false, Option, none, some,
  List, [], ◌∷◌, length, length-append, AllFrom, AllFrom-append_one, ◌==◌, leb, arith, ◌>>=◌,
}
use file_read_speed_test.Words.{dword_mod, quad_limit}
use file_read_speed_test.Win32.{Win32}
use file_read_speed_test.Allocator.{allocate-cases}
use file_read_speed_test.FileRead.{
  IoContext, OverlappedIoFile, create_contexts_loop, create_io_contexts,
}

-- The context of the buffer number `i`, for buffers of `b` bytes.
pub record IsContext (b handle i : ℕ) (c : IoContext) : Type 0 where
  pub at_offset : c.file_offset ≡ (i * b) % dword_mod
  pub asks_offset : c.overlapped.offset ≡ (i * b) % dword_mod
  pub asks_low : c.overlapped.offset_high ≡ 0
  pub asks_bytes : c.bytes_to_read ≡ b
  pub of_file : c.file_handle ≡ handle
  pub has_buffer : c.buffer.memory ≢ 0
  pub is_pending : c.is_complete ≡ false

module _ (os : Win32) where
  -- The outcome is defined. It is `n` contexts, each that of its number, or none after an
  -- allocation that Windows refused.
  abbrev pub Made : ℕ → ℕ → ℕ → Option (Option (List IoContext) × os.World) → Type 0
  Made b handle n none = ⊥
  Made b handle n (some (none, w)) = (v : os.World) × ((os.virtual_alloc b v).0 ≡ 0)
  Made b handle n (some (some contexts, w)) =
      (length contexts ≡ n) × AllFrom (IsContext b handle) 0 contexts

  create_contexts_loop-Made :
      (rounds i n b handle : ℕ) (contexts : List IoContext) (w : os.World)
      → i + rounds ≡ n
      → n < dword_mod
      → length contexts ≡ i
      → AllFrom (IsContext b handle) 0 contexts
      → Made b handle n (create_contexts_loop os rounds i b handle contexts w)
  unfolding create_contexts_loop
  create_contexts_loop-Made zero i n b handle contexts w e lt len all = (omega arith, all)
  create_contexts_loop-Made (suc rounds) i n b handle contexts w e lt len all =
      elim (allocate-cases os b w) [
        | inl (refused, step) ↦ rw (step, ◌>>=◌) (w, refused)
        | inr (allocation, not_null, step) ↦
            let next : (i + 1) % dword_mod ≡ i + 1 = omega arith in
            rw (step, ◌>>=◌)
              (create_contexts_loop-Made rounds ((i + 1) % dword_mod) n b handle _ _ (omega arith)
                lt (omega (arith, length-append {0} contexts (_ ∷ [])))
                (AllFrom-append_one (IsContext b handle) 0 contexts _ {j = i} (omega arith) all
                  (record {
                    at_offset = refl;
                    asks_offset = refl;
                    asks_low = refl;
                    asks_bytes = refl;
                    of_file = refl;
                    has_buffer = not_null;
                    is_pending = refl;
                  })))
      ]

  -- For a buffer size other than 0, fewer than 2 ^ 32 buffers and a sum of the sizes that fits 63
  -- bits, the call is defined: one context for each started buffer, each at its number's multiple
  -- of the buffer size modulo 2 ^ 32, or none, after an allocation that Windows refused.
  pub create_io_contexts-Made :
      (file_size b : ℕ) (file : OverlappedIoFile) (w : os.World)
      → 0 < b
      → file_size + b < quad_limit
      → (file_size + b - 1) / b < dword_mod
      → Made b file.handle ((file_size + b - 1) / b) (create_io_contexts os file_size b file w)
  unfolding create_io_contexts
  create_io_contexts-Made file_size b file w pos small few =
      let divides : (b == 0) ≡ false = ground arith in
      let fits : leb quad_limit (file_size + b) ≡ false = ground arith in
      let count : ((file_size + b - 1) / b) % dword_mod ≡ (file_size + b - 1) / b = omega arith in
      rw (divides, fits, count)
        (create_contexts_loop-Made _ 0 _ b file.handle [] w (omega arith) few refl tt)
