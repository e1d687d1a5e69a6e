-- ===== src/FileRead/Coverage.antt =====
-- Which bytes of the file the contexts of `CreateIOContexts` ask for.
use native.Mathlib.Nat.{mod-eq_of_lt}
use file_read_speed_test.Base.{
  ℕ, ◌+◌, ◌-◌, ◌*◌, ◌/◌, ◌%◌, ◌<◌, ◌≤◌, ◌≡◌, some, List, length, get_elem?, get_elem?-lt,
  lt_of_get_elem?, AllFrom, AllFrom-get_elem?, div-mul-le, lt-div-mul-add, block_unique,
  div-lt-ceil, mul-lt-size, arith,
}
use file_read_speed_test.Words.{dword_mod, quad_limit}
use file_read_speed_test.Win32.{Win32}
use file_read_speed_test.FileRead.{IoContext, OverlappedIoFile, create_io_contexts}
use file_read_speed_test.FileRead.Contexts.{IsContext, create_io_contexts-Made}

-- Where in the file the context asks Windows to read.
abbrev pub position : IoContext → ℕ
position c = c.overlapped.offset + c.overlapped.offset_high * dword_mod

-- The request reads the byte number `p` of the file.
abbrev pub Covers : IoContext → ℕ → Type 0
Covers c p = (position c ≤ p) × (p < position c + c.bytes_to_read)

-- The contexts of the buffers of a file of at most 4 GiB.
module _ (file_size b handle : ℕ) (contexts : List IoContext) (pos : 0 < b)
    (count : length contexts ≡ (file_size + b - 1) / b)
    (all : AllFrom (IsContext b handle) 0 contexts) (low : file_size ≤ dword_mod) where
  low_position :
      (i : ℕ) (c : IoContext)
      → get_elem? contexts i ≡ some c
      → (position c ≡ i * b) × (c.bytes_to_read ≡ b)
  low_position i c at_i =
      let made_c : IsContext b handle i c =
        AllFrom-get_elem? (IsContext b handle) 0 i contexts c (omega arith) all at_i in
      let in_range = lt_of_get_elem? contexts i c at_i in
      let inside = mul-lt-size i file_size b pos (omega (arith, count)) in
      let no_wrap : (i * b) % dword_mod ≡ i * b = mod-eq_of_lt (omega arith) in omega arith

  -- The context with the number of its buffer asks for a byte of the file.
  pub byte_in_context :
      (p : ℕ) → p < file_size → (c : IoContext) × (get_elem? contexts (p / b) ≡ some c) × Covers c p
  byte_in_context p inside =
      let (c, at_p) =
        get_elem?-lt contexts (p / b)
          (omega (arith, count, div-lt-ceil p file_size b pos inside)) in
      let at_block = low_position (p / b) c at_p in
      (c, at_p, omega (arith, div-mul-le p b, lt-div-mul-add p b pos))

  pub one_context :
      (p i j : ℕ) (c d : IoContext)
      → get_elem? contexts i ≡ some c
      → get_elem? contexts j ≡ some d
      → Covers c p
      → Covers d p
      → i ≡ j
  one_context p i j c d at_i at_j in_c in_d =
      let at_c = low_position i c at_i in
      let at_d = low_position j d at_j in
      block_unique i j p b (omega arith) (omega arith) (omega arith) (omega arith)

module _ (os : Win32) where
  module _ (file_size b : ℕ) (file : OverlappedIoFile) (w w' : os.World) (contexts : List IoContext)
      (pos : 0 < b) (small : file_size + b < quad_limit) (few : (file_size + b - 1) / b < dword_mod)
      (made : create_io_contexts os file_size b file w ≡ some (some contexts, w')) where
    made_of :
        (length contexts ≡ (file_size + b - 1) / b) × AllFrom (IsContext b file.handle) 0 contexts
    made_of = rw made at (create_io_contexts-Made os file_size b file w pos small few)

    -- Where Windows gives all the buffers, for a buffer size other than 0, fewer than 2 ^ 32
    -- buffers and a sum of the sizes that fits 63 bits, every byte of a file of at most 4 GiB lies
    -- in the range that the context with the number of its buffer asks for.
    pub byte_is_covered :
        (p : ℕ)
        → file_size ≤ dword_mod
        → p < file_size
        → (c : IoContext) × (get_elem? contexts (p / b) ≡ some c) × Covers c p
    byte_is_covered p low inside =
        byte_in_context file_size b file.handle contexts pos made_of.0 made_of.1 low p inside

    -- Two contexts of a file of at most 4 GiB that ask for a common byte have the same number.
    covered_once :
        (p i j : ℕ) (c d : IoContext)
        → file_size ≤ dword_mod
        → get_elem? contexts i ≡ some c
        → get_elem? contexts j ≡ some d
        → Covers c p
        → Covers d p
        → i ≡ j
    covered_once p i j c d low at_i at_j in_c in_d =
        one_context file_size b file.handle contexts pos made_of.0 made_of.1 low p i j c d at_i at_j
          in_c in_d

    -- Where Windows gives all the buffers, for a buffer size other than 0, fewer than 2 ^ 32
    -- buffers and a sum of the sizes that fits 63 bits, no context asks for a byte from 4 GiB and
    -- one buffer on.
    pub high_byte_is_lost :
        (p i : ℕ) (c : IoContext) → dword_mod + b ≤ p → get_elem? contexts i ≡ some c → ¬ Covers c p
    high_byte_is_lost p i c high at_i covers =
        let made_c : IsContext b file.handle i c =
          AllFrom-get_elem? (IsContext b file.handle) 0 i contexts c (omega arith) made_of.1 at_i in
        omega arith
