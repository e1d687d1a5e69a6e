-- ===== src/Cores.antt =====
-- Code/GetProcessorCoreInformation.hpp and Code/GetProcessorCoreInformation.cpp
pub mod Counting
pub mod Walk
use file_read_speed_test.Base.{
  ℕ, zero, suc, ◌+◌, ◌%◌, ◌==◌, ltb, if◌then◌else◌, Bool, true, false, ◌&&◌, Option, none, some,
  List, [], ◌∷◌, ◌++◌, Exec, ◌>>=◌, return, call,
}
use file_read_speed_test.Words.{uint16_mod}
use file_read_speed_test.Win32.{Win32, ProcessorInformation}

pub record ProcessorCoreInformation : Type 0 where
  pub efficiency_class : ℕ
  pub count : ℕ
  pub has_hyperthreading : Bool

abbrev pub new_processor_core_information : ℕ → ℕ → Bool → ProcessorCoreInformation
new_processor_core_information efficiency_class count has_hyperthreading = record {
  efficiency_class = efficiency_class;
  count = count;
  has_hyperthreading = has_hyperthreading;
}

abbrev pub same_bool : Bool → Bool → Bool
same_bool true b = b
same_bool false true = false
same_bool false false = true

abbrev pub is_match : ℕ → Bool → ProcessorCoreInformation → Bool
is_match efficiency hyperthreading i =
    i.efficiency_class == efficiency && same_bool i.has_hyperthreading hyperthreading

-- The inner loop: `match_found` and the entries afterwards. Counts are 16-bit.
unfoldable pub count_matches :
    ℕ → Bool → List ProcessorCoreInformation → Bool × List ProcessorCoreInformation
count_matches efficiency hyperthreading [] = (false, [])
count_matches efficiency hyperthreading (i ∷ infos) =
    let (match_found, rest) = count_matches efficiency hyperthreading infos in
    if is_match efficiency hyperthreading i
    then (true, record i { count = (i.count + 1) % uint16_mod } ∷ rest)
    else (match_found, i ∷ rest)

-- What the outer loop does with one core.
unfoldable pub count_core : ℕ → Bool → List ProcessorCoreInformation → List ProcessorCoreInformation
unfolding count_matches
count_core efficiency hyperthreading infos =
    let (match_found, counted) = count_matches efficiency hyperthreading infos in
    if match_found
    then counted
    else counted ++ (new_processor_core_information (efficiency % uint16_mod) 1 hyperthreading ∷ [])

module _ (os : Win32) where
  abbrev pub is_hyperthreaded : ProcessorInformation → Bool
  is_hyperthreaded p = p.flags == os.ltp_pc_smt

  -- The walk over the buffer, from the offset of `current_pointer` to `buffer_end`. `none` means
  -- that the fuel ran out.
  unfoldable pub count_cores :
      ℕ
      → (ℕ → ProcessorInformation)
      → ℕ
      → ℕ
      → List ProcessorCoreInformation
      → Option (List ProcessorCoreInformation)
  count_cores zero buffer buffer_end current_pointer infos = none
  count_cores (suc fuel) buffer buffer_end current_pointer infos =
      let p = buffer current_pointer in
      let rest =
        count_cores fuel buffer buffer_end (current_pointer + p.size)
          (count_core p.efficiency_class (is_hyperthreaded p) infos) in
      if ltb current_pointer buffer_end then rest else some infos

  walk_buffer : ℕ → os.World → Option (Option (List ProcessorCoreInformation)) × os.World
  walk_buffer required_buffer_size w =
      let (filled, w') = os.get_processor_information required_buffer_size w in
      elim filled [
        | none ↦ (some none, w')
        | some buffer ↦
            elim (count_cores (suc required_buffer_size) buffer required_buffer_size 0 []) [
              | none ↦ (none, w')
              | some infos ↦ (some (some infos), w')
            ]
      ]

  -- The outer option is the fuel of the walk, one more than the size of the buffer; the inner one
  -- is the result.
  unfoldable pub get_processor_core_information :
      os.World → Option (Option (List ProcessorCoreInformation)) × os.World
  unfolding walk_buffer
  get_processor_core_information w =
      let ((result, required_buffer_size), w') = os.get_processor_information_size w in
      if result
      then walk_buffer required_buffer_size w'
      else let (error_code, w'') = os.get_last_error w' in
        if error_code == os.error_insufficient_buffer
        then walk_buffer required_buffer_size w''
        else (some none, w'')
