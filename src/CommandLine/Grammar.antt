-- ===== src/CommandLine/Grammar.antt =====
-- What a command line means, without a state machine: the program's name, then flags, each with a
-- value. The first flag or number that is refused decides the message; of a flag that is given
-- twice the last value counts; a flag at the end has no value and no effect.
use text.Mathlib.Text.{◌==◌ as str_eq}
use file_read_speed_test.Base.{
  ℕ, ◌%◌, ◌≡◌, Bool, String, Option, none, some, List, [], ◌∷◌, if◌then◌else◌,
}
use file_read_speed_test.Words.{Platform, size_mod}
use file_read_speed_test.CommandLine.{
  Action, success_action, error_action, CLibrary, unexpected_parameter, not_a_number,
  no_file_provided,
}

-- What the C standard says of `strtoull`: `errno` is set where the number does not fit, and kept
-- otherwise.
pub record IsStrtoull (c : CLibrary) : Type 0 where
  pub value : String → ℕ
  pub overflows : String → Bool
  pub strtoull_lem :
      (s : String) (errno : ℕ)
      → c.strtoull s errno ≡ (value s, if overflows s then c.erange else errno)

pub data Flag : Type 0 where
  input_flag buffer_size_flag thread_count_flag queue_depth_flag : Flag

unfoldable pub flag_of : String → Option Flag
flag_of a =
    if str_eq "-i" a
    then some input_flag
    else if str_eq "--buffer_size" a
    then some buffer_size_flag
    else if str_eq "--thread_count" a
    then some thread_count_flag
    else if str_eq "--queue_depth" a
    then some queue_depth_flag
    else none

pub record Settings : Type 0 where
  pub input_file : Option String
  pub buffer_size : Option ℕ
  pub thread_count : Option ℕ
  pub queue_depth : Option ℕ

abbrev pub no_settings : Settings
no_settings = record {
  input_file = none;
  buffer_size = none;
  thread_count = none;
  queue_depth = none;
}

pub data Parse : Type 0 where
  parsed : Settings → Parse
  refused : String → Parse

unfoldable pub finish : Parse → Action
finish (refused message) = error_action message
finish (parsed p) = elim p.input_file [
  | none ↦ error_action no_file_provided
  | some file_path ↦ success_action (record {
    file_path = file_path;
    buffer_size = p.buffer_size;
    thread_count = p.thread_count;
    queue_depth = p.queue_depth;
  })
]

module _ (c : CLibrary) (platform : Platform) (s : IsStrtoull c) where
  abbrev pub number : String → (ℕ → Settings) → Parse
  number v put =
      if s.overflows v
      then refused (not_a_number v)
      else parsed (put (s.value v % size_mod platform))

  unfoldable pub assign : Flag → String → Settings → Parse
  assign input_flag v p = parsed (record p { input_file = some v })
  assign buffer_size_flag v p = number v (λ n. record p { buffer_size = some n })
  assign thread_count_flag v p = number v (λ n. record p { thread_count = some n })
  assign queue_depth_flag v p = number v (λ n. record p { queue_depth = some n })

  unfoldable pub read_flags : List String → Settings → Parse
  read_flags [] p = parsed p
  read_flags (a ∷ []) p = elim (flag_of a) [
    | none ↦ refused (unexpected_parameter a)
    | some flag ↦ parsed p
  ]
  read_flags (a ∷ v ∷ rest) p = elim (flag_of a) [
    | none ↦ refused (unexpected_parameter a)
    | some flag ↦ elim (assign flag v p) [
      | refused message ↦ refused message
      | parsed p' ↦ read_flags rest p'
    ]
  ]

  unfoldable pub command_line_action : List String → Action
  command_line_action [] = finish (parsed no_settings)
  command_line_action (program ∷ argv) = finish (read_flags argv no_settings)
