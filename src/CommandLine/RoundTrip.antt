-- ===== src/CommandLine/RoundTrip.antt =====
-- A command line for each action, and that it is understood.
use native.Mathlib.Nat.{mod-eq_of_lt}
use file_read_speed_test.Base.{
  ℕ, ◌<◌, ◌≡◌, ◌≢◌, refl, ap, ◌∙◌, false, String, Option, none, some, List, [], ◌∷◌, ◌++◌,
}
use file_read_speed_test.Words.{Platform, size_mod}
use file_read_speed_test.StateMachine.{StateMachines, IsFirstMatch}
use file_read_speed_test.CommandLine.{
  NodeIndices, same_node, SuccessAction, success_action, Locals, CLibrary,
  process_command_line_parameters,
}
use file_read_speed_test.CommandLine.Grammar.{
  IsStrtoull, Flag, buffer_size_flag, thread_count_flag, queue_depth_flag, flag_of, Settings,
  parsed, finish, number, assign, read_flags, command_line_action,
}
use file_read_speed_test.CommandLine.Refinement.{process-command_line_action}

-- The digits of a number, which `strtoull` reads back.
pub record IsPrinter (platform : Platform) (c : CLibrary) (s : IsStrtoull c) (show : ℕ → String)
    : Type 0 where
  pub fits : (n : ℕ) → n < size_mod platform → s.overflows (show n) ≡ false
  pub reads_back : (n : ℕ) → n < size_mod platform → s.value (show n) ≡ n

abbrev pub print_option : (ℕ → String) → String → Option ℕ → List String
print_option show flag none = []
print_option show flag (some n) = flag ∷ show n ∷ []

-- The program's name, the options that the action has, and the file.
abbrev pub print_action : (ℕ → String) → String → SuccessAction → List String
print_action show program action =
    program
    ∷ (print_option show "--buffer_size" action.buffer_size
        ++ (print_option show "--thread_count" action.thread_count
            ++ (print_option show "--queue_depth" action.queue_depth
                ++ ("-i" ∷ action.file_path ∷ []))))

abbrev pub IsSize : Platform → Option ℕ → Type 0
IsSize platform none = Unit {0}
IsSize platform (some n) = n < size_mod platform

abbrev pub HasSizes : Platform → SuccessAction → Type 0
HasSizes platform action =
    IsSize platform action.buffer_size
    × IsSize platform action.thread_count
    × IsSize platform action.queue_depth

module _ (c : CLibrary) (platform : Platform) (s : IsStrtoull c) (show : ℕ → String)
    (printer : IsPrinter platform c s show) where
  read_flags-value :
      (text v : String) (flag : Flag) (p p' : Settings) (rest : List String)
      → flag_of text ≡ some flag
      → assign c platform s flag v p ≡ parsed p'
      → read_flags c platform s (text ∷ v ∷ rest) p ≡ read_flags c platform s rest p'
  unfolding read_flags
  read_flags-value text v flag p p' rest is_flag assigns = rw (is_flag, assigns, read_flags) refl

  -- The settings after some of the options.
  abbrev after : Option ℕ → Option ℕ → Option ℕ → Settings
  after b t d = record { input_file = none; buffer_size = b; thread_count = t; queue_depth = d }

  number-show :
      (n : ℕ) (put : ℕ → Settings)
      → n < size_mod platform
      → number c platform s (show n) put ≡ parsed (put n)
  number-show n put small =
      rw (printer.fits n small, printer.reads_back n small, mod-eq_of_lt small) refl

  read_buffer_size :
      (b : Option ℕ) (rest : List String)
      → IsSize platform b
      → read_flags c platform s (print_option show "--buffer_size" b ++ rest) (after none none none)
        ≡ read_flags c platform s rest (after b none none)
  unfolding flag_of assign
  read_buffer_size none rest size = refl
  read_buffer_size (some n) rest size =
      read_flags-value "--buffer_size" (show n) buffer_size_flag (after none none none)
        (after (some n) none none) rest refl (number-show n (λ x. after (some x) none none) size)

  read_thread_count :
      (b t : Option ℕ) (rest : List String)
      → IsSize platform t
      → read_flags c platform s (print_option show "--thread_count" t ++ rest) (after b none none)
        ≡ read_flags c platform s rest (after b t none)
  unfolding flag_of assign
  read_thread_count b none rest size = refl
  read_thread_count b (some n) rest size =
      read_flags-value "--thread_count" (show n) thread_count_flag (after b none none)
        (after b (some n) none) rest refl (number-show n (λ x. after b (some x) none) size)

  read_queue_depth :
      (b t d : Option ℕ) (rest : List String)
      → IsSize platform d
      → read_flags c platform s (print_option show "--queue_depth" d ++ rest) (after b t none)
        ≡ read_flags c platform s rest (after b t d)
  unfolding flag_of assign
  read_queue_depth b t none rest size = refl
  read_queue_depth b t (some n) rest size =
      read_flags-value "--queue_depth" (show n) queue_depth_flag (after b t none)
        (after b t (some n)) rest refl (number-show n (λ x. after b t (some x)) size)

  read_file_path :
      (b t d : Option ℕ) (path : String)
      → finish (read_flags c platform s ("-i" ∷ path ∷ []) (after b t d))
        ≡ success_action
            (record { file_path = path; buffer_size = b; thread_count = t; queue_depth = d })
  unfolding flag_of assign read_flags finish
  read_file_path b t d path = refl

  command_line_action-print_action :
      (program : String) (action : SuccessAction)
      → HasSizes platform action
      → command_line_action c platform s (print_action show program action) ≡ success_action action
  unfolding command_line_action
  command_line_action-print_action program action (b_size, t_size, d_size) =
      let b = action.buffer_size in
      let t = action.thread_count in
      let d = action.queue_depth in
      ap finish (
        read_buffer_size b _ b_size
        ∙ read_thread_count b t _ t_size
        ∙ read_queue_depth b t d _ d_size)
      ∙ read_file_path b t d action.file_path

  -- If `strtoull` reads back the digits that are printed for a number that fits a `size_t`, and
  -- `errno` is not ERANGE at the call, the parser gives back every action whose numbers fit from
  -- the command line that is printed for it.
  pub process-print_action :
      (m : StateMachines NodeIndices Locals)
      → IsFirstMatch same_node m
      → (errno : ℕ) → errno ≢ c.erange
      → (program : String) (action : SuccessAction) → HasSizes platform action
      → process_command_line_parameters c platform m (print_action show program action) errno
        ≡ some (success_action action)
  process-print_action m law errno fresh program action sizes =
      process-command_line_action c platform m s errno fresh law (print_action show program action)
      ∙ ap some (command_line_action-print_action program action sizes)
