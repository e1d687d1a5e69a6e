-- ===== src/CommandLine/Refinement.antt =====
-- The state machine computes what the command line means.
use file_read_speed_test.Base.{
  ℕ, ◌≡◌, ◌≢◌, refl, ap, ◌∙◌, ◌⊎◌, inl, inr, String, Option, none, some, List, [], ◌∷◌,
  Option-cases, arith,
}
use file_read_speed_test.Words.{Platform}
use file_read_speed_test.StateMachine.{StateMachines, IsFirstMatch}
use file_read_speed_test.CommandLine.{
  NodeIndices, start_node, awaiting_flags_node, awaiting_input_file_node, error_node,
  awaiting_buffer_size_node, awaiting_thread_count_node, awaiting_queue_depth_node, same_node,
  Action, Locals, no_locals, CLibrary, set_number, conclude, process_command_line_parameters,
  unexpected_parameter,
}
use file_read_speed_test.CommandLine.Steps.{step, steps, process-steps}
use file_read_speed_test.CommandLine.Grammar.{
  IsStrtoull, Flag, input_flag, buffer_size_flag, thread_count_flag, queue_depth_flag, flag_of,
  Settings, no_settings, Parse, parsed, refused, finish, assign, read_flags, command_line_action,
}

abbrev pub flag_node : Flag → NodeIndices
flag_node input_flag = awaiting_input_file_node
flag_node buffer_size_flag = awaiting_buffer_size_node
flag_node thread_count_flag = awaiting_thread_count_node
flag_node queue_depth_flag = awaiting_queue_depth_node

abbrev locals_of : Settings → ℕ → Locals
locals_of p errno = record {
  error_message = none;
  input_file = p.input_file;
  buffer_size = p.buffer_size;
  thread_count = p.thread_count;
  queue_depth = p.queue_depth;
  errno = errno;
}

Parse-cases :
    (r : Parse) → ((message : String) × (r ≡ refused message)) ⊎ ((p : Settings) × (r ≡ parsed p))
Parse-cases (refused message) = inl (message, refl)
Parse-cases (parsed p) = inr (p, refl)

module _ (c : CLibrary) (platform : Platform) (m : StateMachines NodeIndices Locals) where
  pub step-flag :
      (a : String) (l : Locals)
      → step c platform m awaiting_flags_node a l ≡ elim (flag_of a) [
        | none ↦ (error_node, record l { error_message = some (unexpected_parameter a) })
        | some flag ↦ (flag_node flag, l)
      ]
  unfolding step flag_of
  step-flag a l = ground arith

  -- In the error node nothing changes any more.
  steps-error :
      (argv : List String) (l : Locals) → steps c platform m error_node argv l ≡ (error_node, l)
  unfolding steps step
  steps-error [] l = refl
  steps-error (a ∷ argv) l = steps-error argv l

  abbrev pub outcome : NodeIndices × Locals → Option Action
  outcome r = conclude c platform m r.0 r.1

  pub steps-refused :
      (argv : List String) (l : Locals) (message : String)
      → outcome (steps c platform m error_node argv (record l { error_message = some message }))
        ≡ some (finish (refused message))
  unfolding conclude finish
  steps-refused argv l message = rw (steps-error argv _)

  module _ (s : IsStrtoull c) (errno : ℕ) (fresh : errno ≢ c.erange) where
    abbrev after_value : Settings → Parse → NodeIndices × Locals
    after_value p (refused message) =
        (error_node, record (locals_of p c.erange) { error_message = some message })
    after_value p (parsed p') = (awaiting_flags_node, locals_of p' errno)

    step-value :
        (flag : Flag) (v : String) (p : Settings)
        → step c platform m (flag_node flag) v (locals_of p errno)
          ≡ after_value p (assign c platform s flag v p)
    unfolding step assign set_number
    step-value input_flag v p = refl
    step-value buffer_size_flag v p = ground (arith, s.strtoull_lem v errno)
    step-value thread_count_flag v p = ground (arith, s.strtoull_lem v errno)
    step-value queue_depth_flag v p = ground (arith, s.strtoull_lem v errno)

    conclude-flag :
        (flag : Flag) (p : Settings)
        → outcome (flag_node flag, locals_of p errno) ≡ some (finish (parsed p))
    unfolding conclude finish
    conclude-flag input_flag p = ground arith
    conclude-flag buffer_size_flag p = ground arith
    conclude-flag thread_count_flag p = ground arith
    conclude-flag queue_depth_flag p = ground arith

    at_end :
        (p : Settings) → outcome (awaiting_flags_node, locals_of p errno) ≡ some (finish (parsed p))
    unfolding conclude finish
    at_end p = ground arith

    at_start : outcome (start_node, no_locals errno) ≡ some (finish (parsed no_settings))
    unfolding conclude finish
    at_start = refl

    steps-read_flags :
        (argv : List String) (p : Settings)
        → outcome (steps c platform m awaiting_flags_node argv (locals_of p errno))
          ≡ some (finish (read_flags c platform s argv p))
    unfolding steps read_flags
    steps-read_flags [] p = at_end p
    steps-read_flags (a ∷ []) p =
        ap outcome (step-flag a (locals_of p errno)) ∙ elim (Option-cases (flag_of a)) [
          | inl e ↦ rw (e, read_flags) (steps-refused [] (locals_of p errno) _)
          | inr (flag, e) ↦ rw (e, read_flags) (conclude-flag flag p)
        ]
    steps-read_flags (a ∷ v ∷ rest) p =
        ap (λ (r : NodeIndices × Locals). outcome (steps c platform m r.0 (v ∷ rest) r.1))
          (step-flag a (locals_of p errno))
        ∙ elim (Option-cases (flag_of a)) [
          | inl e ↦ rw (e, read_flags) (steps-refused (v ∷ rest) (locals_of p errno) _)
          | inr (flag, e) ↦
              rw (e, read_flags)
                (ap (λ (r : NodeIndices × Locals). outcome (steps c platform m r.0 rest r.1))
                    (step-value flag v p)
                  ∙ elim (Parse-cases (assign c platform s flag v p)) [
                    | inl (message, refuses) ↦
                        rw refuses (steps-refused rest (locals_of p c.erange) message)
                    | inr (p', accepts) ↦ rw accepts (steps-read_flags rest p')
                  ])
        ]

    -- If `errno` is not ERANGE at the call, the parser is defined on every list of parameters and
    -- gives the action that the grammar gives.
    pub process-command_line_action :
        IsFirstMatch same_node m
        → (argv : List String)
        → process_command_line_parameters c platform m argv errno
          ≡ some (command_line_action c platform s argv)
    unfolding command_line_action steps step
    process-command_line_action law [] = process-steps c platform m law [] errno ∙ at_start
    process-command_line_action law (program ∷ argv) =
        process-steps c platform m law (program ∷ argv) errno ∙ steps-read_flags argv no_settings
