-- ===== src/CommandLine/StaleErrno.antt =====
-- `errno` is not reset before `strtoull`: what an earlier call left in it decides.
use file_read_speed_test.Base.{◌≡◌, ◌≢◌, refl, ap, ◌∙◌, String, some, List, ◌∷◌, arith}
use file_read_speed_test.Words.{Platform}
use file_read_speed_test.StateMachine.{StateMachines, IsFirstMatch}
use file_read_speed_test.CommandLine.{
  NodeIndices, error_node, same_node, error_action, Locals, no_locals, CLibrary, set_number,
  process_command_line_parameters, not_a_number,
}
use file_read_speed_test.CommandLine.Steps.{step, steps, process-steps}
use file_read_speed_test.CommandLine.Grammar.{
  IsStrtoull, Flag, input_flag, buffer_size_flag, thread_count_flag, queue_depth_flag, flag_of,
  finish,
}
use file_read_speed_test.CommandLine.Refinement.{flag_node, outcome, step-flag, steps-refused}

module _ (c : CLibrary) (platform : Platform) (m : StateMachines NodeIndices Locals)
    (s : IsStrtoull c) where
  step-stale :
      (flag : Flag) (v : String)
      → flag ≢ input_flag
      → step c platform m (flag_node flag) v (no_locals c.erange)
        ≡ (error_node, record (no_locals c.erange) { error_message = some (not_a_number v) })
  unfolding step set_number
  step-stale input_flag v number = absurd (number refl)
  step-stale buffer_size_flag v number = ground (arith, s.strtoull_lem v c.erange)
  step-stale thread_count_flag v number = ground (arith, s.strtoull_lem v c.erange)
  step-stale queue_depth_flag v number = ground (arith, s.strtoull_lem v c.erange)

  -- If `errno` is ERANGE at the call, a first flag that takes a number is refused with the message
  -- that its value is no number, whatever the value is.
  pub process-stale_errno :
      IsFirstMatch same_node m
      → (program text v : String) (rest : List String) (flag : Flag) → flag_of text ≡ some flag
      → flag ≢ input_flag
      → process_command_line_parameters c platform m (program ∷ text ∷ v ∷ rest) c.erange
        ≡ some (error_action (not_a_number v))
  unfolding steps step finish
  process-stale_errno law program text v rest flag known number =
      process-steps c platform m law (program ∷ text ∷ v ∷ rest) c.erange
      ∙ (ap
            (λ (r : NodeIndices × Locals).
              outcome c platform m (steps c platform m r.0 (v ∷ rest) r.1))
            (step-flag c platform m text (no_locals c.erange) ∙ rw known)
          ∙ (ap
                (λ (r : NodeIndices × Locals).
                  outcome c platform m (steps c platform m r.0 rest r.1))
                (step-stale flag v number)
              ∙ steps-refused c platform m rest (no_locals c.erange) (not_a_number v)))
