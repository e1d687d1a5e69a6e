-- ===== src/Tests/Parameters.antt =====
-- Command lines.
use file_read_speed_test.Base.{ℕ, ◌≡◌, ◌≢◌, refl, String, Option, none, some, List, [], ◌∷◌, arith}
use file_read_speed_test.Words.{x64}
use file_read_speed_test.CommandLine.{
  Action, success_action, error_action, set_number, command_line_nodes, attempt_all, conclude,
  process_command_line_parameters, not_a_number,
}
use file_read_speed_test.CommandLine.Grammar.{
  buffer_size_flag, input_flag, flag_of, command_line_action,
}
use file_read_speed_test.CommandLine.Refinement.{process-command_line_action}
use file_read_speed_test.CommandLine.StaleErrno.{process-stale_errno}
use file_read_speed_test.Tests.Libraries.{
  list_machines, list_machines-IsFirstMatch, attempt, digits_library, digits_library-IsStrtoull,
}

process : List String → ℕ → Option Action
unfolding process_command_line_parameters command_line_nodes attempt_all conclude set_number attempt
process = process_command_line_parameters digits_library x64 list_machines

abbrev argv : List String
argv = "test.exe" ∷ "--buffer_size" ∷ "4096" ∷ "-i" ∷ "a.txt" ∷ "--queue_depth" ∷ []

abbrev action : Action
action = success_action (record {
  file_path = "a.txt";
  buffer_size = some 4096;
  thread_count = none;
  queue_depth = none;
})

process_run : process argv 0 ≡ some action
unfolding process
process_run = refl

-- What is no flag is refused, and what follows it is not looked at.
process_unexpected :
    process ("test.exe" ∷ "-x" ∷ "-i" ∷ "a.txt" ∷ []) 0
    ≡ some (error_action "Unexpected parameter: -x")
unfolding process
process_unexpected = refl

process-command_line_action_example :
    process_command_line_parameters digits_library x64 list_machines argv 0
    ≡ some (command_line_action digits_library x64 digits_library-IsStrtoull argv)
process-command_line_action_example =
    process-command_line_action digits_library x64 list_machines digits_library-IsStrtoull 0
      (omega arith) list_machines-IsFirstMatch argv

buffer_size_text : flag_of "--buffer_size" ≡ some buffer_size_flag
unfolding flag_of
buffer_size_text = refl

not_input : buffer_size_flag ≢ input_flag
not_input = λ e. cc

process-stale_errno_example :
    process_command_line_parameters digits_library x64 list_machines argv 34
    ≡ some (error_action (not_a_number "4096"))
process-stale_errno_example =
    process-stale_errno digits_library x64 list_machines digits_library-IsStrtoull
      list_machines-IsFirstMatch "test.exe" "--buffer_size" "4096"
      ("-i" ∷ "a.txt" ∷ "--queue_depth" ∷ []) buffer_size_flag buffer_size_text not_input
