-- ===== src/CommandLine/Steps.antt =====
-- The state machine of the command line as a function: what each node does with a parameter.
use text.Mathlib.Text.{◌==◌ as str_eq}
use file_read_speed_test.Base.{ℕ, ◌≡◌, refl, ap, ◌∙◌, String, List, [], ◌∷◌, if◌then◌else◌, arith}
use file_read_speed_test.Words.{Platform}
use file_read_speed_test.StateMachine.{
  StateMachines, first_match, first_of_node, or_stay, IsFirstMatch,
}
use file_read_speed_test.CommandLine.{
  NodeIndices, start_node, awaiting_flags_node, awaiting_input_file_node, error_node,
  awaiting_buffer_size_node, awaiting_thread_count_node, awaiting_queue_depth_node, same_node,
  Locals, CLibrary, refuse_parameter, set_input_file, set_number, assign_buffer_size,
  assign_thread_count, assign_queue_depth, command_line_nodes, attempt_all, conclude,
  process_command_line_parameters, no_locals,
}

module _ (c : CLibrary) (platform : Platform) (m : StateMachines NodeIndices Locals) where
  unfoldable pub step : NodeIndices → String → Locals → NodeIndices × Locals
  step start_node input l = (awaiting_flags_node, l)
  step awaiting_flags_node input l =
      if str_eq "-i" input
      then (awaiting_input_file_node, l)
      else if str_eq "--buffer_size" input
      then (awaiting_buffer_size_node, l)
      else if str_eq "--thread_count" input
      then (awaiting_thread_count_node, l)
      else if str_eq "--queue_depth" input
      then (awaiting_queue_depth_node, l)
      else refuse_parameter c platform m input l
  step awaiting_input_file_node input l = set_input_file c platform m input l
  step error_node input l = (error_node, l)
  step awaiting_buffer_size_node input l =
      set_number c platform m (assign_buffer_size c platform m) input l
  step awaiting_thread_count_node input l =
      set_number c platform m (assign_thread_count c platform m) input l
  step awaiting_queue_depth_node input l =
      set_number c platform m (assign_queue_depth c platform m) input l

  unfoldable pub steps : NodeIndices → List String → Locals → NodeIndices × Locals
  steps node [] l = (node, l)
  steps node (input ∷ argv) l = let (node', l') = step node input l in steps node' argv l'

  module _ (law : IsFirstMatch same_node m) where
    first_of_node-step :
        (node : NodeIndices) (input : String) (l : Locals)
        → or_stay
            (first_of_node law.does_match same_node (command_line_nodes c platform m) node input l)
            (node, l)
          ≡ step node input l
    unfolding first_of_node first_match command_line_nodes step
    first_of_node-step start_node input l = rw law.does_match-anything_matcher
    first_of_node-step awaiting_flags_node input l =
        simp (law.does_match-anything_matcher, law.does_match-string_matcher) (ground arith)
    first_of_node-step awaiting_input_file_node input l = rw law.does_match-anything_matcher
    first_of_node-step error_node input l = rw law.does_match-anything_matcher
    first_of_node-step awaiting_buffer_size_node input l = rw law.does_match-anything_matcher
    first_of_node-step awaiting_thread_count_node input l = rw law.does_match-anything_matcher
    first_of_node-step awaiting_queue_depth_node input l = rw law.does_match-anything_matcher

    -- The loop over the parameters takes the same steps as the function.
    attempt_all-steps :
        (argv : List String) (machine : m.Machine) (node : NodeIndices) (l : Locals)
        → law.nodes machine ≡ command_line_nodes c platform m
        → m.current_node_index machine ≡ node
        → ◌≡◌ {A = NodeIndices × Locals}
            (
              m.current_node_index (attempt_all c platform m machine argv l).0,
              (attempt_all c platform m machine argv l).1,
            )
            (steps node argv l)
    unfolding attempt_all steps
    attempt_all-steps [] machine node l knows at_node = rw at_node
    attempt_all-steps (input ∷ argv) machine node l knows at_node =
        attempt_all-steps argv _ _ _ (law.nodes-attempt_transition machine input l ∙ knows) refl
        ∙ ap (λ (r : NodeIndices × Locals). steps r.0 argv r.1) taken
      where
        taken :
            ◌≡◌ {A = NodeIndices × Locals}
              (
                m.current_node_index (m.attempt_transition machine input l).0,
                (m.attempt_transition machine input l).1,
              )
              (step node input l)
        taken =
            law.attempt_transition_lem machine input l
            ∙ rw (knows, at_node) (first_of_node-step node input l)

    -- So does the whole function.
    pub process-steps :
        (argv : List String) (errno : ℕ)
        → process_command_line_parameters c platform m argv errno
          ≡ let (node, l) = steps start_node argv (no_locals errno) in conclude c platform m node l
    unfolding process_command_line_parameters
    process-steps argv errno =
        ap (λ (r : NodeIndices × Locals). conclude c platform m r.0 r.1)
          (attempt_all-steps argv _ start_node _ (law.nodes-make _ _) (law.current-make _ _))
