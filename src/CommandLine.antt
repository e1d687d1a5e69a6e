-- ===== src/CommandLine.antt =====
-- Code/CommandLineParameters.hpp and Code/CommandLineParameters.cpp
pub mod Steps
pub mod Grammar
pub mod Refinement
pub mod StaleErrno
pub mod RoundTrip
use file_read_speed_test.Base.{
  ℕ, ◌%◌, ◌==◌, if◌then◌else◌, Bool, String, ◌<>◌, Option, none, some, List, [], ◌∷◌,
}
use file_read_speed_test.Words.{Platform, size_mod}
use file_read_speed_test.StateMachine.{StateMachines, Transition, Node}

pub record SuccessAction : Type 0 where
  pub file_path : String
  pub buffer_size : Option ℕ
  pub thread_count : Option ℕ
  pub queue_depth : Option ℕ

pub data Action : Type 0 where
  success_action : SuccessAction → Action
  error_action : String → Action

pub data NodeIndices : Type 0 where
  start_node awaiting_flags_node awaiting_input_file_node error_node awaiting_buffer_size_node
        awaiting_thread_count_node awaiting_queue_depth_node :
      NodeIndices

abbrev pub node_number : NodeIndices → ℕ
node_number start_node = 0
node_number awaiting_flags_node = 1
node_number awaiting_input_file_node = 2
node_number error_node = 3
node_number awaiting_buffer_size_node = 4
node_number awaiting_thread_count_node = 5
node_number awaiting_queue_depth_node = 6

abbrev pub same_node : NodeIndices → NodeIndices → Bool
same_node a b = node_number a == node_number b

-- The variables of the function that its callbacks capture, and `errno`.
pub record Locals : Type 0 where
  pub error_message : Option String
  pub input_file : Option String
  pub buffer_size : Option ℕ
  pub thread_count : Option ℕ
  pub queue_depth : Option ℕ
  pub errno : ℕ

-- The variables as they are declared.
abbrev pub no_locals : ℕ → Locals
no_locals errno = record {
  error_message = none;
  input_file = none;
  buffer_size = none;
  thread_count = none;
  queue_depth = none;
  errno = errno;
}

-- What is called of the C library. `strtoull` takes a text in base 10 and `errno`, and gives the
-- number with the new `errno`.
pub record CLibrary : Type 0 where
  pub erange : ℕ
  pub strtoull : String → ℕ → ℕ × ℕ

abbrev pub unexpected_parameter : String → String
unexpected_parameter input = "Unexpected parameter: " <> input

abbrev pub not_a_number : String → String
not_a_number input = "Could not convert parameter to number: " <> input

abbrev pub no_file_provided : String
no_file_provided =
    "Error: No file provided.\nUse the form: FileReadSpeedTest.exe [options] -i C:\\my\\file.txt"

module _ (c : CLibrary) (platform : Platform) (m : StateMachines NodeIndices Locals) where
  abbrev pub Callback : Type 0
  Callback = String → Locals → NodeIndices × Locals

  abbrev pub go_to : NodeIndices → Callback
  go_to node input l = (node, l)

  abbrev pub refuse_parameter : Callback
  refuse_parameter input l =
      (error_node, record l { error_message = some (unexpected_parameter input) })

  abbrev pub set_input_file : Callback
  set_input_file input l = (awaiting_flags_node, record l { input_file = some input })

  -- The three number callbacks: an `unsigned long long` that goes into a `size_t`.
  unfoldable pub set_number : (Locals → ℕ → Locals) → Callback
  set_number assign input l =
      let (temp, errno) = c.strtoull input l.errno in
      if errno == c.erange
      then (error_node, record l { error_message = some (not_a_number input); errno = errno })
      else (awaiting_flags_node, assign (record l { errno = errno }) (temp % size_mod platform))

  abbrev pub anything : Callback → Transition NodeIndices m.Matcher Locals
  anything callback = record { matcher = m.anything_matcher; callback = callback }

  abbrev pub flag : String → NodeIndices → Transition NodeIndices m.Matcher Locals
  flag text node = record { matcher = m.string_matcher text; callback = go_to node }

  abbrev pub assign_buffer_size : Locals → ℕ → Locals
  assign_buffer_size l n = record l { buffer_size = some n }

  abbrev pub assign_thread_count : Locals → ℕ → Locals
  assign_thread_count l n = record l { thread_count = some n }

  abbrev pub assign_queue_depth : Locals → ℕ → Locals
  assign_queue_depth l n = record l { queue_depth = some n }

  unfoldable pub command_line_nodes : List (Node NodeIndices m.Matcher Locals)
  command_line_nodes =
      record {
        this_node = start_node;
        outbound_transitions = anything (go_to awaiting_flags_node) ∷ [];
      }
      ∷ record {
        this_node = awaiting_flags_node;
        outbound_transitions =
            flag "-i" awaiting_input_file_node
            ∷ flag "--buffer_size" awaiting_buffer_size_node
            ∷ flag "--thread_count" awaiting_thread_count_node
            ∷ flag "--queue_depth" awaiting_queue_depth_node
            ∷ anything refuse_parameter
            ∷ [];
      }
      ∷ record {
        this_node = awaiting_input_file_node;
        outbound_transitions = anything set_input_file ∷ [];
      }
      ∷ record { this_node = error_node; outbound_transitions = anything (go_to error_node) ∷ [] }
      ∷ record {
        this_node = awaiting_buffer_size_node;
        outbound_transitions = anything (set_number assign_buffer_size) ∷ [];
      }
      ∷ record {
        this_node = awaiting_thread_count_node;
        outbound_transitions = anything (set_number assign_thread_count) ∷ [];
      }
      ∷ record {
        this_node = awaiting_queue_depth_node;
        outbound_transitions = anything (set_number assign_queue_depth) ∷ [];
      }
      ∷ []

  -- The loop over the parameters.
  unfoldable pub attempt_all : m.Machine → List String → Locals → m.Machine × Locals
  attempt_all machine [] l = (machine, l)
  attempt_all machine (input ∷ argv) l =
      let (machine', l') = m.attempt_transition machine input l in attempt_all machine' argv l'

  -- The tests after the loop. `*error_message` is undefined if there is no message.
  unfoldable pub conclude : NodeIndices → Locals → Option Action
  conclude node l =
      if same_node node error_node
      then elim l.error_message [ none ↦ none | some message ↦ some (error_action message) ]
      else elim l.input_file [
        | none ↦ some (error_action no_file_provided)
        | some file_path ↦ some (
            success_action (record {
              file_path = file_path;
              buffer_size = l.buffer_size;
              thread_count = l.thread_count;
              queue_depth = l.queue_depth;
            }))
      ]

  -- `errno` is what it is when the function is called. `none` is an undefined outcome.
  unfoldable pub process_command_line_parameters : List String → ℕ → Option Action
  process_command_line_parameters argv errno =
      let (machine, l) =
        attempt_all (m.make start_node command_line_nodes) argv (no_locals errno) in
      conclude (m.current_node_index machine) l
