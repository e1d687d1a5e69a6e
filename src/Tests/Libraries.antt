-- ===== src/Tests/Libraries.antt =====
-- Values of the interfaces to `max` and to the C library: what they assume can be met.
use Prim.Native.Char.{code}
use Prim.Native.String.{String}
use text.Mathlib.Text.{◌==◌ as str_eq}
use file_read_speed_test.Base.{
  ℕ, ◌+◌, ◌-◌, ◌*◌, ◌^◌, ◌≡◌, refl, leb, if◌then◌else◌, Bool, true, false, Option, none, some, List,
  [], ◌∷◌, ◌++◌, ◌≢◌, ◌⊎◌, inl, inr,
}
use file_read_speed_test.TaskQueue.{
  AddTaskError, okay, shutting_down, TaskQueues, IsFifo, IsPrompt, IsResponsive,
}
use file_read_speed_test.ReadTask.{Task}
use file_read_speed_test.StateMachine.{Node, StateMachines, IsFirstMatch, first_of_node, or_stay}
use file_read_speed_test.CommandLine.{NodeIndices, same_node, Locals, CLibrary}
use file_read_speed_test.CommandLine.Grammar.{IsStrtoull}

pub record ListQueue : Type 0 where
  pub items : List Task
  pub closed : Bool

abbrev pub push_items : List Task → Bool → Task → AddTaskError × ListQueue
push_items ts true t = (shutting_down, record { items = ts; closed = true })
push_items ts false t = (okay, record { items = ts ++ (t ∷ []); closed = false })

abbrev pub pop_items : List Task → Bool → Option Task × ListQueue
pop_items [] closed = (none, record { items = []; closed = closed })
pop_items (t ∷ ts) closed = (some t, record { items = ts; closed = closed })

abbrev pub list_queues : TaskQueues Task
list_queues = record {
  Queue = ListQueue;
  add_task = λ t q. push_items q.items q.closed t;
  try_pop_task = λ q. pop_items q.items q.closed;
  shutdown = λ q. record q { closed = true };
  is_shutting_down = λ q. q.closed;
}

pub push_items_open :
    (ts : List Task) (closed : Bool) (t : Task)
    → closed ≡ false
    → ((push_items ts closed t).1.items ≡ ts ++ (t ∷ []))
      × ((push_items ts closed t).1.closed ≡ false)
push_items_open ts true t e = cc
push_items_open ts false t e = (refl, refl)

pub push_items_closed :
    (ts : List Task) (closed : Bool) (t : Task)
    → closed ≡ true
    → push_items ts closed t ≡ (shutting_down, record { items = ts; closed = closed })
push_items_closed ts true t e = refl
push_items_closed ts false t e = cc

pub pop_items-lem :
    (ts : List Task) (closed : Bool)
    → ((pop_items ts closed).1.closed ≡ closed)
      × ((((pop_items ts closed).0 ≡ none) × ((pop_items ts closed).1.items ≡ ts))
          ⊎ ((t : Task) × ((pop_items ts closed).0 ≡ some t)
              × (ts ≡ t ∷ (pop_items ts closed).1.items)))
pop_items-lem [] closed = (refl, inl (refl, refl))
pop_items-lem (t ∷ ts) closed = (refl, inr (t, refl, refl))

abbrev pub list_queues-IsFifo : IsFifo list_queues
list_queues-IsFifo = record {
  tasks = λ q. q.items;
  add_task_open = λ t q. push_items_open q.items q.closed t;
  add_task_closed = λ t q. push_items_closed q.items q.closed t;
  try_pop_task_lem = λ q. pop_items-lem q.items q.closed;
  shutdown_lem = λ q. (refl, refl);
}

pop_items-some :
    (ts : List Task) (closed : Bool) → ts ≢ [] → (t : Task) × ((pop_items ts closed).0 ≡ some t)
pop_items-some [] closed ne = absurd (ne refl)
pop_items-some (t ∷ ts) closed ne = (t, refl)

pub list_queues-IsPrompt : IsPrompt list_queues list_queues-IsFifo
list_queues-IsPrompt = record { pops = λ q. pop_items-some q.items q.closed }

push_items_okay :
    (ts : List Task) (closed : Bool) (t : Task) → closed ≡ false → (push_items ts closed t).0 ≡ okay
push_items_okay ts true t e = cc
push_items_okay ts false t e = refl

pub list_queues-IsResponsive : IsResponsive list_queues
list_queues-IsResponsive = record { add_task_okay = λ t q. push_items_okay q.items q.closed t }

-- A machine is its node and its nodes; a matcher is a text, or none for anything.
pub record ListMachine : Type 0 where
  pub current : NodeIndices
  pub nodes : List (Node NodeIndices (Option String) Locals)

abbrev pub list_matches : Option String → String → Bool
list_matches none s = true
list_matches (some t) s = str_eq t s

unfoldable pub attempt : ListMachine → String → Locals → ListMachine × Locals
unfolding first_of_node
attempt a input l =
    let r =
      or_stay (first_of_node list_matches same_node a.nodes a.current input l) (a.current, l) in
    (record a { current = r.0 }, r.1)

abbrev pub list_machines : StateMachines NodeIndices Locals
list_machines = record {
  Matcher = Option String;
  anything_matcher = none;
  string_matcher = λ t. some t;
  Machine = ListMachine;
  make = λ n ns. record { current = n; nodes = ns };
  attempt_transition = attempt;
  current_node_index = λ a. a.current;
}

nodes-attempt :
    (a : ListMachine) (input : String) (l : Locals) → (attempt a input l).0.nodes ≡ a.nodes
unfolding attempt
nodes-attempt a input l = refl

attempt_lem :
    (a : ListMachine) (input : String) (l : Locals)
    → ◌≡◌ {A = NodeIndices × Locals}
        ((attempt a input l).0.current, (attempt a input l).1)
        (or_stay (first_of_node list_matches same_node a.nodes a.current input l) (a.current, l))
unfolding attempt
attempt_lem a input l = refl

pub list_machines-IsFirstMatch : IsFirstMatch same_node list_machines
list_machines-IsFirstMatch = record {
  does_match = list_matches;
  does_match-anything_matcher = λ s. refl;
  does_match-string_matcher = λ t s. refl;
  nodes = λ a. a.nodes;
  nodes-make = λ n ns. refl;
  current-make = λ n ns. refl;
  nodes-attempt_transition = nodes-attempt;
  attempt_transition_lem = attempt_lem;
}

-- Texts of decimal digits.
abbrev pub digits_value : ℕ → String → ℕ
digits_value acc String.[] = acc
digits_value acc (String.◌∷◌ ch s) = digits_value (10 * acc + (code ch - b'0')) s

abbrev digits_overflow : String → Bool
digits_overflow s = leb (2 ^ 64) (digits_value 0 s)

abbrev pub digits_library : CLibrary
digits_library = record {
  erange = 34;
  strtoull = λ s errno. (digits_value 0 s, if digits_overflow s then 34 else errno);
}

unfoldable pub digits_library-IsStrtoull : IsStrtoull digits_library
digits_library-IsStrtoull = record {
  value = digits_value 0;
  overflows = digits_overflow;
  strtoull_lem = λ s errno. refl;
}
