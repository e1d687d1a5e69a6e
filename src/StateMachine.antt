-- ===== src/StateMachine.antt =====
-- The state machines of the library `max` (Dependencies/max/Containers), which the program only
-- calls: an interface over an unknown `Machine`, and what the program relies on. `N` is the type of
-- the node indices and `S` holds the variables that the callbacks capture.
use text.Mathlib.Text.{◌==◌ as str_eq}
use file_read_speed_test.Base.{
  Bool, true, String, Option, none, some, List, [], ◌∷◌, ◌≡◌, if◌then◌else◌,
}

pub record Transition (N Matcher S : Type 0) : Type 0 where
  pub matcher : Matcher
  pub callback : String → S → N × S

pub record Node (N Matcher S : Type 0) : Type 0 where
  pub this_node : N
  pub outbound_transitions : List (Transition N Matcher S)

pub record StateMachines (N S : Type 0) : Type 1 where
  pub Matcher : Type 0
  pub anything_matcher : Matcher
  pub string_matcher : String → Matcher
  pub Machine : Type 0
  pub make : N → List (Node N Matcher S) → Machine
  pub attempt_transition : Machine → String → S → Machine × S
  pub current_node_index : Machine → N

module _ {N Matcher S : Type 0} (does_match : Matcher → String → Bool) where
  -- The callback of the first transition that matches.
  unfoldable pub first_match : List (Transition N Matcher S) → String → S → Option (N × S)
  first_match [] input s = none
  first_match (t ∷ ts) input s =
      if does_match t.matcher input then some (t.callback input s) else first_match ts input s

  -- The same over the transitions of the nodes that have the index `current`.
  unfoldable pub first_of_node :
      (N → N → Bool) → List (Node N Matcher S) → N → String → S → Option (N × S)
  unfolding first_match
  first_of_node same [] current input s = none
  first_of_node same (n ∷ ns) current input s =
      let later = first_of_node same ns current input s in
      if same current n.this_node
      then elim (first_match n.outbound_transitions input s) [
        | none ↦ later
        | some result ↦ some result
      ]
      else later

abbrev pub or_stay : {A : Type 0} → Option A → A → A
or_stay none a = a
or_stay (some b) a = b

-- A machine takes the first transition of its current node that matches the input: it calls the
-- callback and goes to the node that this names. With no such transition nothing changes.
pub record IsFirstMatch {N S : Type 0} (same : N → N → Bool) (m : StateMachines N S) : Type 0 where
  pub does_match : m.Matcher → String → Bool
  pub does_match-anything_matcher : (s : String) → does_match m.anything_matcher s ≡ true
  pub does_match-string_matcher : (t s : String) → does_match (m.string_matcher t) s ≡ str_eq t s
  pub nodes : m.Machine → List (Node N m.Matcher S)
  pub nodes-make : (n : N) (ns : List (Node N m.Matcher S)) → nodes (m.make n ns) ≡ ns
  pub current-make :
      (n : N) (ns : List (Node N m.Matcher S)) → m.current_node_index (m.make n ns) ≡ n
  pub nodes-attempt_transition :
      (a : m.Machine) (input : String) (s : S) → nodes (m.attempt_transition a input s).0 ≡ nodes a
  pub attempt_transition_lem :
      (a : m.Machine) (input : String) (s : S)
      → ◌≡◌ {A = N × S}
          (
            m.current_node_index (m.attempt_transition a input s).0,
            (m.attempt_transition a input s).1,
          )
          (or_stay
            (first_of_node does_match same (nodes a) (m.current_node_index a) input s)
            (m.current_node_index a, s))
