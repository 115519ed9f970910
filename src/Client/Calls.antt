-- ===== src/Client/Calls.antt =====
-- `PilotRemoteRunnable.ainvoke` of runnables.py around its attempts, with the validation of the
-- caller's side and the callbacks of the run, and `PilotFanoutRunnable` over the calls of its
-- targets.
pub mod Callbacks
pub mod Fanout
use pilot_langgraph.Prelude.{
  ℕ, Bool, true, false, Option, none, some, ◌⊎◌, inl, inr, List, [], ◌∷◌, map, concat, String,
  if◌then◌else◌, Dict,
}
use pilot_langgraph.Json.{Json}
use pilot_langgraph.Server.Types.{PyExc, Model, returned, raised, Outcome as Checked}
use pilot_langgraph.Client.Runnable.{Outcome, answered, remote, broken}

-- What the caller gets: a value, a `ValueError` for its input or for the reply, or the failure of
-- the call.
pub data Answer : Type 0 where
  result : Json → Answer
  invalid_input : PyExc → Answer
  invalid_output : PyExc → Answer
  failure : Outcome → Answer

pub data Callback : Type 0 where
  on_chain_start : Json → Callback
  on_chain_error : Callback
  on_chain_end : Json → Callback

-- An invocation: its answer, the payload that went out, if one did, and the callbacks in their order.
pub record Invocation : Type 0 where
  pub answer : Answer
  pub sent : Option Json
  pub callbacks : List Callback

-- `model.model_validate(x).model_dump()`, where there is a model.
abbrev pub checked : Option Model → Json → Checked Json
checked none x = returned x
checked (some m) x = elim (m.validate x) [
  | raised e ↦ raised e
  | returned made ↦ returned (m.dump made)
]

-- Behind the call: the failure of the call, a reply that the output model refuses, or a result.
unfoldable pub receive : Option Model → Json → Json → Outcome → Invocation
receive output_model input wire_input (answered r) = elim (checked output_model r) [
  | raised e ↦ record {
    answer = invalid_output e;
    sent = some wire_input;
    callbacks = on_chain_start input ∷ on_chain_error ∷ [];
  }
  | returned v ↦ record {
    answer = result v;
    sent = some wire_input;
    callbacks = on_chain_start input ∷ on_chain_end v ∷ [];
  }
]
receive output_model input wire_input other = record {
  answer = failure other;
  sent = some wire_input;
  callbacks = on_chain_start input ∷ on_chain_error ∷ [];
}

unfoldable pub ainvoke : Option Model → Option Model → (Json → Outcome) → Json → Invocation
unfolding receive
ainvoke input_model output_model call input = elim (checked input_model input) [
  | raised e ↦ record {
    answer = invalid_input e;
    sent = none;
    callbacks = on_chain_start input ∷ on_chain_error ∷ [];
  }
  | returned wire_input ↦ receive output_model input wire_input (call wire_input)
]

-- A target's result, or its exception.
pub data Entry : Type 0 where
  value : Json → Entry
  exception : Answer → Entry

-- The first exception in the order in which the targets end.
abbrev pub first_failure : (String → Entry) → List String → Option Answer
first_failure ends [] = none
first_failure ends (l ∷ order) = elim (ends l) [
  | value v ↦ first_failure ends order
  | exception e ↦ some e
]

abbrev pub labelled : (String → Entry) → List String → Dict String Entry
labelled ends labels = map (λ l. (l, ends l)) labels

-- `PilotFanoutRunnable.ainvoke`: `gather`, and the `dict` of the results.
unfoldable pub fan_ainvoke :
    Bool → (String → Entry) → List String → List String → Answer ⊎ Dict String Entry
fan_ainvoke return_exceptions ends order labels =
    if return_exceptions
    then inr (labelled ends labels)
    else elim (first_failure ends order) [ some e ↦ inl e | none ↦ inr (labelled ends labels) ]

abbrev pub yielding :
    String × Entry → Dict String Entry × Option Answer → Dict String Entry × Option Answer
yielding y rest = (y ∷ rest.0, rest.1)

-- The results of tasks in the order in which the stream takes them, up to an exception.
unfoldable pub take_results :
    Bool → (String → Entry) → List String → Dict String Entry × Option Answer
take_results return_exceptions ends [] = ([], none)
take_results return_exceptions ends (l ∷ order) =
    let rest = take_results return_exceptions ends order in
    elim (ends l) [
      | value v ↦ yielding (l, value v) rest
      | exception e ↦ if return_exceptions then yielding (l, exception e) rest else ([], some e)
    ]

-- `PilotFanoutRunnable.astream`: each turn takes the set of the tasks that have ended since the turn
-- before, in any order of this set, which need not be the order in which they ended.
unfoldable pub fan_astream :
    Bool → (String → Entry) → List (List String) → Dict String Entry × Option Answer
unfolding take_results
fan_astream return_exceptions ends turns = take_results return_exceptions ends (concat turns)
