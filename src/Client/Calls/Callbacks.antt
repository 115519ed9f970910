-- ===== src/Client/Calls/Callbacks.antt =====
-- Every invocation tells its callbacks how it ended.
use pilot_langgraph.Prelude.{◌≡◌, refl, ◌⊎◌, inl, inr, Option, none, some, [], ◌∷◌}
use pilot_langgraph.Json.{Json}
use pilot_langgraph.Server.Types.{PyExc, Model, returned, raised, Outcome as Checked}
use pilot_langgraph.Client.Runnable.{Outcome, answered, remote, broken}
use pilot_langgraph.Client.Calls.{
  Invocation, Answer, result, Callback, on_chain_start, on_chain_error, on_chain_end, checked,
  receive, ainvoke,
}

-- The callback for an answer.
abbrev pub told : Answer → Callback
told (result r) = on_chain_end r
told _ = on_chain_error

-- What a model makes of a value that it accepts, dumped; without a model the value itself.
abbrev pub accepted : Option Model → Json → Option Json
accepted none x = some x
accepted (some m) x = elim (m.validate x) [ raised e ↦ none | returned made ↦ some (m.dump made) ]

abbrev pub returns : Answer → Option Json
returns (result r) = some r
returns _ = none

abbrev pub reply_of : Outcome → Option Json
reply_of (answered r) = some r
reply_of _ = none

abbrev pub then_ : {A B : Type 0} → Option A → (A → Option B) → Option B
then_ none f = none
then_ (some a) f = f a

checked_cases :
    (om : Option Model) (x : Json)
    → ((e : PyExc) × (checked om x ≡ raised e) × (accepted om x ≡ none))
      ⊎ ((v : Json) × (checked om x ≡ returned v) × (accepted om x ≡ some v))
checked_cases none x = inr (x, refl, refl)
checked_cases (some m) x = go (m.validate x) refl
  where
    go :
        (v : Checked Json)
        → m.validate x ≡ v
        → ((e : PyExc) × (checked (some m) x ≡ raised e) × (accepted (some m) x ≡ none))
          ⊎ ((v : Json) × (checked (some m) x ≡ returned v) × (accepted (some m) x ≡ some v))
    go (raised e) h = inl (e, rw h refl, rw h refl)
    go (returned made) h = inr (m.dump made, rw h refl, rw h refl)

-- What an invocation tells its callbacks and its caller.
Tells : Json → Option Json → Option Json → Invocation → Type 0
Tells input wire res run =
    (run.callbacks ≡ on_chain_start input ∷ told run.answer ∷ [])
    × (run.sent ≡ wire)
    × (returns run.answer ≡ res)

receive-Tells :
    (om : Option Model) (input wire : Json) (o : Outcome)
    → Tells input (some wire) (then_ (reply_of o) (accepted om)) (receive om input wire o)
unfolding receive Tells
receive-Tells om input wire (answered r) = elim (checked_cases om r) [
  | inl (e, c, a) ↦ rw (receive, c, a) (refl, refl, refl)
  | inr (v, c, a) ↦ rw (receive, c, a) (refl, refl, refl)
]
receive-Tells om input wire (remote e) = (refl, refl, refl)
receive-Tells om input wire (broken e) = (refl, refl, refl)

-- Whatever the models accept and whatever the call gives: the callbacks get the start with the
-- caller's input and then exactly one end, which is the result if the caller gets one and an error
-- otherwise. A payload goes out exactly where there is no input model or it accepts the input, and
-- it is what this model dumps. The caller gets a result exactly where in addition the call gives a
-- value that the output model, if there is one, accepts, and the result is what that model dumps.
pub ainvoke_lem :
    (im om : Option Model) (call : Json → Outcome) (input : Json)
    → let run = ainvoke im om call input in
      (run.callbacks ≡ on_chain_start input ∷ told run.answer ∷ [])
      × (run.sent ≡ accepted im input)
      × (returns run.answer
          ≡ then_ (accepted im input) (λ wire. then_ (reply_of (call wire)) (accepted om)))
unfolding ainvoke Tells
ainvoke_lem im om call input = elim (checked_cases im input) [
  | inl (e, c, a) ↦ rw (ainvoke, c, a) (refl, refl, refl)
  | inr (wire, c, a) ↦ rw (ainvoke, c, a) (receive-Tells om input wire (call wire))
]
