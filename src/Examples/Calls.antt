-- ===== src/Examples/Calls.antt =====
-- Calls of remote handlers, as runnables.py makes them, at concrete inputs.
use pilot_langgraph.Prelude.{
  ℕ, zero, suc, ◌<◌, ◌≡◌, refl, true, false, not, ◌&&◌, ◌==◌, none, some, List, [], ◌∷◌, map,
  String, str_eq, if◌then◌else◌, arith, value_of, string_HasEq,
}
use pilot_langgraph.Prelude.Result.{connection_error_wrapper}
use pilot_langgraph.Json.{Json, null, num, str}
use pilot_langgraph.Server.Types.{
  Message, Model, Yields, Handler, Options, plain, returned, exc, frame_json,
}
use pilot_langgraph.Server.Invoke.{drive_stream}
use pilot_langgraph.Server.Registry.{Worker, new_server, lookup}
use pilot_langgraph.Server.Registry.Known.{new_server-IsKnown}
use pilot_langgraph.Server.Introspect.{handlers_report}
use pilot_langgraph.Client.Runnable.{End, ended, failing, answered}
use pilot_langgraph.Client.Streaming.{attempt_stream, astream, finished, is_transient}
use pilot_langgraph.Client.Streaming.Attempts.{
  Settles, IsSilent, non_null, astream-Settles, astream-drive_stream,
}
use pilot_langgraph.Client.Discover.{remote_at, discover}
use pilot_langgraph.Client.Discover.Handlers.{is_some, is_hidden, discover-handlers_report}
use pilot_langgraph.Client.Pool.{Pool, acquire, drop_current}
use pilot_langgraph.Client.Pool.Retry.{IsSame, acquire-drop_current}
use pilot_langgraph.Client.Calls.{
  Entry, value, exception, invalid_input, ainvoke, on_chain_start, fan_ainvoke, fan_astream,
}
use pilot_langgraph.Client.Calls.Callbacks.{told, accepted, returns, reply_of, then_, ainvoke_lem}
use pilot_langgraph.Client.Calls.Fanout.{Agrees, is_label, fan_astream-Agrees}

abbrev shown : Message → String
shown m = "text"

abbrev counting : Yields
counting = record { values = num 1 ∷ null ∷ num 2 ∷ []; failed = none }

-- The first attempt loses its connection.
abbrev replies : ℕ → List Json × End
replies zero = ([], failing connection_error_wrapper)
replies (suc i) = (map (frame_json shown) (drive_stream counting).frames, ended)

astream-Settles_example :
    Settles (λ i. attempt_stream (replies i).0 (replies i).1) 0 2 (astream replies)
astream-Settles_example = astream-Settles replies

first-IsSilent : (j : ℕ) → j < 1 → IsSilent (attempt_stream (replies j).0 (replies j).1)
unfolding attempt_stream is_transient
first-IsSilent zero h = (refl, refl)
first-IsSilent (suc j) h = absurd (omega arith)

astream-drive_stream_example : astream replies ≡ (non_null counting.values, finished)
astream-drive_stream_example =
    astream-drive_stream shown replies counting 1 (omega arith) first-IsSilent refl refl

abbrev echo : Handler
echo = record { signature = none; body = plain (λ p _. returned p) }

abbrev options : Options
options = record {
  allow = none;
  timeout_secs = none;
  rate_per_caller = none;
  rate_window_secs = 60;
  max_concurrent = none;
  input_model = none;
  output_model = none;
}

abbrev server : Worker
server = new_server echo echo options []

abbrev no_schema : Model → Json
no_schema m = null

discover-handlers_report_example :
    value_of "_health"
      (discover true (remote_at "host" 7000 30 none) (handlers_report no_schema server))
    ≡ (if is_some (lookup "_health" server.handlers) && not (is_hidden true "_health")
        then some (remote_at "host" 7000 30 none "_health")
        else none)
discover-handlers_report_example =
    discover-handlers_report true (remote_at "host" 7000 30 none) no_schema server "_health"
      (new_server-IsKnown echo echo options [])

-- The connection 0 of the loop 1 is dead.
abbrev pool : Pool
pool = record { by_loop = (1, 0) ∷ (2, 1) ∷ []; next_conn = 2; closed = []; forced = [] }

acquire-drop_current_example :
    IsSame
      (acquire (λ c. c == 1) true 1 (drop_current (λ c. c == 1) 1 pool))
      (acquire (λ c. c == 1) true 1 pool)
acquire-drop_current_example = acquire-drop_current (λ c. c == 1) 1 pool

-- One target gives a value, the other fails.
abbrev ends : String → Entry
ends label = if str_eq label "a" then value (num 1) else exception (invalid_input (exc "E" "e"))

swapped : (l : String) → is_label l ("b" ∷ "a" ∷ []) ≡ is_label l ("a" ∷ "b" ∷ [])
swapped l = ground arith

-- Both end in one turn.
fan_astream-Agrees_example :
    Agrees ends
      ("a" ∷ "b" ∷ [])
      (fan_astream false ends (("a" ∷ "b" ∷ []) ∷ []))
      (fan_ainvoke false ends ("b" ∷ "a" ∷ []) ("a" ∷ "b" ∷ []))
fan_astream-Agrees_example =
    fan_astream-Agrees false ends ("b" ∷ "a" ∷ []) (("a" ∷ "b" ∷ []) ∷ []) ("a" ∷ "b" ∷ []) swapped
      (λ l. refl)

-- A model that takes anything and dumps it as a text.
abbrev texting : Model
texting = record { validate = λ x. returned x; dump = λ x. str "1" }

ainvoke_lem_example :
    let run = ainvoke (some texting) none (λ p. answered (num 2)) (num 1) in
    (run.callbacks ≡ on_chain_start (num 1) ∷ told run.answer ∷ [])
    × (run.sent ≡ accepted (some texting) (num 1))
    × (returns run.answer
        ≡ then_
            (accepted (some texting) (num 1))
            (λ wire. then_ (reply_of (answered (num 2))) (accepted none)))
ainvoke_lem_example = ainvoke_lem (some texting) none (λ p. answered (num 2)) (num 1)
