-- ===== src/Server/Invoke.antt =====
-- Running a handler: validation, the middleware chain, and the frames of a call, as `_handle_one` of
-- server.py nests them.
pub mod Onion
pub mod Frames
use pilot_langgraph.Prelude.{
  ℕ, zero, suc, ◌+◌, Bool, true, false, Option, none, some, List, [], ◌∷◌, ◌++◌, map, length,
  get_elem?, String, str_eq, starts_with, if◌then◌else◌,
}
use pilot_langgraph.Json.{Json, null}
use pilot_langgraph.Server.Types.{
  Context, PyExc, exc, input_invalid, output_invalid, Outcome, returned, raised, Yields, Body,
  plain, generator, Model, Registration, Frame, chunk, last,
}

-- What a call of a handler gives back: a value, an async generator, or an exception; and from a
-- middleware that is no coroutine function also a coroutine that nobody awaits.
pub data Run : Type 0 where
  value : Json → Run
  stream : Yields → Run
  failed : PyExc → Run
  unawaited : Run

-- The argument tuple: the context, for handlers that take it.
abbrev pub ctx_arg : Registration → Context → Option Context
ctx_arg reg c = if reg.wants_ctx then some c else none

unfoldable pub validate_output : Option Model → Json → Run
validate_output none result = value result
validate_output (some m) result = elim (m.validate result) [
  | raised e ↦ failed (output_invalid e)
  | returned made ↦ value (m.dump made)
]

unfoldable pub call_body : Registration → Json → Context → Run
call_body reg p c = elim reg.fn.body [
  | generator g ↦ stream (g p (ctx_arg reg c))
  | plain f ↦ elim (f p (ctx_arg reg c)) [
    | raised e ↦ failed e
    | returned result ↦ validate_output reg.output_model result
  ]
]

-- `_invoke_handler`
unfoldable pub invoke_handler : Registration → Json → Context → Run
unfolding call_body validate_output
invoke_handler reg p c = elim reg.input_model [
  | none ↦ call_body reg p c
  | some m ↦ elim (m.validate p) [
    | raised e ↦ failed (input_invalid e)
    | returned handler_p ↦ call_body reg handler_p c
  ]
]

-- A computation over the shared counter `idx` of the chain.
abbrev pub Chain : Type 0 → Type 0
Chain A = ℕ → A × ℕ

abbrev pub Next : Type 0
Next = Json → Context → Chain Run

-- A coroutine function may await `next_fn` any number of times, each call moves the counter. Any
-- other function cannot await it: what `next_fn` gives it is a coroutine that has not begun, which
-- it can return, `unawaited`.
pub data Middleware : Type 0 where
  coroutine : (Json → Context → Next → Chain Run) → Middleware
  function : (Json → Context → Run) → Middleware

-- `_next`; the fuel bounds the depth of the calls, each of which moves the counter.
unfoldable pub next : List Middleware → (Json → Context → Run) → ℕ → Next
next mws handler zero p c idx = (handler p c, idx)
next mws handler (suc fuel) p c idx = elim (get_elem? mws idx) [
  | none ↦ (handler p c, idx)
  | some (coroutine mw) ↦ mw p c (next mws handler fuel) (suc idx)
  | some (function mw) ↦ (mw p c, suc idx)
]

-- `_through_middleware`
unfoldable pub through_middleware : List Middleware → (Json → Context → Run) → Json → Context → Run
unfolding next
through_middleware mws handler p c = (next mws handler (suc (length mws)) p c 0).0

-- Introspection handlers run without middleware.
unfoldable pub chain_of : String → List Middleware → List Middleware
chain_of node mws = if starts_with node "_" then [] else mws

-- The frames that `_drive` sends, and the exception that it lets through.
pub record Drive : Type 0 where
  pub frames : List Frame
  pub raises : Option PyExc

-- `async for` over a generator: a frame for each value, and the closing frame if it ends.
unfoldable pub drive_stream : Yields → Drive
drive_stream y = elim y.failed [
  | none ↦ record { frames = map chunk y.values ++ last null ∷ []; raises = none }
  | some e ↦ record { frames = map chunk y.values; raises = some e }
]

-- A coroutine has no JSON, so `_send_chunk` raises.
unfoldable pub drive_run : Run → Drive
drive_run (value v) = record { frames = last v ∷ []; raises = none }
drive_run (stream y) = drive_stream y
drive_run (failed e) = record { frames = []; raises = some e }
drive_run unawaited = record {
  frames = [];
  raises = some (exc "TypeError" "Object of type coroutine is not JSON serializable");
}

-- The slow path: through the middleware, if there is any.
unfoldable pub drive_chain : Registration → List Middleware → Json → Context → Drive
drive_chain reg mws p c = drive_run (through_middleware mws (invoke_handler reg) p c)

-- The fast path: a generator with no middleware is called with the payload itself.
unfoldable pub drive_body : Registration → Json → Context → Body → Drive
drive_body reg p c (generator g) = drive_stream (g p (ctx_arg reg c))
drive_body reg p c (plain f) = drive_chain reg [] p c

-- `_drive`
unfoldable pub drive : Registration → List Middleware → Json → Context → Drive
unfolding drive_body
drive reg [] p c = drive_body reg p c reg.fn.body
drive reg (mw ∷ mws) p c = drive_chain reg (mw ∷ mws) p c
