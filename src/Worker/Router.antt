-- ===== src/Worker/Router.antt =====
-- The wire format of wire.py, and `WorkerRouter.serve_one` of transport.py. `json.loads` and
-- `json.dumps` are parameters, as are the texts of exceptions. A client of `pilotctl` answers by a
-- value or a `PilotError`, of which the code matters here. Every request that parses is taken to be
-- a `dict`.
use pilot_langgraph.Prelude.{
  ℕ, ◌≡◌, refl, Bool, true, false, ◌||◌, Option, none, some, List, [], ◌∷◌, String, str_eq,
  if◌then◌else◌, Dict, value_of, string_HasEq,
}
use pilot_langgraph.Json.{Json, null, bool, num, str, dict, get, get?}
use pilot_langgraph.Server.Types.{PyExc, Outcome, returned, raised}

abbrev pub wire_version : ℕ
wire_version = 1

unfoldable pub encode_request : String → String → String → String → ℕ → Json → Json
encode_request kind call_id node sender_hostname reply_port payload = dict (
    ("v", num wire_version)
    ∷ ("kind", str kind)
    ∷ ("call_id", str call_id)
    ∷ ("node", str node)
    ∷ ("from", str sender_hostname)
    ∷ ("reply_port", num reply_port)
    ∷ ("payload", payload)
    ∷ [])

unfoldable pub encode_reply : Json → Bool → Json → Json → Json
encode_reply call_id done_well result error = dict (
    ("v", num wire_version)
    ∷ ("call_id", call_id)
    ∷ ("ok", bool done_well)
    ∷ ("result", result)
    ∷ ("error", error)
    ∷ [])

abbrev pub WireHandler : Type 0
WireHandler = Json → Outcome Json

-- What `client.recv` gives: the messages, by the text of each, where it has one, or the code of an
-- error.
pub data Received : Type 0 where
  messages : List (Option String) → Received
  pilot_error : String → Received

-- The end of `serve_one`, with what it hands to `client.send`: the sender, the port and the text. A
-- `PilotError` of `send` is logged and nothing more.
pub data Served : Type 0 where
  nothing : Served
  dropped : Served
  replied : Json → Json → String → Served
  error_raised : String → Served

module _ (loads : String → Option Json) (dumps : Json → String) (no_handler_text : Json → String)
    (exception_text : PyExc → String) where
  unfoldable pub run_handler : Option WireHandler → Json → Json
  unfolding encode_reply
  run_handler none req =
      encode_reply (get "call_id" req) false null (str (no_handler_text (get "node" req)))
  run_handler (some handler) req = elim (handler (get "payload" req)) [
    | returned result ↦ encode_reply (get "call_id" req) true result null
    | raised e ↦ encode_reply (get "call_id" req) false null (str (exception_text e))
  ]

  -- `self.handlers.get(node)`
  unfoldable pub handler_of : Dict String WireHandler → Json → Option WireHandler
  handler_of handlers (str node) = value_of node handlers
  handler_of handlers _ = none

  unfoldable pub serve_request : Dict String WireHandler → Json → Served
  unfolding run_handler handler_of encode_reply
  serve_request handlers req =
      replied (get "from" req) (get "reply_port" req)
        (dumps (run_handler (handler_of handlers (get "node" req)) req))

  unfoldable pub serve_one : Dict String WireHandler → Received → Served
  unfolding serve_request run_handler handler_of encode_reply
  serve_one handlers (pilot_error code) =
      if str_eq code "timeout" || str_eq code "no_messages" then nothing else error_raised code
  serve_one handlers (messages []) = nothing
  serve_one handlers (messages (none ∷ msgs)) = dropped
  serve_one handlers (messages (some text ∷ msgs)) = elim (loads text) [
    | none ↦ dropped
    | some req ↦ serve_request handlers req
  ]

  -- The reply that a caller can expect.
  abbrev pub expected : Option WireHandler → String → String → Json → Json
  expected none call_id node payload =
      encode_reply (str call_id) false null (str (no_handler_text (str node)))
  expected (some handler) call_id node payload = elim (handler payload) [
    | returned result ↦ encode_reply (str call_id) true result null
    | raised e ↦ encode_reply (str call_id) false null (str (exception_text e))
  ]

  -- A request that a caller has encoded and that `loads` reads back is answered to its sender, at
  -- the port that it names and with its call id: with what the handler of its name returns for its
  -- payload, with the text of what the handler raises, or with an error where there is no such
  -- handler.
  pub serve_one-encode_request :
      (handlers : Dict String WireHandler) (kind call_id node sender : String) (reply_port : ℕ)
      (payload : Json) (more : List (Option String))
      → let req = encode_request kind call_id node sender reply_port payload in
        loads (dumps req) ≡ some req
        → serve_one handlers (messages (some (dumps req) ∷ more))
          ≡ replied
              (str sender)
              (num reply_port)
              (dumps (expected (value_of node handlers) call_id node payload))
  unfolding encode_request serve_one get get?
  serve_one-encode_request handlers kind call_id node sender reply_port payload more h =
      go (value_of node handlers) refl
    where
      req : Json
      req = encode_request kind call_id node sender reply_port payload

      run :
          (f : WireHandler)
          → value_of node handlers ≡ some f
          → (v : Outcome Json) → f payload ≡ v
          → serve_one handlers (messages (some (dumps req) ∷ more))
            ≡ replied
                (str sender)
                (num reply_port)
                (dumps (expected (value_of node handlers) call_id node payload))
      run f e (returned r) q = rw (serve_one, h, e, q) refl
      run f e (raised x) q = rw (serve_one, h, e, q) refl

      go :
          (v : Option WireHandler)
          → value_of node handlers ≡ v
          → serve_one handlers (messages (some (dumps req) ∷ more))
            ≡ replied
                (str sender)
                (num reply_port)
                (dumps (expected (value_of node handlers) call_id node payload))
      go none e = rw (serve_one, h, e) refl
      go (some f) e = run f e (f payload) refl
