-- ===== src/Server/Types.antt =====
-- The data of server.py: contexts, handlers, registrations, frames.
use pilot_langgraph.Prelude.{
  ℕ, suc, Bool, true, false, ◌||◌, Option, none, some, List, [], ◌∷◌, String, leb, ◌==◌,
  if◌then◌else◌,
}
use pilot_langgraph.Json.{Json, bool, str, dict}
use pilot_langgraph.Ipc.Address.{Addr}
use pilot_langgraph.Server.Stats.{Stats, no_stats}
use pilot_langgraph.Server.RateLimiter.{RateLimiter, init}

pub record Context : Type 0 where
  pub caller_node_id : ℕ
  pub caller_addr : Addr
  pub caller_port : ℕ
  pub request_id : String
  pub started_at : ℕ
  pub handler_name : String

-- An exception of user code, by `type(e).__name__` and `str(e)`, and the two `ValueError`s that the
-- server makes of one: `ValueError(f"input validation: {e}")`, `ValueError(f"output validation:
-- {e}")`.
pub data PyExc : Type 0 where
  exc : String → String → PyExc
  input_invalid : PyExc → PyExc
  output_invalid : PyExc → PyExc

pub data Outcome (A : Type 0) : Type 0 where
  returned : A → Outcome A
  raised : PyExc → Outcome A

-- What an async generator does: the values that it yields, and the exception that ends it, if any.
pub record Yields : Type 0 where
  pub values : List Json
  pub failed : Option PyExc

-- A function or coroutine function, and an async generator function. The context is passed to those
-- that take it.
pub data Body : Type 0 where
  plain : (Json → Option Context → Outcome Json) → Body
  generator : (Json → Option Context → Yields) → Body

-- `inspect.Parameter.kind`
pub data ParamKind : Type 0 where
  positional_only positional_or_keyword var_positional keyword_only var_keyword : ParamKind

-- User code, with its signature where `inspect.signature` finds one.
pub record Handler : Type 0 where
  pub signature : Option (List ParamKind)
  pub body : Body

pub positionals : List ParamKind → ℕ
positionals [] = 0
positionals (positional_only ∷ l) = suc (positionals l)
positionals (positional_or_keyword ∷ l) = suc (positionals l)
positionals (_ ∷ l) = positionals l

pub has_var_positional : List ParamKind → Bool
has_var_positional [] = false
has_var_positional (var_positional ∷ l) = true
has_var_positional (_ ∷ l) = has_var_positional l

-- `_wants_context`
unfoldable pub wants_context : Handler → Bool
unfolding positionals has_var_positional
wants_context fn = elim fn.signature [
  | none ↦ false
  | some params ↦ leb 2 (positionals params) || has_var_positional params
]

-- A pydantic model: `model_validate`, and `model_dump` of what it made.
pub record Model : Type 0 where
  pub validate : Json → Outcome Json
  pub dump : Json → Json

-- `_Registration`; `semaphore` holds the free permits once it has been made.
pub record Registration : Type 0 where
  pub fn : Handler
  pub allow : Option (List ℕ)
  pub stats : Stats
  pub wants_ctx : Bool
  pub timeout_secs : Option ℕ
  pub rate_limiter : Option RateLimiter
  pub max_concurrent : Option ℕ
  pub semaphore : Option ℕ
  pub input_model : Option Model
  pub output_model : Option Model

-- The keyword arguments of `register` and `pilot_handler`.
pub record Options : Type 0 where
  pub allow : Option (List ℕ)
  pub timeout_secs : Option ℕ
  pub rate_per_caller : Option ℕ
  pub rate_window_secs : ℕ
  pub max_concurrent : Option ℕ
  pub input_model : Option Model
  pub output_model : Option Model

-- `_RateLimiter(n, w) if n else None`
pub limiter : Option ℕ → ℕ → Option RateLimiter
unfolding init
limiter none window = none
limiter (some n) window = if n == 0 then none else some (init n window)

-- `_Registration.__init__`
unfoldable pub registration : Handler → Options → Registration
unfolding wants_context limiter no_stats
registration fn o = record {
  fn = fn;
  allow = o.allow;
  stats = no_stats;
  wants_ctx = wants_context fn;
  timeout_secs = o.timeout_secs;
  rate_limiter = limiter o.rate_per_caller o.rate_window_secs;
  max_concurrent = o.max_concurrent;
  semaphore = none;
  input_model = o.input_model;
  output_model = o.output_model;
}

pub is_member : ℕ → List ℕ → Bool
is_member n [] = false
is_member n (m ∷ l) = (m == n) || is_member n l

-- `_Registration.authorized`
unfoldable pub authorized : Registration → ℕ → Bool
unfolding is_member
authorized reg caller = elim reg.allow [ none ↦ true | some allow ↦ is_member caller allow ]

-- The texts of the error replies, with the values that they show.
pub data Message : Type 0 where
  no_handler : String → Message
  not_allowed : ℕ → String → Message
  rate_limit : ℕ → ℕ → String → Message
  concurrency_limit : ℕ → String → Message
  timed_out : Option ℕ → Message
  exception : PyExc → Message

-- The values of `error_type`.
pub data ErrorType : Type 0 where
  handler_not_found unauthorized rate_limited handler_error : ErrorType

-- The frames of `_send_chunk`: a value with `"done": false`, a value with `"done": true`, an error.
pub data Frame : Type 0 where
  chunk : Json → Frame
  last : Json → Frame
  failure : ErrorType → Message → Frame

unfoldable pub type_name : ErrorType → String
type_name handler_not_found = "handler_not_found"
type_name unauthorized = "unauthorized"
type_name rate_limited = "rate_limited"
type_name handler_error = "handler_error"

-- The `dict` of a frame, for a rendering of the texts.
unfoldable pub frame_json : (Message → String) → Frame → Json
unfolding type_name
frame_json render (chunk v) = dict (("ok", bool true) ∷ ("result", v) ∷ ("done", bool false) ∷ [])
frame_json render (last v) = dict (("ok", bool true) ∷ ("result", v) ∷ ("done", bool true) ∷ [])
frame_json render (failure t m) = dict (
    ("ok", bool false)
    ∷ ("error_type", str (type_name t))
    ∷ ("error", str (render m))
    ∷ ("done", bool true)
    ∷ [])

unfoldable pub is_done : Frame → Bool
is_done (chunk _) = false
is_done (last _) = true
is_done (failure _ _) = true
