-- ===== src/Client/Runnable.antt =====
-- `PilotRemoteRunnable` of runnables.py: the frames of a reply, what a call makes of them, and its
-- retries. `json.loads` is a parameter: `none` is a `JSONDecodeError`. The key `_peer`, which each
-- frame gets for the text of errors, is left out, and backoffs are whole milliseconds. Every frame
-- is taken to be a `dict`.
pub mod Replies
pub mod Lines
use pilot_langgraph.Prelude.{
  ℕ, zero, suc, ◌+◌, ◌*◌, ◌^◌, min, Bool, true, false, ◌||◌, Option, none, some, List, [], ◌∷◌,
  ◌++◌, length, ◌==◌, if◌then◌else◌,
}
use pilot_langgraph.Prelude.Result.{Exc, timeout_error, connection_error_wrapper}
use pilot_langgraph.Json.{Json, null, bool, obj, field, Fields, end, get, get?, is_null, truthy}
use pilot_langgraph.Ipc.Bytes.{Bytes}
use pilot_langgraph.Client.Errors.{RemoteError, from_reply}

-- `buf.split(b"\n", 1)`, where there is a newline.
unfoldable pub split_line : Bytes → Option (Bytes × Bytes)
split_line [] = none
split_line (b ∷ rest) =
    let more = split_line rest in
    if b == 10
    then some ([], rest)
    else elim more [ none ↦ none | some (line, tail) ↦ some (b ∷ line, tail) ]

-- What the loop over the lines leaves: frames, whether a frame was done, the rest of the buffer.
pub record Drained : Type 0 where
  pub frames : List Json
  pub finished : Bool
  pub buf : Bytes

abbrev pub is_done : Json → Bool
is_done frame = truthy (get "done" frame)

abbrev pub with_frame : Json → Drained → Drained
with_frame frame d = record { frames = frame ∷ d.frames; finished = d.finished; buf = d.buf }

-- How a reply ends: by its `done` frame or the end of the stream, or by an exception.
pub data End : Type 0 where
  ended : End
  failing : Exc → End

-- What the stream still gives: chunks, and then its end or the deadline.
pub data Tail : Type 0 where
  closed : Tail
  deadline : Tail

-- The end of the stream before any frame.
abbrev pub at_close : Bool → End
at_close saw_any = if saw_any then ended else failing connection_error_wrapper

abbrev pub is_nil : {A : Type 0} → List A → Bool
is_nil [] = true
is_nil (_ ∷ _) = false

abbrev pub saw : Bool → List Json → Bool
saw saw_any frames = if is_nil frames then saw_any else true

-- `if "done" not in frame: frame["done"] = True`
abbrev pub mark_done : Json → Json
mark_done (obj fs) = elim (get? "done" (obj fs)) [
  | none ↦ obj (field "done" (bool true) fs)
  | some _ ↦ obj fs
]
mark_done j = j

module _ (loads : Bytes → Option Json) where
  -- `while b"\n" in buf`, on the length of the buffer as fuel: a turn takes the newline at least.
  -- Empty lines and lines that do not parse are passed over.
  unfoldable pub drain : ℕ → Bytes → Drained
  drain zero buf = record { frames = []; finished = false; buf = buf }
  drain (suc fuel) buf = elim (split_line buf) [
    | none ↦ record { frames = []; finished = false; buf = buf }
    | some (line, rest) ↦
        let more = drain fuel rest in
        if is_nil line then more else elim (loads line) [
          | none ↦ more
          | some frame ↦
              if is_done frame
              then record { frames = frame ∷ []; finished = true; buf = rest }
              else with_frame frame more
        ]
  ]

  -- A buffer without a newline that parses is a whole reply.
  abbrev pub legacy : Bytes → Option Json
  legacy [] = none
  legacy (b ∷ buf) = loads (b ∷ buf)

  -- `_aframes`, from the first read on: the frames that it yields, and its end.
  unfoldable pub aframes : List Bytes → Tail → Bytes → Bool → List Json × End
  aframes [] closed buf saw_any = ([], at_close saw_any)
  aframes [] deadline buf saw_any = ([], failing timeout_error)
  aframes ([] ∷ chunks) tail buf saw_any = ([], at_close saw_any)
  aframes ((b ∷ chunk) ∷ chunks) tail buf saw_any =
      let now = buf ++ (b ∷ chunk) in
      let d = drain (length now) now in
      let (frames, e) = aframes chunks tail d.buf (saw saw_any d.frames) in
      if d.finished then (d.frames, ended) else elim (legacy d.buf) [
        | some frame ↦ (d.frames ++ mark_done frame ∷ [], ended)
        | none ↦ (d.frames ++ frames, e)
      ]

-- What a call gives its caller.
pub data Outcome : Type 0 where
  answered : Json → Outcome
  remote : RemoteError → Outcome
  broken : Exc → Outcome

-- `frame.get("ok") is False`
abbrev pub is_error : Json → Bool
is_error frame = elim (get "ok" frame) [ bool false ↦ true | _ ↦ false ]

abbrev pub newer : Json → Json → Json
newer frame last_result = if is_null (get "result" frame) then last_result else get "result" frame

-- The loop of `_ainvoke_once`.
unfoldable pub collect : List Json → End → Json → Outcome
collect [] ended last_result = answered last_result
collect [] (failing e) last_result = broken e
collect (frame ∷ frames) e last_result =
    let rest = collect frames e (newer frame last_result) in
    if is_error frame
    then remote (from_reply frame)
    else if is_done frame
    then answered (newer frame last_result)
    else rest

unfoldable pub ainvoke_once : List Json × End → Outcome
ainvoke_once (frames, e) = collect frames e null

-- The exceptions that are tried again.
unfoldable pub is_transient : Outcome → Bool
is_transient (broken connection_error_wrapper) = true
is_transient (broken timeout_error) = true
is_transient _ = false

-- `min(self.retry_backoff_secs * (2 ** attempt), 30.0)`
abbrev pub delay : ℕ → ℕ → ℕ
delay backoff attempt = min (backoff * 2 ^ attempt) 30000

-- The attempts from `i` on, of which `left` follow the next one: what the call gives, and the sleeps.
unfoldable pub attempts : (ℕ → Outcome) → ℕ → ℕ → ℕ → Outcome × List ℕ
attempts once backoff i zero = (once i, [])
attempts once backoff i (suc left) =
    let (result, sleeps) = attempts once backoff (suc i) left in
    if is_transient (once i) then (result, delay backoff i ∷ sleeps) else (once i, [])

-- `_ainvoke_with_retries`, for what the attempts would give.
unfoldable pub ainvoke_with_retries : (ℕ → Outcome) → ℕ → ℕ → Outcome × List ℕ
ainvoke_with_retries once max_retries backoff = attempts once backoff 0 max_retries
