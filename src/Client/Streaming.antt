-- ===== src/Client/Streaming.antt =====
-- `PilotRemoteRunnable.astream` of runnables.py: the attempts, and what the caller gets of them. A
-- consumer takes all that is yielded.
pub mod Attempts
use pilot_langgraph.Prelude.{
  ℕ, zero, suc, Bool, true, false, ◌||◌, List, [], ◌∷◌, ◌==◌, if◌then◌else◌,
}
use pilot_langgraph.Prelude.Result.{Exc, connection_error_wrapper, timeout_error}
use pilot_langgraph.Json.{Json, get, is_null}
use pilot_langgraph.Client.Errors.{RemoteError, from_reply}
use pilot_langgraph.Client.Runnable.{End, ended, failing, is_error, is_done, is_nil}

-- How an iteration ends for the caller.
pub data StreamEnd : Type 0 where
  finished : StreamEnd
  remote : RemoteError → StreamEnd
  broken : Exc → StreamEnd

abbrev pub yielding : Json → List Json × StreamEnd → List Json × StreamEnd
yielding v (vs, e) = if is_null v then (vs, e) else (v ∷ vs, e)

-- `_attempt_stream` over the frames of one reply.
unfoldable pub attempt_stream : List Json → End → List Json × StreamEnd
attempt_stream [] ended = ([], finished)
attempt_stream [] (failing e) = ([], broken e)
attempt_stream (frame ∷ frames) e =
    let rest = attempt_stream frames e in
    if is_error frame
    then ([], remote (from_reply frame))
    else if is_done frame
    then yielding (get "result" frame) ([], finished)
    else yielding (get "result" frame) rest

-- `except (PilotConnectionErrorWrapper, TimeoutError)`
unfoldable pub is_transient : StreamEnd → Bool
is_transient (broken connection_error_wrapper) = true
is_transient (broken timeout_error) = true
is_transient _ = false

abbrev pub Try : Type 0
Try = List Json × StreamEnd

-- `for attempt in range(3)`, with `left` more attempts behind this one: only an attempt that has
-- yielded nothing is tried again.
unfoldable pub attempts : (ℕ → Try) → ℕ → ℕ → Try
attempts once i zero = once i
attempts once i (suc left) =
    let again = attempts once (suc i) left in
    if is_transient (once i).1 then (if is_nil (once i).0 then again else once i) else once i

-- `attempt == 2` is the last one.
unfoldable pub astream : (ℕ → List Json × End) → Try
unfolding attempts
astream replies = attempts (λ i. attempt_stream (replies i).0 (replies i).1) 0 2
