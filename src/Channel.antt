-- ===== src/Channel.antt =====
-- channel.py: subscriptions and publishers of the event broker. What a stream still gives is a list
-- of reads: bytes, or a read that times out, or a deadline that has passed before the read. An
-- empty read is the end of the stream. Where the list ends, the channel waits.
pub mod Pending
pub mod Recv
pub mod Iterate
pub mod Sessions
pub mod Source
use pilot_langgraph.Prelude.{
  ℕ, zero, suc, ◌+◌, Bool, true, false, Option, none, some, List, [], ◌∷◌, ◌++◌, map, take, drop,
  leb, if◌then◌else◌,
}
use pilot_langgraph.Prelude.Result.{Exc, eof_error, timeout_error, Result, ok, raise, ◌>>=◌}
use pilot_langgraph.Ipc.Bytes.{Bytes, Text, Utf8}
use pilot_langgraph.Ipc.Events.{Event, encode_event, encode_events, split_events}
use pilot_langgraph.Client.Stream.{write}

pub data Read : Type 0 where
  got : Bytes → Read
  silent : Read
  late : Read

-- How a `recv` ends.
pub data Received : Type 0 where
  event : Event → Received
  failed : Exc → Received
  waiting : Received

-- The channel behind a `recv`: its `_buf` and what the stream still gives.
pub record Rest : Type 0 where
  pub buf : Bytes
  pub reads : List Read

-- How the events of one stream end.
pub data Ending : Type 0 where
  still_open : Ending
  dropped : Exc → Ending

-- An attempt of `_reconnect_loop` to subscribe again.
pub data Attempt : Type 0 where
  refused : List Read → Attempt
  connected : List Read → Attempt

-- `__anext__`: the iteration stops at the end of the stream, and other exceptions come through.
pub data Next : Type 0 where
  yielded : Event → Next
  stopped : Next
  raised : Exc → Next
  blocked : Next

unfoldable pub anext : Received → Next
anext (event e) = yielded e
anext (failed eof_error) = stopped
anext (failed e) = raised e
anext waiting = blocked

-- `max_events is not None and n >= max_events`
abbrev pub has_enough : Option ℕ → ℕ → Bool
has_enough none n = false
has_enough (some max_events) n = leb max_events n

module _ (u : Utf8) where
  -- The events that `split_events` found, and its leftover: all but the first go back into the
  -- buffer. An exception of `encode_event` comes behind the assignment of the leftover.
  pub hand_out : Event → List Event → Bytes → List Read → Received × Rest
  hand_out first [] leftover reads = (event first, record { buf = leftover; reads = reads })
  hand_out first (second ∷ events) leftover reads = elim (encode_events u (second ∷ events)) [
    | raise e ↦ (failed e, record { buf = leftover; reads = reads })
    | ok rest ↦ (event first, record { buf = rest ++ leftover; reads = reads })
  ]

  -- One turn of `recv`, with what it does where no event is there. An exception of `split_events`
  -- comes before the assignment of the leftover.
  pub or_hand_out :
      Result (List Event × Bytes) → Bytes → List Read → (Bytes → Received × Rest) → Received × Rest
  or_hand_out (raise e) buf reads read_more = (failed e, record { buf = buf; reads = reads })
  or_hand_out (ok ([], leftover)) buf reads read_more = read_more leftover
  or_hand_out (ok (first ∷ events, leftover)) buf reads read_more =
      hand_out first events leftover reads

  abbrev pub stop_with : Received → List Read → Bytes → Received × Rest
  stop_with r reads leftover = (r, record { buf = leftover; reads = reads })

  -- `recv` without `auto_reconnect`.
  unfoldable pub recv : List Read → Bytes → Received × Rest
  unfolding hand_out or_hand_out
  recv [] buf = or_hand_out (split_events u buf) buf [] (stop_with waiting [])
  recv (got [] ∷ reads) buf =
      or_hand_out (split_events u buf) buf (got [] ∷ reads) (stop_with (failed eof_error) reads)
  recv (got (b ∷ chunk) ∷ reads) buf =
      or_hand_out (split_events u buf) buf (got (b ∷ chunk) ∷ reads)
        (λ leftover. recv reads (leftover ++ (b ∷ chunk)))
  recv (silent ∷ reads) buf =
      or_hand_out (split_events u buf) buf (silent ∷ reads) (stop_with (failed timeout_error) reads)
  recv (late ∷ reads) buf =
      or_hand_out (split_events u buf) buf (late ∷ reads) (stop_with (failed timeout_error) reads)

  -- One turn of `_iterate_current_stream`.
  pub or_drop :
      Result (List Event × Bytes)
      → Bytes
      → (Bytes → List Event × Ending × Bytes)
      → List Event × Ending × Bytes
  or_drop (raise e) buf read_more = ([], dropped e, buf)
  or_drop (ok (events, leftover)) buf read_more =
      let (more, ending, last) = read_more leftover in (events ++ more, ending, last)

  abbrev pub end_with : Ending → Bytes → List Event × Ending × Bytes
  end_with ending leftover = ([], ending, leftover)

  -- `_iterate_current_stream`: the events that it yields, its end, and `_buf` behind it.
  unfoldable pub iterate : List Read → Bytes → List Event × Ending × Bytes
  unfolding or_drop
  iterate [] buf = or_drop (split_events u buf) buf (end_with still_open)
  iterate (got [] ∷ reads) buf = or_drop (split_events u buf) buf (end_with (dropped eof_error))
  iterate (got (b ∷ chunk) ∷ reads) buf =
      or_drop (split_events u buf) buf (λ leftover. iterate reads (leftover ++ (b ∷ chunk)))
  iterate (silent ∷ reads) buf = or_drop (split_events u buf) buf (end_with (dropped timeout_error))
  iterate (late ∷ reads) buf = or_drop (split_events u buf) buf (end_with (dropped timeout_error))

  -- `PilotPublisher.publish`, on a stream that is closed or not, and the frame by which a subscription starts.
  unfoldable pub publish : Bool → ℕ → Text → Bytes → Result (List Bytes)
  publish closed conn_id topic payload = do
    frame ← encode_event u topic payload
    write closed conn_id frame

  unfoldable pub subscribe_frame : ℕ → Text → Result (List Bytes)
  unfolding publish
  subscribe_frame conn_id topic = publish false conn_id topic []

  -- What `_reconnect_loop` does behind the end of a stream. Every attempt to connect comes behind a
  -- sleep. One that fails leaves the old buffer and the closed stream, or the new stream where only
  -- the frame of the subscription failed, and the loop reads what the queue of that stream holds.
  unfoldable pub after_drop : Ending → Bytes → List Attempt → List Event
  unfolding iterate
  after_drop still_open buf attempts = []
  after_drop (dropped e) buf [] = []
  after_drop (dropped e) buf (refused old ∷ attempts) =
      let (events, ending, left) = iterate old buf in events ++ after_drop ending left attempts
  after_drop (dropped e) buf (connected reads ∷ attempts) =
      let (events, ending, left) = iterate reads [] in events ++ after_drop ending left attempts

  -- `_reconnect_loop`: the events that it puts into `_reconnect_queue`, where `recv` takes them from.
  unfoldable pub reconnect_loop : List Read → List Attempt → List Event
  unfolding after_drop
  reconnect_loop reads attempts =
      let (events, ending, left) = iterate reads [] in events ++ after_drop ending left attempts

  -- `{"topic": ev.topic, "payload": ev.payload.decode(errors="replace")}`
  abbrev pub item_of : Event → Text × Text
  item_of e = (e.topic, u.decode e.payload)

  -- `PilotEventSource.astream`, for the events that the channel gives; `n` counts those that it has
  -- yielded.
  unfoldable pub source_stream : Option ℕ → ℕ → List Event → List (Text × Text)
  source_stream max_events n [] = []
  source_stream max_events n (e ∷ events) =
      let rest = source_stream max_events (suc n) events in
      if has_enough max_events (suc n) then item_of e ∷ [] else item_of e ∷ rest
