-- ===== src/Ipc/Events.antt =====
-- The event stream codec of _ipc.py: `Event`, `encode_event`, `split_events`. The `while` loop takes
-- the buffer that is left after each event in place of the position `pos`; its fuel is the length
-- of the buffer, since every event takes at least six bytes.
pub mod Chunks
pub mod RoundTrip
use pilot_langgraph.Prelude.{
  ℕ, zero, suc, ◌+◌, ◌^◌, Option, none, some, List, [], ◌∷◌, ◌++◌, length, take, drop, ltb, leb,
  if◌then◌else◌,
}
use pilot_langgraph.Prelude.Result.{Result, ok, raise, ◌>>=◌, topic_too_long, payload_too_large}
use pilot_langgraph.Ipc.Bytes.{
  Bytes, Text, Utf8, pack_u16, pack_u32, unpack_u16_from, unpack_u32_from,
}

pub record Event : Type 0 where
  pub topic : Text
  pub payload : Bytes

abbrev pub max_topic : ℕ
max_topic = 1024

abbrev pub max_payload : ℕ
max_payload = 16777216

module _ (u : Utf8) where
  unfoldable pub encode_event : Text → Bytes → Result Bytes
  encode_event topic payload = do
    let t = u.encode topic
    topic_len ← pack_u16 (length t)
    payload_len ← pack_u32 (length payload)
    ok (topic_len ++ (t ++ (payload_len ++ payload)))

  -- `b"".join(encode_event(e.topic, e.payload) for e in events)`, as channel.py puts events back.
  unfoldable pub encode_events : List Event → Result Bytes
  encode_events [] = ok []
  encode_events (e ∷ events) = do
    sent ← encode_event e.topic e.payload
    rest ← encode_events events
    ok (sent ++ rest)

  -- The rest of the loop's body, once both lengths are read.
  pub with_payload_len : ℕ → ℕ → Bytes → Result (Option (Event × Bytes))
  with_payload_len topic_len payload_len buf =
      if ltb max_payload payload_len
      then raise (payload_too_large payload_len)
      else let end = 2 + topic_len + 4 + payload_len in
        if ltb (length buf) end
        then ok none
        else ok (
            some (
              record {
                topic = u.decode (take topic_len (drop 2 buf));
                payload = take payload_len (drop (2 + topic_len + 4) buf);
              },
              drop end buf,
            ))

  -- The same, once the topic's length is read.
  pub with_topic_len : ℕ → Bytes → Result (Option (Event × Bytes))
  with_topic_len topic_len buf =
      if ltb max_topic topic_len
      then raise (topic_too_long topic_len)
      else if ltb (length buf) (2 + topic_len + 4)
      then ok none
      else do
        payload_len ← unpack_u32_from buf (2 + topic_len)
        with_payload_len topic_len payload_len buf

  -- One turn of the loop: an event and the buffer behind it, or `none` where the loop ends.
  pub next_event : Bytes → Result (Option (Event × Bytes))
  next_event buf =
      if leb 2 (length buf)
      then (do topic_len ← unpack_u16_from buf 0; with_topic_len topic_len buf)
      else ok none

  pub split_from : ℕ → Bytes → Result (List Event × Bytes)
  split_from zero buf = ok ([], buf)
  split_from (suc fuel) buf = elim (next_event buf) [
    | raise e ↦ raise e
    | ok none ↦ ok ([], buf)
    | ok (some (event, rest)) ↦ do
      (events, leftover) ← split_from fuel rest
      ok (event ∷ events, leftover)
  ]

  unfoldable pub split_events : Bytes → Result (List Event × Bytes)
  unfolding split_from next_event with_topic_len with_payload_len
  split_events buf = split_from (length buf) buf
