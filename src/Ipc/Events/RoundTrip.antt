-- ===== src/Ipc/Events/RoundTrip.antt =====
-- What `encode_event` writes, `split_events` reads back.
use pilot_langgraph.Prelude.{
  ◌+◌, ◌≤◌, ◌≡◌, ap, sym, ◌∙◌, some, List, [], ◌∷◌, ◌++◌, All, length, take, drop, length-append,
  take-length-append, drop-length-append, drop-add, append_assoc, append-nil, arith,
}
use pilot_langgraph.Prelude.Result.{Result, ok, raise, ◌>>=◌}
use pilot_langgraph.Ipc.Bytes.{Bytes, Utf8, unpack_u16_from, unpack_u32_from}
use pilot_langgraph.Ipc.Bytes.Fields.{
  u16, u32, pack_u16-eq, pack_u32-eq, read_u16-u16, read_u32-u32,
}
use pilot_langgraph.Ipc.Events.{
  Event, encode_events, max_topic, max_payload, encode_event, with_payload_len, with_topic_len,
  next_event, split_events,
}
use pilot_langgraph.Ipc.Events.Chunks.{after, after-nil, after-cons, split_events-some}

-- A frame with the body `t` and `p`, read field by field.
module _ (t p more : Bytes) where
  abbrev frame : Bytes
  frame = u16 (length t) ++ (t ++ (u32 (length p) ++ (p ++ more)))

  length-frame : length frame ≡ 2 + length t + 4 + length p + length more
  length-frame =
      omega (arith, length-append t (u32 (length p) ++ (p ++ more)), length-append p more)

  topic_len-frame : unpack_u16_from frame 0 ≡ ok (length t)
  unfolding unpack_u16_from
  topic_len-frame = read_u16-u16 (length t) (t ++ (u32 (length p) ++ (p ++ more)))

  topic-frame : take (length t) (drop 2 frame) ≡ t
  topic-frame = take-length-append t (u32 (length p) ++ (p ++ more))

  drop-topic : drop (2 + length t) frame ≡ u32 (length p) ++ (p ++ more)
  drop-topic = drop-add 2 (length t) frame ∙ drop-length-append t (u32 (length p) ++ (p ++ more))

  payload_len-frame : unpack_u32_from frame (2 + length t) ≡ ok (length p)
  unfolding unpack_u32_from
  payload_len-frame = rw drop-topic (read_u32-u32 (length p) (p ++ more))

  drop-header : drop (2 + length t + 4) frame ≡ p ++ more
  drop-header = drop-add (2 + length t) 4 frame ∙ ap (drop 4) drop-topic

  payload-frame : take (length p) (drop (2 + length t + 4) frame) ≡ p
  payload-frame = rw drop-header (take-length-append p more)

  drop-frame : drop (2 + length t + 4 + length p) frame ≡ more
  drop-frame =
      drop-add (2 + length t + 4) (length p) frame
      ∙ ap (drop (length p)) drop-header
      ∙ drop-length-append p more

frame-append : (t p more : Bytes) → frame t p [] ++ more ≡ frame t p more
frame-append t p more = simp (append_assoc, append-nil)

module _ (u : Utf8) where
  -- Both lengths are within what the reader accepts.
  pub record Fits (e : Event) : Type 0 where
    pub topic : length (u.encode e.topic) ≤ max_topic
    pub payload : length e.payload ≤ max_payload

  abbrev wire : Event → Bytes → Bytes
  wire e more = frame (u.encode e.topic) e.payload more

  encode_event-eq : (e : Event) → Fits e → encode_event u e.topic e.payload ≡ ok (wire e [])
  unfolding encode_event
  encode_event-eq e h =
      rw
        (
          pack_u16-eq (length (u.encode e.topic)) (omega arith),
          pack_u32-eq (length e.payload) (omega arith),
        )
        (simp append-nil)

  next_event-wire :
      (e : Event) (more : Bytes) → Fits e → next_event u (wire e more) ≡ ok (some (e, more))
  unfolding next_event with_topic_len with_payload_len
  next_event-wire e more h =
      let t = u.encode e.topic in
      ground (
        arith,
        length-frame t e.payload more,
        topic_len-frame t e.payload more,
        topic-frame t e.payload more,
        payload_len-frame t e.payload more,
        payload-frame t e.payload more,
        drop-frame t e.payload more,
        u.decode-encode e.topic,
      )

  -- An event whose topic and payload are within the reader's limits, encoded and split with any
  -- bytes behind it, comes back first, with its topic and payload, and the bytes behind it are split
  -- as if they stood alone.
  pub split_events-encode_event :
      (e : Event) (more : Bytes)
      → Fits e
      → (encode_event u e.topic e.payload >>= λ sent. split_events u (sent ++ more))
        ≡ after (e ∷ []) (split_events u more)
  split_events-encode_event e more h =
      rw (encode_event-eq e h, frame-append)
        (split_events-some u (wire e more) more e (next_event-wire e more h))

  encode_more :
      (e : Event) (events : List Event) (more : Bytes)
      → Fits e
      → (rest : Result Bytes)
      → (rest >>= λ sent. split_events u (sent ++ more)) ≡ after events (split_events u more)
      → ((do sent ← encode_event u e.topic e.payload; tail ← rest; ok (sent ++ tail)) >>= λ sent.
          split_events u (sent ++ more))
        ≡ after (e ∷ events) (split_events u more)
  encode_more e events more h (raise x) ih =
      rw (encode_event-eq e h, after-cons) (ap (after (e ∷ [])) ih)
  encode_more e events more h (ok tail) ih =
      rw (encode_event-eq e h, append_assoc, frame-append, after-cons)
        (split_events-some u (wire e (tail ++ more)) (tail ++ more) e
            (next_event-wire e (tail ++ more) h)
          ∙ ap (after (e ∷ [])) ih)

  -- Any events within the limits, encoded one behind the other with any bytes behind them, are
  -- split into the same events, and those bytes as if they stood alone.
  pub split_events-encode_events :
      (events : List Event) (more : Bytes)
      → All Fits events
      → (encode_events u events >>= λ sent. split_events u (sent ++ more))
        ≡ after events (split_events u more)
  unfolding encode_events
  split_events-encode_events [] more h = sym (after-nil (split_events u more))
  split_events-encode_events (e ∷ events) more h =
      encode_more e events more h.0 (encode_events u events)
        (split_events-encode_events events more h.1)
