-- ===== src/Client/Stream.antt =====
-- `Stream` of asyncio_client.py: `write` cuts the data into messages, `read_until_eof` joins what
-- comes.
use pilot_langgraph.Prelude.{
  ℕ, zero, suc, Bool, true, false, ◌+◌, ◌≤◌, ◌<◌, ◌≡◌, refl, ap, ◌∙◌, Option, none, some, List, [],
  ◌∷◌, ◌++◌, All, length, take, drop, take-append-drop, length-take, length-drop, map, arith,
}
use pilot_langgraph.Prelude.Result.{Result, ok, raise, connection_error, ◌>>=◌}
use pilot_langgraph.Ipc.Bytes.{Bytes}
use pilot_langgraph.Ipc.Bytes.Fields.{pack_u32-eq}
use pilot_langgraph.Ipc.Parse.{parse_recv}
use pilot_langgraph.Ipc.Parse.RoundTrip.{parse_recv-encode_send}
use pilot_langgraph.Ipc.Encode.{max_send_chunk, max_message_size, encode_send}

-- `data[i:i + MAX_SEND_CHUNK]` for `i` in `range(0, len(data), MAX_SEND_CHUNK)`. The fuel is the
-- length of the data: every chunk but an empty one takes some of it.
pub chunks_from : ℕ → Bytes → List Bytes
chunks_from fuel [] = []
chunks_from zero (b ∷ rest) = []
chunks_from (suc fuel) (b ∷ rest) =
    take max_send_chunk (b ∷ rest) ∷ chunks_from fuel (drop max_send_chunk (b ∷ rest))

unfoldable pub chunks : Bytes → List Bytes
unfolding chunks_from
chunks payload = chunks_from (length payload) payload

-- The messages that `write` sends.
pub encode_all : ℕ → List Bytes → Result (List Bytes)
encode_all conn_id [] = ok []
encode_all conn_id (c ∷ cs) = do
  message ← encode_send conn_id c
  rest ← encode_all conn_id cs
  ok (message ∷ rest)

-- On a stream, closed or not.
unfoldable pub write : Bool → ℕ → Bytes → Result (List Bytes)
unfolding chunks encode_all
write true conn_id payload = raise connection_error
write false conn_id payload = encode_all conn_id (chunks payload)

-- `read_until_eof` over the items of the queue: an empty frame ends it like the end of the stream,
-- and so does the end of the list, where the read would wait.
unfoldable pub read_until_eof : List (Option Bytes) → Bytes
read_until_eof [] = []
read_until_eof (none ∷ items) = []
read_until_eof (some [] ∷ items) = []
read_until_eof (some (b ∷ c) ∷ items) = let rest = read_until_eof items in (b ∷ c) ++ rest

chunks_from-All : (fuel : ℕ) (b : Bytes) → All (λ c. length c ≤ max_send_chunk) (chunks_from fuel b)
unfolding chunks_from
chunks_from-All fuel [] = tt
chunks_from-All zero (b ∷ rest) = tt
chunks_from-All (suc fuel) (b ∷ rest) = (
  omega (arith, length-take max_send_chunk (b ∷ rest)),
  chunks_from-All fuel (drop max_send_chunk (b ∷ rest)),
)

chunks_from-read :
    (fuel : ℕ) (b : Bytes)
    → length b ≤ fuel
    → read_until_eof (map some (chunks_from fuel b) ++ none ∷ []) ≡ b
unfolding chunks_from read_until_eof
chunks_from-read fuel [] h = refl
chunks_from-read zero (b ∷ rest) h = absurd (omega arith)
chunks_from-read (suc fuel) (b ∷ rest) h =
    let left = drop max_send_chunk (b ∷ rest) in
    ap (λ r. take max_send_chunk (b ∷ rest) ++ r)
      (chunks_from-read fuel left (omega (arith, length-drop max_send_chunk (b ∷ rest))))
    ∙ take-append-drop max_send_chunk (b ∷ rest)

-- What `write` promises of its messages.
pub record IsWritten (conn_id : ℕ) (cs : List Bytes) (messages : List Bytes) : Type 0 where
  pub bounded : All (λ m. length m ≤ max_message_size) messages
  pub carried : All (λ m. (c : Bytes) × (parse_recv (drop 1 m) ≡ ok (some (conn_id, c)))) messages
  pub bodies : map (drop 5) messages ≡ cs

encode_send-eq :
    (conn_id : ℕ) (c : Bytes)
    → conn_id < 4294967296
    → (m : Bytes) × (encode_send conn_id c ≡ ok m) × (length m ≡ 5 + length c) × (drop 5 m ≡ c)
unfolding encode_send
encode_send-eq conn_id c h = rw (pack_u32-eq conn_id h) (_, refl, omega arith, refl)

encode_all-IsWritten :
    (conn_id : ℕ) (cs : List Bytes)
    → conn_id < 4294967296
    → All (λ c. length c ≤ max_send_chunk) cs
    → (messages : List Bytes) × (encode_all conn_id cs ≡ ok messages)
      × IsWritten conn_id cs messages
unfolding encode_all
encode_all-IsWritten conn_id [] h a =
    ([], refl, record { bounded = tt; carried = tt; bodies = refl })
encode_all-IsWritten conn_id (c ∷ cs) h a =
    let (m, e, len, body) = encode_send-eq conn_id c h in
    let (messages, es, w) = encode_all-IsWritten conn_id cs h a.1 in
    (
      m ∷ messages,
      rw (encode_all, e, es) refl,
      record {
        bounded = (omega (arith, len, a.0), w.bounded);
        carried = ((c, rw e at (parse_recv-encode_send conn_id c h)), w.carried);
        bodies = λ i. body i ∷ w.bodies i;
      },
    )

-- Writing any data on a stream that is not closed, with a 32-bit connection id, gives messages that
-- are within the size that the reader of the protocol accepts, that carry the connection id, and whose bodies,
-- put into a receive queue and followed by the end of the stream, are read back as the data; on a
-- closed stream it raises and gives no message.
pub write-read :
    (conn_id : ℕ) (payload : Bytes)
    → conn_id < 4294967296
    → (messages : List Bytes) × (write false conn_id payload ≡ ok messages)
      × IsWritten conn_id (chunks payload) messages
      × (read_until_eof (map some (map (drop 5) messages) ++ none ∷ []) ≡ payload)
      × (write true conn_id payload ≡ raise connection_error)
unfolding write chunks
write-read conn_id payload h =
    let (messages, e, w) =
      encode_all-IsWritten conn_id (chunks payload) h (chunks_from-All (length payload) payload) in
    (
      messages,
      e,
      w,
      ap (λ l. read_until_eof (map some l ++ none ∷ [])) w.bodies
          ∙ chunks_from-read (length payload) payload (omega arith),
      refl,
    )
