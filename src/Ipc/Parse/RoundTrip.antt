-- ===== src/Ipc/Parse/RoundTrip.antt =====
-- Stream data through the encoder and the parser that share its layout.
use pilot_langgraph.Prelude.{ℕ, ◌<◌, ◌≡◌, some, drop, arith}
use pilot_langgraph.Prelude.Result.{ok, ◌>>=◌}
use pilot_langgraph.Ipc.Bytes.{Bytes, unpack_u32_from}
use pilot_langgraph.Ipc.Bytes.Fields.{pack_u32-eq}
use pilot_langgraph.Ipc.Encode.{encode_send}
use pilot_langgraph.Ipc.Parse.{parse_recv}

-- The data that `encode_send` frames for a 32-bit connection id is what `parse_recv` finds behind the
-- command byte, with the same connection id.
pub parse_recv-encode_send :
    (conn_id : ℕ) (body : Bytes)
    → conn_id < 4294967296
    → (encode_send conn_id body >>= λ message. parse_recv (drop 1 message))
      ≡ ok (some (conn_id, body))
unfolding encode_send parse_recv unpack_u32_from
parse_recv-encode_send conn_id body h = rw (pack_u32-eq conn_id h) (ground arith)
