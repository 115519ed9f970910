-- ===== src/Ipc/Parse.antt =====
-- The response and push parsers of _ipc.py.
pub mod Total
pub mod RoundTrip
use pilot_langgraph.Prelude.{ℕ, Option, none, some, List, drop, length, ltb, if◌then◌else◌}
use pilot_langgraph.Prelude.Result.{Result, ok, ◌>>=◌}
use pilot_langgraph.Ipc.Bytes.{Bytes, Text, Utf8, unpack_u16_from, unpack_u32_from}
use pilot_langgraph.Ipc.Address.{Addr, unpack}

pub record Datagram : Type 0 where
  pub src_addr : Addr
  pub src_port : ℕ
  pub dst_port : ℕ
  pub body : Bytes

-- `ADDR_SIZE` is 6.
unfoldable pub parse_datagram : Bytes → Result (Option Datagram)
unfolding unpack
parse_datagram payload = if ltb (length payload) 10 then ok none else do
  src_addr ← unpack payload 0
  src_port ← unpack_u16_from payload 6
  dst_port ← unpack_u16_from payload 8
  ok (
      some (record {
        src_addr = src_addr;
        src_port = src_port;
        dst_port = dst_port;
        body = drop 10 payload;
      }))

pub record AcceptedConn : Type 0 where
  pub local_port : ℕ
  pub conn_id : ℕ
  pub remote_addr : Addr
  pub remote_port : ℕ

unfoldable pub parse_accept : Bytes → Result (Option AcceptedConn)
unfolding unpack
parse_accept payload = if ltb (length payload) 14 then ok none else do
  local_port ← unpack_u16_from payload 0
  conn_id ← unpack_u32_from payload 2
  remote_addr ← unpack payload 6
  remote_port ← unpack_u16_from payload 12
  ok (
      some (record {
        local_port = local_port;
        conn_id = conn_id;
        remote_addr = remote_addr;
        remote_port = remote_port;
      }))

unfoldable pub parse_recv : Bytes → Result (Option (ℕ × Bytes))
parse_recv payload =
    if ltb (length payload) 4
    then ok none
    else do conn_id ← unpack_u32_from payload 0; ok (some (conn_id, drop 4 payload))

unfoldable pub parse_dial_ok : Bytes → Result (Option ℕ)
parse_dial_ok payload =
    if ltb (length payload) 4
    then ok none
    else do conn_id ← unpack_u32_from payload 0; ok (some conn_id)

unfoldable pub parse_bind_ok : Bytes → Result (Option ℕ)
parse_bind_ok payload =
    if ltb (length payload) 2 then ok none else do port ← unpack_u16_from payload 0; ok (some port)

unfoldable pub parse_close_ok : Bytes → Result (Option ℕ)
parse_close_ok payload =
    if ltb (length payload) 4
    then ok none
    else do conn_id ← unpack_u32_from payload 0; ok (some conn_id)

-- `some` text, or `none` for "unknown daemon error"
unfoldable pub parse_error : Utf8 → Bytes → Option Text
parse_error u payload = if ltb (length payload) 2 then none else some (u.decode (drop 2 payload))
