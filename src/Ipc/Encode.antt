-- ===== src/Ipc/Encode.antt =====
-- The commands of _ipc.py and its request and stream encoders.
use pilot_langgraph.Prelude.{ℕ, [], ◌∷◌, ◌++◌}
use pilot_langgraph.Prelude.Result.{Result, ok, ◌>>=◌}
use pilot_langgraph.Ipc.Bytes.{Bytes, Text, Utf8, pack_u16, pack_u32}
use pilot_langgraph.Ipc.Address.{Addr, pack}

abbrev pub max_message_size : ℕ
max_message_size = 1048576

abbrev pub max_send_chunk : ℕ
max_send_chunk = 1048512

-- `CMD_BIND` and the others
abbrev pub cmd_bind : ℕ
cmd_bind = 0x01

abbrev pub cmd_bind_ok : ℕ
cmd_bind_ok = 0x02

abbrev pub cmd_dial : ℕ
cmd_dial = 0x03

abbrev pub cmd_dial_ok : ℕ
cmd_dial_ok = 0x04

abbrev pub cmd_accept : ℕ
cmd_accept = 0x05

abbrev pub cmd_send : ℕ
cmd_send = 0x06

abbrev pub cmd_recv : ℕ
cmd_recv = 0x07

abbrev pub cmd_close : ℕ
cmd_close = 0x08

abbrev pub cmd_close_ok : ℕ
cmd_close_ok = 0x09

abbrev pub cmd_error : ℕ
cmd_error = 0x0a

abbrev pub cmd_send_to : ℕ
cmd_send_to = 0x0b

abbrev pub cmd_recv_from : ℕ
cmd_recv_from = 0x0c

abbrev pub cmd_info : ℕ
cmd_info = 0x0d

abbrev pub cmd_info_ok : ℕ
cmd_info_ok = 0x0e

abbrev pub cmd_handshake : ℕ
cmd_handshake = 0x0f

abbrev pub cmd_handshake_ok : ℕ
cmd_handshake_ok = 0x10

abbrev pub cmd_resolve_hostname : ℕ
cmd_resolve_hostname = 0x11

abbrev pub cmd_resolve_hostname_ok : ℕ
cmd_resolve_hostname_ok = 0x12

abbrev pub cmd_set_hostname : ℕ
cmd_set_hostname = 0x13

abbrev pub cmd_set_hostname_ok : ℕ
cmd_set_hostname_ok = 0x14

abbrev pub cmd_health : ℕ
cmd_health = 0x21

abbrev pub cmd_health_ok : ℕ
cmd_health_ok = 0x22

abbrev pub port_event_stream : ℕ
port_event_stream = 1002

unfoldable pub encode_info : Bytes
encode_info = cmd_info ∷ []

unfoldable pub encode_health : Bytes
encode_health = cmd_health ∷ []

module _ (u : Utf8) where
  unfoldable pub encode_resolve_hostname : Text → Bytes
  encode_resolve_hostname hostname = cmd_resolve_hostname ∷ u.encode hostname

  unfoldable pub encode_set_hostname : Text → Bytes
  encode_set_hostname hostname = cmd_set_hostname ∷ u.encode hostname

  unfoldable pub encode_handshake_send : ℕ → Text → Result Bytes
  encode_handshake_send node_id justification = do
    node ← pack_u32 node_id
    ok (cmd_handshake ∷ 0x01 ∷ (node ++ u.encode justification))

unfoldable pub encode_handshake_approve : ℕ → Result Bytes
encode_handshake_approve node_id = do node ← pack_u32 node_id; ok (cmd_handshake ∷ 0x02 ∷ node)

unfoldable pub encode_handshake_pending : Bytes
encode_handshake_pending = cmd_handshake ∷ 0x04 ∷ []

unfoldable pub encode_handshake_trusted : Bytes
encode_handshake_trusted = cmd_handshake ∷ 0x05 ∷ []

unfoldable pub encode_send_to : Addr → ℕ → Bytes → Result Bytes
encode_send_to dst port body = do
  addr ← pack dst
  port ← pack_u16 port
  ok (cmd_send_to ∷ (addr ++ (port ++ body)))

unfoldable pub encode_dial : Addr → ℕ → Result Bytes
encode_dial dst port = do addr ← pack dst; port ← pack_u16 port; ok (cmd_dial ∷ (addr ++ port))

unfoldable pub encode_bind : ℕ → Result Bytes
encode_bind port = do port ← pack_u16 port; ok (cmd_bind ∷ port)

unfoldable pub encode_send : ℕ → Bytes → Result Bytes
encode_send conn_id body = do conn ← pack_u32 conn_id; ok (cmd_send ∷ (conn ++ body))

unfoldable pub encode_close : ℕ → Result Bytes
encode_close conn_id = do conn ← pack_u32 conn_id; ok (cmd_close ∷ conn)
