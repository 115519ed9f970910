-- ===== src/Client/Connection/Loop.antt =====
-- The frames on the daemon's socket, and `_read_loop` over them: a length of four bytes and a
-- message, which is a command byte and a payload. The bytes are those that the socket gives until
-- it ends.
pub mod Framing
use pilot_langgraph.Prelude.{
  ℕ, zero, suc, ◌==◌, ◌||◌, Option, none, some, List, [], ◌∷◌, ◌++◌, length, take, drop, ltb,
  if◌then◌else◌,
}
use pilot_langgraph.Prelude.Result.{Exc, overflow_error, Result, ok, raise}
use pilot_langgraph.Ipc.Bytes.{Bytes, Text, Utf8, pack_u32, read_u32}
use pilot_langgraph.Ipc.Encode.{max_message_size}
use pilot_langgraph.Client.Connection.{Conn, handle_message, close}

-- `_send_raw_locked`
unfoldable pub send_raw : Bytes → Result Bytes
send_raw payload = elim (pack_u32 (length payload)) [
  | raise e ↦ raise overflow_error
  | ok size ↦ ok (size ++ payload)
]

pub data Incoming : Type 0 where
  message : ℕ → Bytes → Bytes → Incoming
  incomplete : Incoming
  bad_length : ℕ → Incoming

-- The message, and what is behind it.
pub split_message : Bytes → Bytes → Incoming
split_message [] rest = incomplete
split_message (cmd ∷ payload) rest = message cmd payload rest

pub take_message : ℕ → Bytes → Incoming
take_message n buf =
    if ltb (length buf) n then incomplete else split_message (take n buf) (drop n buf)

-- `readexactly(4)`, the test of the length, and `readexactly(length)`.
unfoldable pub read_frame : Bytes → Incoming
unfolding take_message split_message
read_frame buf = if ltb (length buf) 4 then incomplete else elim (read_u32 buf) [
  | raise e ↦ incomplete
  | ok n ↦ if (n == 0) || ltb max_message_size n then bad_length n else take_message n (drop 4 buf)
]

-- Why the loop ends: the socket ends, between two frames or within one, or a length is not within
-- its bounds, or a handler raises.
pub data LoopEnd : Type 0 where
  end_of_socket : LoopEnd
  invalid_length : ℕ → LoopEnd
  raised : Exc → LoopEnd
  out_of_fuel : LoopEnd

module _ (u : Utf8) where
  -- The turns of the loop on a connection that is not closed; handling a message does not close it.
  -- Every frame takes at least five bytes, so a fuel above their number is enough.
  unfoldable pub read_loop : ℕ → Bytes → Conn → Conn × LoopEnd
  read_loop zero buf s = (s, out_of_fuel)
  read_loop (suc fuel) buf s = elim (read_frame buf) [
    | incomplete ↦ (s, end_of_socket)
    | bad_length n ↦ (s, invalid_length n)
    | message cmd payload rest ↦ elim (handle_message u cmd payload s) [
      | raise e ↦ (s, raised e)
      | ok t ↦ read_loop fuel rest t
    ]
  ]

  -- `_read_loop` as a whole, with its test for a closed connection and its `finally`, which closes
  -- the connection.
  unfoldable pub run_loop : Option Text → Bytes → Conn → Conn
  unfolding read_loop
  run_loop reason buf s =
      close reason (if s.closed then s else (read_loop (suc (length buf)) buf s).0)
