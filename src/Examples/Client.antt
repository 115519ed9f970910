-- ===== src/Examples/Client.antt =====
-- The connection of asyncio_client.py at concrete messages.
use pilot_langgraph.Prelude.{
  inl, inr, false, ℕ, ◌≡◌, refl, List, [], ◌∷◌, ◌++◌, map, drop, some, none, value_of, nat_HasEq,
  arith,
}
use pilot_langgraph.Prelude.{Option, zero, suc, ◌<◌, true, String}
use pilot_langgraph.Json.{Json, dict, bool, num, str, null, get, get?, truthy}
use pilot_langgraph.Prelude.Result.{connection_error_wrapper}
use pilot_langgraph.Server.Types.{
  Message, no_handler, unauthorized, type_name, Frame, chunk, last, failure, frame_json,
}
use pilot_langgraph.Client.Errors.{error_type, from_reply, from_reply-failure}
use pilot_langgraph.Client.Runnable.{
  ended, Outcome, answered, broken, ainvoke_once, ainvoke_with_retries, drain,
}
use pilot_langgraph.Client.Runnable.Replies.{
  amounts_to, ainvoke_once-frames, sleeps, TriedAgain, ainvoke_with_retries-settles,
}
use pilot_langgraph.Client.Runnable.Lines.{IsLine, on_wire, drain-lines}
use pilot_langgraph.Prelude.Result.{ok, raise, connection_error}
use pilot_langgraph.Ipc.Bytes.{Bytes}
use pilot_langgraph.Ipc.Parse.Total.{Answers, parsers_total}
use pilot_langgraph.Ipc.Parse.{
  parse_datagram, parse_accept, parse_recv, parse_dial_ok, parse_bind_ok, parse_close_ok,
}
use pilot_langgraph.Client.Connection.{
  Conn, Item, resolved, pending, register_recv_queue, deliver_to_waiter,
}
use pilot_langgraph.Client.Connection.Fifo.{arrive_all, items_for, arrive_all-register}
use pilot_langgraph.Client.Connection.Waiters.{
  deliver_all, deliver_all-fifo, after_timeout, late_reply,
}
use pilot_langgraph.Client.Stream.{write, chunks, read_until_eof, IsWritten, write-read}

abbrev short_payload : Bytes
short_payload = 0 ∷ 1 ∷ 2 ∷ 3 ∷ 4 ∷ []

parsers_total_example :
    Answers 10 short_payload (parse_datagram short_payload)
    × Answers 14 short_payload (parse_accept short_payload)
    × Answers 4 short_payload (parse_recv short_payload)
    × Answers 4 short_payload (parse_dial_ok short_payload)
    × Answers 2 short_payload (parse_bind_ok short_payload)
    × Answers 4 short_payload (parse_close_ok short_payload)
parsers_total_example = parsers_total short_payload

abbrev connected : Conn
connected = record {
  closed = false;
  futures = (0, pending) ∷ (1, pending) ∷ [];
  next_future = 2;
  waiters = (4, 0 ∷ 1 ∷ []) ∷ [];
  recv_queues = [];
  left = [];
  pending_recv = [];
  accept_queues = [];
  dgram_queues = [];
}

abbrev early : List (ℕ × Item)
early = (7, some (1 ∷ [])) ∷ (8, some (9 ∷ [])) ∷ (7, some (2 ∷ [])) ∷ []

abbrev behind : List (ℕ × Item)
behind = (8, none) ∷ (7, some (3 ∷ [])) ∷ []

arrive_all-register_example :
    value_of 7 (arrive_all behind (register_recv_queue 7 (arrive_all early connected))).recv_queues
    ≡ some (items_for 7 early ++ items_for 7 behind)
arrive_all-register_example =
    arrive_all-register 7 early behind connected (tt, (tt, (tt, tt))) (refl, (tt, tt)) refl refl

deliver_all-fifo_example :
    value_of 1 (deliver_all 4 ((5 ∷ []) ∷ (6 ∷ []) ∷ []) connected).futures
    ≡ some (resolved (6 ∷ []))
deliver_all-fifo_example =
    deliver_all-fifo 4 (0 ∷ 1 ∷ []) ((5 ∷ []) ∷ (6 ∷ []) ∷ []) connected refl (refl, (refl, tt))
      ((refl, tt), (tt, tt)) 1 1 (6 ∷ []) refl refl

late_reply_example :
    value_of
      (after_timeout 34 connected).0
      (deliver_to_waiter 34 (1 ∷ []) (after_timeout 34 connected).1).futures
    ≡ some (resolved (1 ∷ []))
late_reply_example = late_reply 34 connected (1 ∷ []) refl

write-read_example :
    (messages : List Bytes) × (write false 7 short_payload ≡ ok messages)
    × IsWritten 7 (chunks short_payload) messages
    × (read_until_eof (map some (map (drop 5) messages) ++ none ∷ []) ≡ short_payload)
    × (write true 7 short_payload ≡ raise connection_error)
write-read_example = write-read 7 short_payload (omega arith)

abbrev frames : List Frame
frames = chunk (num 1) ∷ last null ∷ []

abbrev shown : Message → String
shown m = "text"

ainvoke_once-frames_example :
    ainvoke_once (map (frame_json shown) frames, ended) ≡ amounts_to shown null frames
ainvoke_once-frames_example = ainvoke_once-frames shown frames

-- The first attempt loses its connection.
abbrev once : ℕ → Outcome
once zero = broken connection_error_wrapper
once (suc i) = answered (num 1)

first_fails : (j : ℕ) → j < 1 → TriedAgain (once j)
first_fails zero h = inl refl
first_fails (suc j) h = absurd (omega arith)

second_holds : ¬ TriedAgain (once 1)
second_holds (inl e) = cc
second_holds (inr e) = cc

ainvoke_with_retries-settles_example : ainvoke_with_retries once 2 1500 ≡ (once 1, sleeps 1500 0 1)
ainvoke_with_retries-settles_example =
    ainvoke_with_retries-settles once 2 1500 1 first_fails second_holds (omega arith)

from_reply-failure_example :
    (error_type (from_reply (frame_json shown (failure unauthorized (no_handler "f")))).cls
      ≡ type_name unauthorized)
    × ((from_reply (frame_json shown (failure unauthorized (no_handler "f")))).message ≡ str "text")
unfolding truthy
from_reply-failure_example = from_reply-failure shown unauthorized (no_handler "f") refl

-- A parser that knows one line.
abbrev closing : Json
closing = dict (("done", bool true) ∷ [])

abbrev loads : Bytes → Option Json
loads [] = none
loads (b ∷ bytes) = some closing

abbrev one_line : List (Bytes × Json)
one_line = (65 ∷ [], closing) ∷ []

closing-IsLine : IsLine loads (65 ∷ [], closing)
closing-IsLine = record { parses = refl; no_newline = (refl, tt); not_empty = refl }

drain-lines_example :
    drain loads 2 (on_wire one_line)
    ≡ record { frames = map (λ l. l.1) one_line; finished = true; buf = [] }
unfolding get get? truthy
drain-lines_example = drain-lines loads 2 one_line (omega arith) (closing-IsLine, tt) refl
