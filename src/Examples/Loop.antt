-- ===== src/Examples/Loop.antt =====
-- The read loop of asyncio_client.py over concrete bytes.
use pilot_langgraph.Prelude.{
  ◌≡◌, refl, false, none, ℕ, some, List, [], ◌∷◌, ◌++◌, arith, value_of, nat_HasEq,
}
use pilot_langgraph.Prelude.Result.{ok}
use pilot_langgraph.Ipc.Bytes.{Bytes, Utf8}
use pilot_langgraph.Client.Connection.{
  Conn, Item, on_close_ok, register_recv_queue, request, handle_message, deliver_to_waiter,
}
use pilot_langgraph.Client.Connection.Loop.{read_loop, run_loop}
use pilot_langgraph.Client.Connection.Loop.Framing.{wire, read_loop-wire, handle_all}
use pilot_langgraph.Client.Connection.Fifo.{arrive_all, items_for}
use pilot_langgraph.Client.Connection.Ends.{close_stream, closed_id_again}
use pilot_langgraph.Client.Stream.{read_until_eof}
use pilot_langgraph.Client.Connection.Settled.{is_pending}
use pilot_langgraph.Client.Connection.Settled.Steps.{Reach, start, then_, requested}
use pilot_langgraph.Client.Connection.Settled.Close.{run_loop-settled}

abbrev ascii : Utf8
ascii = record { encode = λ t. t; decode = λ b. b; decode-encode = λ t. refl }

abbrev quiet : Conn
quiet = record {
  closed = false;
  futures = [];
  next_future = 0;
  waiters = [];
  recv_queues = [];
  left = [];
  pending_recv = [];
  accept_queues = [];
  dgram_queues = [];
}

-- Two requests wait, one reply comes, and then the socket ends.
abbrev asked : Conn
asked = (request 14 (request 14 quiet).1).1

asked-Reach : Reach ascii quiet asked
asked-Reach = then_ (then_ start (requested 14)) (requested 14)

abbrev last_bytes : Bytes
last_bytes = 0 ∷ 0 ∷ 0 ∷ 2 ∷ 14 ∷ 5 ∷ []

run_loop-settled_example :
    is_pending (value_of 1 (run_loop ascii none last_bytes asked).futures) ≡ false
unfolding request
run_loop-settled_example =
    run_loop-settled ascii none last_bytes quiet asked refl asked-Reach refl 1

-- A frame with a reply, and two bytes of the next one.
abbrev answered : Conn
answered = deliver_to_waiter 14 (5 ∷ []) asked

handled : handle_all ascii ((14, 5 ∷ []) ∷ []) asked ≡ ok answered
unfolding handle_message
handled = refl

read_loop-wire_example :
    read_loop ascii 3 (wire ((14, 5 ∷ []) ∷ []) ++ 0 ∷ 0 ∷ []) asked
    ≡ read_loop ascii 2 (0 ∷ 0 ∷ []) answered
read_loop-wire_example =
    read_loop-wire ascii ((14, 5 ∷ []) ∷ []) (0 ∷ 0 ∷ []) asked answered 3 2 refl (omega arith, tt)
      handled

-- The stream 7 is closed, and a new connection gets its number and then data.
abbrev data_for_7 : List (ℕ × Item)
data_for_7 = (7, some (1 ∷ [])) ∷ []

closed_id_again_example :
    let t = register_recv_queue 7 (on_close_ok 7 (close_stream 7 quiet)) in
    (q : List Item) × (value_of 7 (arrive_all data_for_7 t).recv_queues ≡ some q)
    × (q ≡ none ∷ items_for 7 data_for_7)
    × (read_until_eof q ≡ [])
closed_id_again_example = closed_id_again 7 data_for_7 quiet (tt, tt) refl
