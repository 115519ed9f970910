-- ===== src/Client/Connection.antt =====
-- `PilotConnection` of asyncio_client.py: what its read loop does with a message, and what its
-- callers do to its tables. A future is a number with its state. A queue is its items, in order;
-- `none` is the end of the stream. A queue that leaves its table is still held by its `Stream`: it
-- moves to `left`.
pub mod Fifo
pub mod Loop
pub mod Waiters
pub mod Settled
pub mod Ends
use pilot_langgraph.Prelude.{
  ℕ, suc, ◌+◌, Bool, true, false, Option, none, some, List, [], ◌∷◌, ◌++◌, map, ◌==◌, if◌then◌else◌,
  Dict, value_of, assign, eqb, nat_HasEq,
}
use pilot_langgraph.Prelude.Result.{Result, ok, raise, ◌>>=◌, connection_error}
use pilot_langgraph.Ipc.Bytes.{Bytes, Text, Utf8}
use pilot_langgraph.Ipc.Encode.{cmd_recv, cmd_accept, cmd_close_ok, cmd_recv_from, cmd_error}
use pilot_langgraph.Ipc.Parse.{
  Datagram, AcceptedConn, parse_datagram, parse_accept, parse_recv, parse_close_ok, parse_error,
  parse_bind_ok, parse_dial_ok,
}

pub data Future : Type 0 where
  pending : Future
  resolved : Bytes → Future
  failed : Option Text → Future
  cancelled : Future

abbrev pub Item : Type 0
Item = Option Bytes

pub record Conn : Type 0 where
  pub closed : Bool
  pub futures : Dict ℕ Future
  pub next_future : ℕ
  pub waiters : Dict ℕ (List ℕ)
  pub recv_queues : Dict ℕ (List Item)
  pub left : Dict ℕ (List Item)
  pub pending_recv : Dict ℕ (List Item)
  pub accept_queues : Dict ℕ (List AcceptedConn)
  pub dgram_queues : Dict ℕ (List (List Datagram))

-- `d.pop(k, None)`, less what it gives.
abbrev pub removed {ℓ} : {V : Type ℓ} → ℕ → List (ℕ × V) → List (ℕ × V)
removed k [] = []
removed k ((j, v) ∷ d) = if j == k then removed k d else (j, v) ∷ removed k d

abbrev pub items_of : {A : Type 0} → Option (List A) → List A
items_of none = []
items_of (some l) = l

-- `if not fut.done(): fut.set_result(...)`, or `set_exception`.
abbrev pub settle : ℕ → Future → Dict ℕ Future → Dict ℕ Future
settle f outcome futures = elim (value_of f futures) [
  | some pending ↦ assign f outcome futures
  | _ ↦ futures
]

unfoldable pub deliver_to_waiter : ℕ → Bytes → Conn → Conn
deliver_to_waiter cmd payload s = elim (items_of (value_of cmd s.waiters)) [
  | [] ↦ s
  | f ∷ q ↦ record s {
    waiters = assign cmd q s.waiters;
    futures = settle f (resolved payload) s.futures;
  }
]

-- The first queue of the `dict` that is not empty: its key, its first future and the rest.
abbrev pub first_waiter : Dict ℕ (List ℕ) → Option (ℕ × ℕ × List ℕ)
first_waiter [] = none
first_waiter ((cmd, []) ∷ d) = first_waiter d
first_waiter ((cmd, f ∷ q) ∷ d) = some (cmd, f, q)

unfoldable pub fail_oldest_waiter : Option Text → Conn → Conn
fail_oldest_waiter err s = elim (first_waiter s.waiters) [
  | none ↦ s
  | some (cmd, f, q) ↦ record s {
    waiters = assign cmd q s.waiters;
    futures = settle f (failed err) s.futures;
  }
]

-- `self._pending_recv.setdefault(conn_id, []).append(item)`
abbrev pub hold : ℕ → Item → Conn → Conn
hold conn_id item s = record s {
  pending_recv =
      assign conn_id (items_of (value_of conn_id s.pending_recv) ++ item ∷ []) s.pending_recv;
}

unfoldable pub on_recv : ℕ → Bytes → Conn → Conn
on_recv conn_id data_ s = elim (value_of conn_id s.recv_queues) [
  | some q ↦ record s { recv_queues = assign conn_id (q ++ some data_ ∷ []) s.recv_queues }
  | none ↦ hold conn_id (some data_) s
]

unfoldable pub on_close_ok : ℕ → Conn → Conn
on_close_ok conn_id s = elim (value_of conn_id s.recv_queues) [
  | some q ↦ record s {
    recv_queues = removed conn_id s.recv_queues;
    left = assign conn_id (q ++ none ∷ []) s.left;
  }
  | none ↦ hold conn_id none s
]

unfoldable pub on_accept : AcceptedConn → Conn → Conn
on_accept accepted s = elim (value_of accepted.local_port s.accept_queues) [
  | none ↦ s
  | some q ↦ record s {
    accept_queues = assign accepted.local_port (q ++ accepted ∷ []) s.accept_queues;
  }
]

unfoldable pub on_datagram : Datagram → Conn → Conn
on_datagram dg s = elim (value_of dg.dst_port s.dgram_queues) [
  | none ↦ s
  | some qs ↦ record s {
    dgram_queues = assign dg.dst_port (map (λ q. q ++ dg ∷ []) qs) s.dgram_queues;
  }
]

-- `if parsed is None: continue`
abbrev pub on_some : {A : Type 0} → (A → Conn → Conn) → Option A → Conn → Conn
on_some f none s = s
on_some f (some a) s = f a s

module _ (u : Utf8) where
  -- The body of `_read_loop` for a message.
  unfoldable pub handle_message : ℕ → Bytes → Conn → Result Conn
  handle_message cmd payload s =
      if cmd == cmd_recv
      then (do parsed ← parse_recv payload; ok (on_some (λ p. on_recv p.0 p.1) parsed s))
      else if cmd == cmd_accept
      then (do accepted ← parse_accept payload; ok (on_some on_accept accepted s))
      else if cmd == cmd_close_ok
      then (do
        closed ← parse_close_ok payload
        ok (deliver_to_waiter cmd payload (on_some on_close_ok closed s)))
      else if cmd == cmd_recv_from
      then (do dg ← parse_datagram payload; ok (on_some on_datagram dg s))
      else if cmd == cmd_error
      then ok (fail_oldest_waiter (parse_error u payload) s)
      else ok (deliver_to_waiter cmd payload s)

-- `_register_recv_queue`: what came before the queue was made goes into it first.
unfoldable pub register_recv_queue : ℕ → Conn → Conn
register_recv_queue conn_id s = record s {
  recv_queues = assign conn_id (items_of (value_of conn_id s.pending_recv)) s.recv_queues;
  pending_recv = removed conn_id s.pending_recv;
}

-- `_request` up to its wait: a new future at the end of the queue of the reply's command.
unfoldable pub request : ℕ → Conn → ℕ × Conn
request expect s = (
  s.next_future,
  record s {
    futures = assign s.next_future pending s.futures;
    next_future = suc s.next_future;
    waiters = assign expect (items_of (value_of expect s.waiters) ++ s.next_future ∷ []) s.waiters;
  },
)

-- `deque.remove`
abbrev pub remove : ℕ → List ℕ → List ℕ
remove f [] = []
remove f (g ∷ q) = if g == f then q else g ∷ remove f q

-- The timeout of `_request`: `wait_for` cancels the future, the handler takes it out of the queue.
unfoldable pub request_timeout : ℕ → ℕ → Conn → Conn
request_timeout expect f s = record s {
  futures = settle f cancelled s.futures;
  waiters = assign expect (remove f (items_of (value_of expect s.waiters))) s.waiters;
}

-- `close`, which does nothing on a connection that is closed already: every pending waiter fails,
-- and every receive queue gets the end of its stream. (The writer and the reader task have no part in
-- the tables.)
abbrev pub settle_all : Option Text → List ℕ → Dict ℕ Future → Dict ℕ Future
settle_all err [] futures = futures
settle_all err (f ∷ fs) futures = settle_all err fs (settle f (failed err) futures)

abbrev pub fail_waiters : Option Text → Dict ℕ (List ℕ) → Dict ℕ Future → Dict ℕ Future
fail_waiters err [] futures = futures
fail_waiters err ((cmd, q) ∷ d) futures = fail_waiters err d (settle_all err q futures)

abbrev pub end_all : Dict ℕ (List Item) → Dict ℕ (List Item)
end_all [] = []
end_all ((i, q) ∷ d) = (i, q ++ none ∷ []) ∷ end_all d

abbrev pub no_waiters : Dict ℕ (List ℕ) → Dict ℕ (List ℕ)
no_waiters [] = []
no_waiters ((cmd, q) ∷ d) = (cmd, []) ∷ no_waiters d

unfoldable pub close_open : Option Text → Conn → Conn
close_open reason s = record s {
  closed = true;
  futures = fail_waiters reason s.waiters s.futures;
  waiters = no_waiters s.waiters;
  recv_queues = end_all s.recv_queues;
}

unfoldable pub close : Option Text → Conn → Conn
close reason s = if s.closed then s else close_open reason s

-- `listen` and `dial` behind their replies: the accept queue of a bound port, the receive queue of
-- a new connection. A reply that is too short is a `PilotConnectionError`.
unfoldable pub listened : Bytes → Conn → Result (ℕ × Conn)
listened body s = do
  bound ← parse_bind_ok body
  elim bound [
    | none ↦ raise connection_error
    | some port ↦ ok (port, record s { accept_queues = assign port [] s.accept_queues })
  ]

unfoldable pub dialled : Bytes → Conn → Result (ℕ × Conn)
dialled body s = do
  parsed ← parse_dial_ok body
  elim parsed [
    | none ↦ raise connection_error
    | some conn_id ↦ ok (conn_id, register_recv_queue conn_id s)
  ]

-- `Listener.accept`: the first accepted connection of the port gets its receive queue. `none` is a
-- wait.
unfoldable pub accept : ℕ → Conn → Option (AcceptedConn × Conn)
accept port s = elim (items_of (value_of port s.accept_queues)) [
  | [] ↦ none
  | accepted ∷ q ↦ some (
    accepted,
    register_recv_queue accepted.conn_id
        (record s { accept_queues = assign port q s.accept_queues }),
  )
]
