-- ===== src/Client/Connection/Ends.antt =====
-- The other ends in asyncio_client.py: `Stream.close`, `Listener.close`, a datagram subscription, and
-- `force_close_sync`. The message that a closing stream sends has no part in the tables.
use pilot_langgraph.Prelude.{
  ℕ, zero, suc, ◌≡◌, refl, ap, ◌∙◌, none, some, List, [], ◌∷◌, ◌++◌, if◌then◌else◌, true, All,
  arith, Dict, value_of, assign, value_of-assign, eqb_self, nat_HasEq,
}
use pilot_langgraph.Client.Connection.{
  Conn, Item, items_of, removed, end_all, hold, on_close_ok, register_recv_queue,
}
use pilot_langgraph.Client.Connection.Fifo.{IsOpenFor, arrive_all, items_for, arrive_all-queued}
use pilot_langgraph.Client.Stream.{read_until_eof}

-- The queue goes out of the table, and the stream keeps it.
unfoldable pub close_stream : ℕ → Conn → Conn
close_stream conn_id s = record s {
  recv_queues = removed conn_id s.recv_queues;
  left = assign conn_id (items_of (value_of conn_id s.recv_queues)) s.left;
}

unfoldable pub close_listener : ℕ → Conn → Conn
close_listener port s = record s { accept_queues = removed port s.accept_queues }

-- `__aenter__` and `__aexit__` of `_PortSubscription`: its queue stands at a place of the port's
-- list.
unfoldable pub subscribe : ℕ → Conn → Conn
subscribe port s = record s {
  dgram_queues = assign port (items_of (value_of port s.dgram_queues) ++ [] ∷ []) s.dgram_queues;
}

abbrev pub without_at : {A : Type 0} → ℕ → List A → List A
without_at i [] = []
without_at zero (x ∷ xs) = xs
without_at (suc i) (x ∷ xs) = x ∷ without_at i xs

unfoldable pub unsubscribe : ℕ → ℕ → Conn → Conn
unsubscribe port i s = record s {
  dgram_queues =
      assign port (without_at i (items_of (value_of port s.dgram_queues))) s.dgram_queues;
}

-- Of an open connection only the receive queues learn of it.
unfoldable pub force_close_sync : Conn → Conn
force_close_sync s =
    if s.closed then s else record s { closed = true; recv_queues = end_all s.recv_queues }

value_of-removed_self : {V : Type 0} (c : ℕ) (d : Dict ℕ V) → value_of c (removed c d) ≡ none
value_of-removed_self c [] = refl
value_of-removed_self c ((j, v) ∷ d) = ground (arith, value_of-removed_self c d)

-- Where nothing waits for a connection: when its stream has been closed, the `cmdCloseOK` by which
-- the daemon answers that is kept for a later stream. A queue that is then made for a new
-- connection with the same id starts with the end of the stream, and all that arrives for it comes
-- behind that end, so a reader of the new stream gets none of it. The new connection is not ended
-- meanwhile.
pub closed_id_again :
    (c : ℕ) (later : List (ℕ × Item)) (s : Conn)
    → All (IsOpenFor c) later
    → value_of c s.pending_recv ≡ none
    → let t = register_recv_queue c (on_close_ok c (close_stream c s)) in
      (q : List Item) × (value_of c (arrive_all later t).recv_queues ≡ some q)
      × (q ≡ none ∷ items_for c later)
      × (read_until_eof q ≡ [])
unfolding register_recv_queue close_stream read_until_eof on_close_ok
closed_id_again c later s a e =
    let u = close_stream c s in
    let kept : on_close_ok c u ≡ hold c none u =
      rw (on_close_ok, value_of-removed_self c s.recv_queues) refl in
    let held : value_of c (hold c none u).pending_recv ≡ some (none ∷ []) =
      rw
        (
          value_of-assign c c (items_of (value_of c s.pending_recv) ++ none ∷ []) s.pending_recv,
          eqb_self ⦃h = nat_HasEq⦄ c,
          e,
        )
        refl in
    let t = register_recv_queue c (on_close_ok c u) in
    let queue : value_of c t.recv_queues ≡ some (none ∷ []) =
      value_of-assign c c (items_of (value_of c (on_close_ok c u).pending_recv))
        (on_close_ok c u).recv_queues
      ∙ rw (eqb_self ⦃h = nat_HasEq⦄ c) (
          ap (λ v. some (items_of (value_of c v.pending_recv))) kept
          ∙ ap (λ o. some (items_of o)) held) in
    (none ∷ items_for c later, arrive_all-queued c later t (none ∷ []) a queue, refl, refl)
