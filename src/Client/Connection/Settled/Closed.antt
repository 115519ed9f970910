-- ===== src/Client/Connection/Settled/Closed.antt =====
-- No message closes a connection.
use pilot_langgraph.Prelude.{
  ℕ, ◌≡◌, refl, ap, sym, ◌∙◌, inl, inr, Bool-cases, Option, none, some, List, [], ◌∷◌, ◌==◌,
  value_of, nat_HasEq,
}
use pilot_langgraph.Prelude.Result.{Result, ok, raise, ◌>>=◌}
use pilot_langgraph.Ipc.Bytes.{Bytes, Text, Utf8}
use pilot_langgraph.Ipc.Encode.{cmd_recv, cmd_accept, cmd_close_ok, cmd_recv_from, cmd_error}
use pilot_langgraph.Ipc.Parse.{
  Datagram, AcceptedConn, parse_recv, parse_accept, parse_close_ok, parse_datagram, parse_error,
}
use pilot_langgraph.Client.Connection.{
  Conn, Item, items_of, on_recv, on_close_ok, on_accept, on_datagram, on_some, handle_message,
  deliver_to_waiter, first_waiter, fail_oldest_waiter,
}

-- A step leaves the flag alone.
abbrev Keeps : Conn → Conn → Type 0
Keeps s t = t.closed ≡ s.closed

on_recv-Keeps : (p : ℕ × Bytes) (s : Conn) → Keeps s (on_recv p.0 p.1 s)
unfolding on_recv
on_recv-Keeps p s = go (value_of p.0 s.recv_queues) refl
  where
    go : (v : Option (List Item)) → value_of p.0 s.recv_queues ≡ v → Keeps s (on_recv p.0 p.1 s)
    go none e = rw (on_recv, e) refl
    go (some q) e = rw (on_recv, e) refl

on_close_ok-Keeps : (i : ℕ) (s : Conn) → Keeps s (on_close_ok i s)
unfolding on_close_ok
on_close_ok-Keeps i s = go (value_of i s.recv_queues) refl
  where
    go : (v : Option (List Item)) → value_of i s.recv_queues ≡ v → Keeps s (on_close_ok i s)
    go none e = rw (on_close_ok, e) refl
    go (some q) e = rw (on_close_ok, e) refl

on_accept-Keeps : (a : AcceptedConn) (s : Conn) → Keeps s (on_accept a s)
unfolding on_accept
on_accept-Keeps a s = go (value_of a.local_port s.accept_queues) refl
  where
    go :
        (v : Option (List AcceptedConn))
        → value_of a.local_port s.accept_queues ≡ v
        → Keeps s (on_accept a s)
    go none e = rw (on_accept, e) refl
    go (some q) e = rw (on_accept, e) refl

on_datagram-Keeps : (d : Datagram) (s : Conn) → Keeps s (on_datagram d s)
unfolding on_datagram
on_datagram-Keeps d s = go (value_of d.dst_port s.dgram_queues) refl
  where
    go :
        (v : Option (List (List Datagram)))
        → value_of d.dst_port s.dgram_queues ≡ v
        → Keeps s (on_datagram d s)
    go none e = rw (on_datagram, e) refl
    go (some q) e = rw (on_datagram, e) refl

deliver-Keeps : (cmd : ℕ) (p : Bytes) (s : Conn) → Keeps s (deliver_to_waiter cmd p s)
unfolding deliver_to_waiter
deliver-Keeps cmd p s = go (items_of (value_of cmd s.waiters)) refl
  where
    go : (v : List ℕ) → items_of (value_of cmd s.waiters) ≡ v → Keeps s (deliver_to_waiter cmd p s)
    go [] e = rw (deliver_to_waiter, e) refl
    go (f ∷ q) e = rw (deliver_to_waiter, e) refl

fail_oldest-Keeps : (err : Option Text) (s : Conn) → Keeps s (fail_oldest_waiter err s)
unfolding fail_oldest_waiter
fail_oldest-Keeps err s = go (first_waiter s.waiters) refl
  where
    go :
        (v : Option (ℕ × ℕ × List ℕ))
        → first_waiter s.waiters ≡ v
        → Keeps s (fail_oldest_waiter err s)
    go none e = rw (fail_oldest_waiter, e) refl
    go (some w) e = rw (fail_oldest_waiter, e) refl

on_some-Keeps :
    {A : Type 0} (f : A → Conn → Conn)
    → ((a : A) (s : Conn) → Keeps s (f a s))
    → (o : Option A) (s : Conn) → Keeps s (on_some f o s)
on_some-Keeps f k none s = refl
on_some-Keeps f k (some a) s = k a s

parsed-Keeps :
    {A : Type 0} (r : Result A) (f : A → Conn) (s t : Conn)
    → ((a : A) → Keeps s (f a))
    → (do a ← r; ok (f a)) ≡ ok t
    → Keeps s t
parsed-Keeps (raise x) f s t k e = cc
parsed-Keeps (ok a) f s t k e = let same : f a ≡ t = cc in ap (λ c. c.closed) (sym same) ∙ k a

pub message-closed :
    (u : Utf8) (cmd : ℕ) (payload : Bytes) (s t : Conn)
    → handle_message u cmd payload s ≡ ok t
    → t.closed ≡ s.closed
unfolding handle_message
message-closed u cmd payload s t = elim (Bool-cases (cmd == cmd_recv)) [
  | inl e1 ↦ rw e1 (
      parsed-Keeps (parse_recv payload) (λ o. on_some (λ p. on_recv p.0 p.1) o s) s t
        (λ o. on_some-Keeps (λ p. on_recv p.0 p.1) on_recv-Keeps o s))
  | inr e1 ↦ elim (Bool-cases (cmd == cmd_accept)) [
    | inl e2 ↦
        rw (e1, e2)
          (parsed-Keeps (parse_accept payload) (λ o. on_some on_accept o s) s t
            (λ o. on_some-Keeps on_accept on_accept-Keeps o s))
    | inr e2 ↦ elim (Bool-cases (cmd == cmd_close_ok)) [
      | inl e3 ↦
          rw (e1, e2, e3)
            (parsed-Keeps (parse_close_ok payload)
              (λ o. deliver_to_waiter cmd payload (on_some on_close_ok o s)) s t
              (λ o.
                deliver-Keeps cmd payload (on_some on_close_ok o s)
                ∙ on_some-Keeps on_close_ok on_close_ok-Keeps o s))
      | inr e3 ↦ elim (Bool-cases (cmd == cmd_recv_from)) [
        | inl e4 ↦
            rw (e1, e2, e3, e4)
              (parsed-Keeps (parse_datagram payload) (λ o. on_some on_datagram o s) s t
                (λ o. on_some-Keeps on_datagram on_datagram-Keeps o s))
        | inr e4 ↦ elim (Bool-cases (cmd == cmd_error)) [
          | inl e5 ↦
              rw (e1, e2, e3, e4, e5)
                (λ e.
                  let same : fail_oldest_waiter (parse_error u payload) s ≡ t = cc in
                  ap (λ c. c.closed) (sym same) ∙ fail_oldest-Keeps (parse_error u payload) s)
          | inr e5 ↦
              rw (e1, e2, e3, e4, e5)
                (λ e.
                  let same : deliver_to_waiter cmd payload s ≡ t = cc in
                  ap (λ c. c.closed) (sym same) ∙ deliver-Keeps cmd payload s)
        ]
      ]
    ]
  ]
]
