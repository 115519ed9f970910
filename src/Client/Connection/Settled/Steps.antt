-- ===== src/Client/Connection/Settled/Steps.antt =====
-- What happens to a connection, and that each step keeps every pending future in a queue.
use pilot_langgraph.Prelude.{
  ℕ, ◌≡◌, refl, sym, ap, subst, ◌∙◌, inl, inr, true, false, ◌||◌, Bool-cases, Option, none, some,
  List, [], ◌∷◌, ◌++◌, ◌==◌, arith, value_of, assign, value_of-assign, nat_HasEq,
}
use pilot_langgraph.Prelude.Result.{Result, ok, raise, ◌>>=◌}
use pilot_langgraph.Ipc.Bytes.{Bytes, Utf8}
use pilot_langgraph.Ipc.Encode.{cmd_recv, cmd_accept, cmd_close_ok, cmd_recv_from, cmd_error}
use pilot_langgraph.Ipc.Parse.{
  Datagram, AcceptedConn, parse_recv, parse_accept, parse_close_ok, parse_datagram, parse_error,
  parse_bind_ok, parse_dial_ok,
}
use pilot_langgraph.Client.Connection.{
  Conn, Item, pending, cancelled, items_of, on_recv, on_close_ok, on_accept, on_datagram, on_some,
  handle_message, deliver_to_waiter, register_recv_queue, request, remove, request_timeout,
  listened, dialled, accept,
}
use pilot_langgraph.Client.Connection.Settled.{
  is_in, waits, is_pending, IsAwaited, settle-pending, waits-assign, waits-assigned,
  deliver-IsAwaited, fail_oldest-IsAwaited,
}

is_in-append : (g f : ℕ) (q : List ℕ) → is_in g (q ++ f ∷ []) ≡ is_in g q || (f == g)
unfolding is_in
is_in-append g f [] = ground arith
is_in-append g f (x ∷ q) = ground (arith, is_in-append g f q)

is_in-remove : (g f : ℕ) (q : List ℕ) → (f == g) ≡ false → is_in g (remove f q) ≡ is_in g q
unfolding is_in
is_in-remove g f [] ne = refl
is_in-remove g f (x ∷ q) ne = ground (arith, is_in-remove g f q)

-- Neither the futures nor the queues of waiters change.
abbrev Untouched : Conn → Conn → Type 0
Untouched s t = (t.futures ≡ s.futures) × (t.waiters ≡ s.waiters)

Untouched-IsAwaited : (s t : Conn) → Untouched s t → IsAwaited s → IsAwaited t
unfolding IsAwaited
Untouched-IsAwaited s t (ef, ew) h g pend =
    ap (waits g) ew ∙ h g (ap (λ d. is_pending (value_of g d)) (sym ef) ∙ pend)

on_recv-Untouched : (i : ℕ) (b : Bytes) (s : Conn) → Untouched s (on_recv i b s)
unfolding on_recv
on_recv-Untouched i b s = go (value_of i s.recv_queues) refl
  where
    go : (v : Option (List Item)) → value_of i s.recv_queues ≡ v → Untouched s (on_recv i b s)
    go none e = rw (on_recv, e) (refl, refl)
    go (some q) e = rw (on_recv, e) (refl, refl)

on_close_ok-Untouched : (i : ℕ) (s : Conn) → Untouched s (on_close_ok i s)
unfolding on_close_ok
on_close_ok-Untouched i s = go (value_of i s.recv_queues) refl
  where
    go : (v : Option (List Item)) → value_of i s.recv_queues ≡ v → Untouched s (on_close_ok i s)
    go none e = rw (on_close_ok, e) (refl, refl)
    go (some q) e = rw (on_close_ok, e) (refl, refl)

on_accept-Untouched : (a : AcceptedConn) (s : Conn) → Untouched s (on_accept a s)
unfolding on_accept
on_accept-Untouched a s = go (value_of a.local_port s.accept_queues) refl
  where
    go :
        (v : Option (List AcceptedConn))
        → value_of a.local_port s.accept_queues ≡ v
        → Untouched s (on_accept a s)
    go none e = rw (on_accept, e) (refl, refl)
    go (some q) e = rw (on_accept, e) (refl, refl)

on_datagram-Untouched : (d : Datagram) (s : Conn) → Untouched s (on_datagram d s)
unfolding on_datagram
on_datagram-Untouched d s = go (value_of d.dst_port s.dgram_queues) refl
  where
    go :
        (v : Option (List (List Datagram)))
        → value_of d.dst_port s.dgram_queues ≡ v
        → Untouched s (on_datagram d s)
    go none e = rw (on_datagram, e) (refl, refl)
    go (some q) e = rw (on_datagram, e) (refl, refl)

on_some-Untouched :
    {A : Type 0} (f : A → Conn → Conn) (s : Conn)
    → ((a : A) → Untouched s (f a s))
    → (o : Option A) → Untouched s (on_some f o s)
on_some-Untouched f s h none = (refl, refl)
on_some-Untouched f s h (some a) = h a

-- Of a handler that reads its message first.
parsed-IsAwaited :
    {A : Type 0} (m : Result A) (k : A → Conn) {t : Conn}
    → ((a : A) → IsAwaited (k a))
    → (m >>= (λ a. ok (k a))) ≡ ok t
    → IsAwaited t
parsed-IsAwaited (ok a) k {t} h e = let same : k a ≡ t = cc in subst IsAwaited same (h a)
parsed-IsAwaited (raise x) k h e = cc

module _ (s : Conn) (h : IsAwaited s) where
  pub message-IsAwaited :
      (u : Utf8) (cmd : ℕ) (payload : Bytes) {t : Conn}
      → handle_message u cmd payload s ≡ ok t
      → IsAwaited t
  unfolding handle_message
  message-IsAwaited u cmd payload = elim (Bool-cases (cmd == cmd_recv)) [
    | inl e1 ↦ rw e1 (
        parsed-IsAwaited (parse_recv payload) (λ o. on_some (λ p. on_recv p.0 p.1) o s)
          (λ o.
            Untouched-IsAwaited s (on_some (λ p. on_recv p.0 p.1) o s)
              (on_some-Untouched (λ p. on_recv p.0 p.1) s (λ p. on_recv-Untouched p.0 p.1 s) o) h))
    | inr e1 ↦ elim (Bool-cases (cmd == cmd_accept)) [
      | inl e2 ↦
          rw (e1, e2)
            (parsed-IsAwaited (parse_accept payload) (λ o. on_some on_accept o s)
              (λ o.
                Untouched-IsAwaited s (on_some on_accept o s)
                  (on_some-Untouched on_accept s (λ a. on_accept-Untouched a s) o) h))
      | inr e2 ↦ elim (Bool-cases (cmd == cmd_close_ok)) [
        | inl e3 ↦
            rw (e1, e2, e3)
              (parsed-IsAwaited (parse_close_ok payload)
                (λ o. deliver_to_waiter cmd payload (on_some on_close_ok o s))
                (λ o.
                  deliver-IsAwaited (on_some on_close_ok o s)
                    (Untouched-IsAwaited s (on_some on_close_ok o s)
                      (on_some-Untouched on_close_ok s (λ i. on_close_ok-Untouched i s) o) h)
                    cmd payload))
        | inr e3 ↦ elim (Bool-cases (cmd == cmd_recv_from)) [
          | inl e4 ↦
              rw (e1, e2, e3, e4)
                (parsed-IsAwaited (parse_datagram payload) (λ o. on_some on_datagram o s)
                  (λ o.
                    Untouched-IsAwaited s (on_some on_datagram o s)
                      (on_some-Untouched on_datagram s (λ d. on_datagram-Untouched d s) o) h))
          | inr e4 ↦ elim (Bool-cases (cmd == cmd_error)) [
            | inl e5 ↦
                rw (e1, e2, e3, e4, e5)
                  (λ e. subst IsAwaited (cc e) (fail_oldest-IsAwaited s h (parse_error u payload)))
            | inr e5 ↦
                rw (e1, e2, e3, e4, e5)
                  (λ e. subst IsAwaited (cc e) (deliver-IsAwaited s h cmd payload))
          ]
        ]
      ]
    ]
  ]

  -- A queue that is written anew keeps its waiter.
  requeued :
      (g expect : ℕ) (q : List ℕ)
      → is_pending (value_of g s.futures) ≡ true
      → (is_in g (items_of (value_of expect s.waiters)) ≡ true → is_in g q ≡ true)
      → waits g (assign expect q s.waiters) ≡ true
  unfolding IsAwaited
  requeued g expect q before keep = elim (waits-assign g expect q s.waiters (h g before)) [
    | inl w ↦ w
    | inr i ↦ waits-assigned g expect q s.waiters (keep i)
  ]

  request-IsAwaited : (expect : ℕ) → IsAwaited (request expect s).1
  unfolding IsAwaited request
  request-IsAwaited expect g pend =
      let old = items_of (value_of expect s.waiters) in
      let joined = is_in-append g s.next_future old in
      elim (Bool-cases (s.next_future == g)) [
        | inl e ↦
            waits-assigned g expect (old ++ s.next_future ∷ []) s.waiters
              (ground (arith, joined, e))
        | inr e ↦
            let before : is_pending (value_of g s.futures) ≡ true =
              ground (arith, pend, value_of-assign s.next_future g pending s.futures, e) in
            requeued g expect (old ++ s.next_future ∷ []) before (λ i. ground (arith, joined, i))
      ]

  timeout-IsAwaited : (expect f : ℕ) → IsAwaited (request_timeout expect f s)
  unfolding IsAwaited request_timeout
  timeout-IsAwaited expect f g pend =
      let old = items_of (value_of expect s.waiters) in
      let p = settle-pending f g cancelled s.futures refl in
      let apart : (f == g) ≡ false = ground (arith, p, pend) in
      let before : is_pending (value_of g s.futures) ≡ true = ground (arith, p, pend, apart) in
      requeued g expect (remove f old) before (λ i. is_in-remove g f old apart ∙ i)

  registered-IsAwaited : (i : ℕ) → IsAwaited (register_recv_queue i s)
  unfolding register_recv_queue
  registered-IsAwaited i = Untouched-IsAwaited s (register_recv_queue i s) (refl, refl) h

-- What happens to a connection before it is closed: a message from the daemon, a request of a caller,
-- the timeout of one, and what the callers of `listen`, `dial` and `accept` do to the queues.
pub data Step (u : Utf8) (s : Conn) : Conn → Type 0 where
  received :
      {t : Conn} (cmd : ℕ) (payload : Bytes) → handle_message u cmd payload s ≡ ok t → Step u s t
  requested : (expect : ℕ) → Step u s (request expect s).1
  gave_up : (expect f : ℕ) → Step u s (request_timeout expect f s)
  bound : {t : Conn} (port : ℕ) (body : Bytes) → listened body s ≡ ok (port, t) → Step u s t
  connected : {t : Conn} (i : ℕ) (body : Bytes) → dialled body s ≡ ok (i, t) → Step u s t
  accepted : {t : Conn} (port : ℕ) (a : AcceptedConn) → accept port s ≡ some (a, t) → Step u s t

pub data Reach (u : Utf8) (s : Conn) : Conn → Type 0 where
  start : Reach u s s
  then_ : {t v : Conn} → Reach u s t → Step u t v → Reach u s v

listened-Untouched :
    (port : ℕ) (body : Bytes) (s t : Conn) → listened body s ≡ ok (port, t) → Untouched s t
unfolding listened
listened-Untouched port body s t = go (parse_bind_ok body) refl
  where
    go :
        (v : Result (Option ℕ))
        → parse_bind_ok body ≡ v
        → listened body s ≡ ok (port, t)
        → Untouched s t
    go (raise x) e = rw (listened, e) (λ p. cc)
    go (ok none) e = rw (listened, e) (λ p. cc)
    go (ok (some n)) e = rw (listened, e) (λ p. ground (arith, p))

dialled-Untouched : (i : ℕ) (body : Bytes) (s t : Conn) → dialled body s ≡ ok (i, t) → Untouched s t
unfolding dialled register_recv_queue
dialled-Untouched i body s t = go (parse_dial_ok body) refl
  where
    go :
        (v : Result (Option ℕ))
        → parse_dial_ok body ≡ v
        → dialled body s ≡ ok (i, t)
        → Untouched s t
    go (raise x) e = rw (dialled, e) (λ p. cc)
    go (ok none) e = rw (dialled, e) (λ p. cc)
    go (ok (some n)) e = rw (dialled, e) (λ p. ground (arith, p))

accept-Untouched :
    (port : ℕ) (a : AcceptedConn) (s t : Conn) → accept port s ≡ some (a, t) → Untouched s t
unfolding accept register_recv_queue
accept-Untouched port a s t = go (items_of (value_of port s.accept_queues)) refl
  where
    go :
        (v : List AcceptedConn)
        → items_of (value_of port s.accept_queues) ≡ v
        → accept port s ≡ some (a, t)
        → Untouched s t
    go [] e = rw (accept, e) (λ p. cc)
    go (b ∷ q) e = rw (accept, e) (λ p. ground (arith, p))

Step-IsAwaited : {u : Utf8} {s t : Conn} → Step u s t → IsAwaited s → IsAwaited t
Step-IsAwaited {u} {s} (received cmd payload e) h = message-IsAwaited s h u cmd payload e
Step-IsAwaited {s = s} (requested expect) h = request-IsAwaited s h expect
Step-IsAwaited {s = s} (gave_up expect f) h = timeout-IsAwaited s h expect f
Step-IsAwaited {s = s} {t = t} (bound port body e) h =
    Untouched-IsAwaited s t (listened-Untouched port body s t e) h
Step-IsAwaited {s = s} {t = t} (connected i body e) h =
    Untouched-IsAwaited s t (dialled-Untouched i body s t e) h
Step-IsAwaited {s = s} {t = t} (accepted port a e) h =
    Untouched-IsAwaited s t (accept-Untouched port a s t e) h

pub Reach-IsAwaited : {u : Utf8} {s t : Conn} → Reach u s t → IsAwaited s → IsAwaited t
Reach-IsAwaited start h = h
Reach-IsAwaited (then_ r st) h = Step-IsAwaited st (Reach-IsAwaited r h)
