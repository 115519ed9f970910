-- ===== src/Client/Connection/Settled/Close.antt =====
-- The end of a connection that is open, by `close` or behind its read loop.
use pilot_langgraph.Prelude.{
  ℕ, zero, suc, ◌≡◌, refl, ◌∙◌, ap, false, Option, true, List, [], ◌∷◌, if◌then◌else◌, arith, Dict,
  value_of, nat_HasEq, length,
}
use pilot_langgraph.Prelude.Result.{Result, ok, raise}
use pilot_langgraph.Ipc.Bytes.{Bytes, Text, Utf8}
use pilot_langgraph.Client.Connection.{
  Conn, Future, failed, settle, handle_message, settle_all, fail_waiters, close_open, close,
}
use pilot_langgraph.Client.Connection.Loop.{
  Incoming, incomplete, bad_length, message, read_frame, read_loop, run_loop,
}
use pilot_langgraph.Client.Connection.Settled.{is_in, waits, is_pending, IsAwaited, settle-pending}
use pilot_langgraph.Client.Connection.Settled.Closed.{message-closed}
use pilot_langgraph.Client.Connection.Settled.Steps.{Reach, Reach-IsAwaited, message-IsAwaited}

settle_all-pending :
    (err : Option Text) (g : ℕ) (q : List ℕ) (d : Dict ℕ Future)
    → is_pending (value_of g (settle_all err q d))
      ≡ (if is_in g q then false else is_pending (value_of g d))
unfolding is_in
settle_all-pending err g [] d = refl
settle_all-pending err g (f ∷ q) d = ground (
  arith,
  settle_all-pending err g q (settle f (failed err) d),
  settle-pending f g (failed err) d refl,
)

fail_waiters-pending :
    (err : Option Text) (g : ℕ) (ws : Dict ℕ (List ℕ)) (d : Dict ℕ Future)
    → is_pending (value_of g (fail_waiters err ws d))
      ≡ (if waits g ws then false else is_pending (value_of g d))
unfolding waits
fail_waiters-pending err g [] d = refl
fail_waiters-pending err g ((cmd, q) ∷ ws) d =
    ground (arith, fail_waiters-pending err g ws (settle_all err q d), settle_all-pending err g q d)

closed_settled :
    (err : Option Text) (s : Conn)
    → s.closed ≡ false
    → IsAwaited s
    → (g : ℕ) → is_pending (value_of g (close err s).futures) ≡ false
unfolding close close_open IsAwaited
closed_settled err s c h g = ground (arith, c, fail_waiters-pending err g s.waiters s.futures, h g)

read_loop-closed :
    (u : Utf8) (fuel : ℕ) (buf : Bytes) (s : Conn) → (read_loop u fuel buf s).0.closed ≡ s.closed
unfolding read_loop
read_loop-closed u zero buf s = refl
read_loop-closed u (suc fuel) buf s =
    go (read_frame buf) refl (λ rest t. read_loop-closed u fuel rest t)
  where
    handled :
        (cmd : ℕ) (payload rest : Bytes) (r : Result Conn)
        → read_frame buf ≡ message cmd payload rest
        → handle_message u cmd payload s ≡ r
        → ((t : Conn) → (read_loop u fuel rest t).0.closed ≡ t.closed)
        → (read_loop u (suc fuel) buf s).0.closed ≡ s.closed
    handled cmd payload rest (raise x) e e' ih = rw (read_loop, e, e') refl
    handled cmd payload rest (ok t) e e' ih =
        rw (read_loop, e, e') (ih t ∙ message-closed u cmd payload s t e')

    go :
        (v : Incoming)
        → read_frame buf ≡ v
        → ((rest : Bytes) (t : Conn) → (read_loop u fuel rest t).0.closed ≡ t.closed)
        → (read_loop u (suc fuel) buf s).0.closed ≡ s.closed
    go incomplete e ih = rw (read_loop, e) refl
    go (bad_length n) e ih = rw (read_loop, e) refl
    go (message cmd payload rest) e ih =
        handled cmd payload rest (handle_message u cmd payload s) e refl (ih rest)

read_loop-IsAwaited :
    (u : Utf8) (fuel : ℕ) (buf : Bytes) (s : Conn)
    → IsAwaited s
    → IsAwaited (read_loop u fuel buf s).0
unfolding read_loop
read_loop-IsAwaited u zero buf s h = h
read_loop-IsAwaited u (suc fuel) buf s h =
    go (read_frame buf) refl (λ rest t k. read_loop-IsAwaited u fuel rest t k)
  where
    handled :
        (cmd : ℕ) (payload rest : Bytes) (r : Result Conn)
        → read_frame buf ≡ message cmd payload rest
        → handle_message u cmd payload s ≡ r
        → ((t : Conn) → IsAwaited t → IsAwaited (read_loop u fuel rest t).0)
        → IsAwaited (read_loop u (suc fuel) buf s).0
    handled cmd payload rest (raise x) e e' ih = rw (read_loop, e, e') h
    handled cmd payload rest (ok t) e e' ih =
        rw (read_loop, e, e') (ih t (message-IsAwaited s h u cmd payload e'))

    go :
        (v : Incoming)
        → read_frame buf ≡ v
        → ((rest : Bytes) (t : Conn) → IsAwaited t → IsAwaited (read_loop u fuel rest t).0)
        → IsAwaited (read_loop u (suc fuel) buf s).0
    go incomplete e ih = rw (read_loop, e) h
    go (bad_length n) e ih = rw (read_loop, e) h
    go (message cmd payload rest) e ih =
        handled cmd payload rest (handle_message u cmd payload s) e refl (ih rest)

closed_already : (err : Option Text) (s : Conn) → s.closed ≡ true → close err s ≡ s
unfolding close
closed_already err s shut = ap (λ b. if b then s else close_open err s) shut

-- No future of a connection.
abbrev pub IsFresh : Conn → Type 0
IsFresh s = s.futures ≡ []

-- Of a connection that starts with no future: whatever messages, requests and timeouts have
-- happened, if it has not been closed, the read loop leaves no future pending in the end, whatever
-- bytes the socket still brings: whether the socket ends, a length is bad or a handler raises. So
-- every call that waits for a reply gets one or an error.
pub run_loop-settled :
    (u : Utf8) (err : Option Text) (buf : Bytes) (s t : Conn)
    → IsFresh s
    → Reach u s t
    → t.closed ≡ false
    → (g : ℕ) → is_pending (value_of g (run_loop u err buf t).futures) ≡ false
unfolding run_loop IsAwaited
run_loop-settled u err buf s t fresh r open_ g =
    let first : IsAwaited s = λ f p. absurd (ground (arith, fresh, p)) in
    let n = suc (length buf) in
    ap (λ b. is_pending (value_of g (close err (if b then t else (read_loop u n buf t).0)).futures))
      open_
    ∙ closed_settled err (read_loop u n buf t).0 (read_loop-closed u n buf t ∙ open_)
        (read_loop-IsAwaited u n buf t (Reach-IsAwaited r first)) g

-- On a connection that has been closed, by `force_close_sync` too, the read loop changes nothing: a
-- call that waits then is not answered.
run_loop-closed :
    (u : Utf8) (err : Option Text) (buf : Bytes) (t : Conn)
    → t.closed ≡ true
    → run_loop u err buf t ≡ t
unfolding run_loop
run_loop-closed u err buf t shut =
    ap (λ b. close err (if b then t else (read_loop u (suc (length buf)) buf t).0)) shut
    ∙ closed_already err t shut
