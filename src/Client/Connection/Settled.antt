-- ===== src/Client/Connection/Settled.antt =====
-- The pending futures of a connection, and the queues in which they wait for a reply.
pub mod Steps
pub mod Closed
pub mod Close
use pilot_langgraph.Prelude.{
  ℕ, zero, suc, ◌≡◌, ◌≢◌, refl, sym, ap, ◌∙◌, ◌⊎◌, inl, inr, Bool, true, false, ◌||◌, Bool-cases,
  Option-cases, Option, none, some, List, [], ◌∷◌, ◌++◌, ◌==◌, if◌then◌else◌, arith, Dict, value_of,
  assign, value_of-assign, eqb_self, nat_HasEq, String,
}
use pilot_langgraph.Prelude.Result.{Result, ok, raise, Result-cases, ◌>>=◌}
use pilot_langgraph.Ipc.Bytes.{Bytes, Text, Utf8}
use pilot_langgraph.Ipc.Parse.{parse_recv, parse_accept, parse_close_ok, parse_datagram}
use pilot_langgraph.Client.Connection.{
  Conn, Future, pending, resolved, failed, cancelled, items_of, settle, deliver_to_waiter,
  first_waiter, fail_oldest_waiter, hold, on_recv, on_close_ok, on_accept, on_datagram, on_some,
  handle_message, register_recv_queue, request, remove, request_timeout, settle_all, fail_waiters,
  close,
}
use pilot_langgraph.Client.Connection.Loop.{read_loop, run_loop}

pub is_in : ℕ → List ℕ → Bool
is_in f [] = false
is_in f (g ∷ q) = (g == f) || is_in f q

-- In any of the queues.
pub waits : ℕ → Dict ℕ (List ℕ) → Bool
unfolding is_in
waits f [] = false
waits f ((cmd, q) ∷ d) = is_in f q || waits f d

abbrev pub is_pending : Option Future → Bool
is_pending (some pending) = true
is_pending _ = false

-- Every future that is pending waits in a queue.
pub IsAwaited : Conn → Type 0
IsAwaited s = (f : ℕ) → is_pending (value_of f s.futures) ≡ true → waits f s.waiters ≡ true

settle-eq :
    (f : ℕ) (o : Future) (d : Dict ℕ Future)
    → settle f o d ≡ (if is_pending (value_of f d) then assign f o d else d)
settle-eq f o d = go (value_of f d) refl
  where
    go :
        (v : Option Future)
        → value_of f d ≡ v
        → settle f o d ≡ (if is_pending (value_of f d) then assign f o d else d)
    go none e = rw (settle, e) refl
    go (some pending) e = rw (settle, e) refl
    go (some (resolved p)) e = rw (settle, e) refl
    go (some (failed x)) e = rw (settle, e) refl
    go (some cancelled) e = rw (settle, e) refl

same_id : (f g : ℕ) → (f == g) ≡ true → f ≡ g
same_id f g h = ground arith

settle-pending :
    (f g : ℕ) (o : Future) (d : Dict ℕ Future)
    → is_pending (some o) ≡ false
    → is_pending (value_of g (settle f o d)) ≡ (if f == g then false else is_pending (value_of g d))
settle-pending f g o d n = rw (settle-eq f o d) (elim (Bool-cases (is_pending (value_of f d))) [
  | inl p ↦ elim (Bool-cases (f == g)) [
    | inl e ↦ rw (p, value_of-assign f g o d, e) n
    | inr e ↦ rw (p, value_of-assign f g o d, e) refl
  ]
  | inr p ↦ elim (Bool-cases (f == g)) [
    | inl e ↦
        let same : f ≡ g = same_id f g e in
        rw (p, e) (ap (λ x. is_pending (value_of x d)) (sym same) ∙ p)
    | inr e ↦ rw (p, e) refl
  ]
])

-- A new queue for a command: who waited before waits now, or stood in its old queue.
waits-assign :
    (f cmd : ℕ) (q : List ℕ) (d : Dict ℕ (List ℕ))
    → waits f d ≡ true
    → (waits f (assign cmd q d) ≡ true) ⊎ (is_in f (items_of (value_of cmd d)) ≡ true)
unfolding waits
waits-assign f cmd q [] w = absurd (ground (arith, w))
waits-assign f cmd q ((c, p) ∷ d) w = elim (Bool-cases (c == cmd)) [
  | inl e ↦ rw e (ground (arith, w))
  | inr e ↦ rw e (ground (arith, w, waits-assign f cmd q d))
]

waits-assigned :
    (f cmd : ℕ) (q : List ℕ) (d : Dict ℕ (List ℕ))
    → is_in f q ≡ true
    → waits f (assign cmd q d) ≡ true
unfolding waits
waits-assigned f cmd q [] i = rw i refl
waits-assigned f cmd q ((c, p) ∷ d) i = ground (arith, waits-assigned f cmd q d i)

-- `first_waiter` gives a queue of its command, or that command's first queue is empty.
first_waiter-items :
    (d : Dict ℕ (List ℕ)) (cmd f : ℕ) (q : List ℕ)
    → first_waiter d ≡ some (cmd, f, q)
    → (items_of (value_of cmd d) ≡ f ∷ q) ⊎ (items_of (value_of cmd d) ≡ [])
first_waiter-items [] cmd f q e = cc
first_waiter-items ((c, []) ∷ d) cmd f q e = elim (Bool-cases (c == cmd)) [
  | inl same ↦ inr (rw same refl)
  | inr apart ↦ rw apart (first_waiter-items d cmd f q e)
]
first_waiter-items ((c, g ∷ p) ∷ d) cmd f q e =
    let same : c ≡ cmd = ground (arith, e) in
    let items : g ∷ p ≡ f ∷ q = cc in inl (rw (same, eqb_self cmd) items)

module _ (s : Conn) (h : IsAwaited s) where
  -- A future that leaves its queue is settled as it leaves.
  popped-awaited :
      (cmd f g : ℕ) (o : Future) (q : List ℕ)
      → is_pending (some o) ≡ false
      → (items_of (value_of cmd s.waiters) ≡ f ∷ q) ⊎ (items_of (value_of cmd s.waiters) ≡ [])
      → is_pending (value_of g (settle f o s.futures)) ≡ true
      → waits g (assign cmd q s.waiters) ≡ true
  unfolding IsAwaited is_in
  popped-awaited cmd f g o q n e pend =
      let p = settle-pending f g o s.futures n in
      let apart : (f == g) ≡ false = ground (arith, p, pend) in
      let before : is_pending (value_of g s.futures) ≡ true = ground (arith, p, pend, apart) in
      elim (waits-assign g cmd q s.waiters (h g before)) [
        | inl w ↦ w
        | inr i ↦ elim e [
          | inl here ↦
              let rest : is_in g (f ∷ q) ≡ true = (rw here at i) in
              waits-assigned g cmd q s.waiters (ground (arith, rest, apart))
          | inr empty ↦ absurd (ground (arith, i, empty))
        ]
      ]

  deliver-IsAwaited : (cmd : ℕ) (p : Bytes) → IsAwaited (deliver_to_waiter cmd p s)
  unfolding IsAwaited deliver_to_waiter
  deliver-IsAwaited cmd p g = go (items_of (value_of cmd s.waiters)) refl
    where
      go :
          (v : List ℕ)
          → items_of (value_of cmd s.waiters) ≡ v
          → is_pending (value_of g (deliver_to_waiter cmd p s).futures) ≡ true
          → waits g (deliver_to_waiter cmd p s).waiters ≡ true
      go [] e = rw (e, deliver_to_waiter) (h g)
      go (f ∷ q) e = rw (e, deliver_to_waiter) (popped-awaited cmd f g (resolved p) q refl (inl e))

  fail_oldest-IsAwaited : (err : Option Text) → IsAwaited (fail_oldest_waiter err s)
  unfolding IsAwaited fail_oldest_waiter
  fail_oldest-IsAwaited err g = go (first_waiter s.waiters) refl
    where
      go :
          (v : Option (ℕ × ℕ × List ℕ))
          → first_waiter s.waiters ≡ v
          → is_pending (value_of g (fail_oldest_waiter err s).futures) ≡ true
          → waits g (fail_oldest_waiter err s).waiters ≡ true
      go none e = rw (e, fail_oldest_waiter) (h g)
      go (some (cmd, f, q)) e =
          rw (e, fail_oldest_waiter)
            (popped-awaited cmd f g (failed err) q refl (first_waiter-items s.waiters cmd f q e))
