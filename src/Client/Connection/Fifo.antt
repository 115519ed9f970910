-- ===== src/Client/Connection/Fifo.antt =====
-- The order of the data of a stream, whenever its queue is made.
use pilot_langgraph.Prelude.{
  ℕ, ◌≡◌, refl, sym, ap, ◌∙◌, true, false, Bool-cases, Option-cases, inl, inr, none, some, List, [],
  ◌∷◌, ◌++◌, append_assoc, append-nil, All, ◌==◌, if◌then◌else◌, arith, Dict, value_of, assign,
  value_of-assign, eqb_self, nat_HasEq,
}
use pilot_langgraph.Client.Connection.{
  Conn, Item, items_of, removed, on_recv, on_close_ok, register_recv_queue,
}

-- An item that the daemon sends for a connection: `cmdRecv`, or `cmdCloseOK` for `none`.
abbrev pub arrive : ℕ × Item → Conn → Conn
arrive (i, none) s = on_close_ok i s
arrive (i, some b) s = on_recv i b s

abbrev pub arrive_all : List (ℕ × Item) → Conn → Conn
arrive_all [] s = s
arrive_all (m ∷ ms) s = arrive_all ms (arrive m s)

-- The items of one connection.
abbrev pub items_for : ℕ → List (ℕ × Item) → List Item
items_for c [] = []
items_for c ((i, item) ∷ ms) = if i == c then item ∷ items_for c ms else items_for c ms

-- The connection is not closed by these items.
abbrev pub IsOpenFor : ℕ → ℕ × Item → Type 0
IsOpenFor c (i, some b) = Unit
IsOpenFor c (i, none) = (i == c) ≡ false

value_of-removed :
    {V : Type 0} (i c : ℕ) (d : Dict ℕ V)
    → value_of c (removed i d) ≡ (if i == c then none else value_of c d)
value_of-removed i c [] = ground arith
value_of-removed i c ((j, v) ∷ d) = ground (arith, value_of-removed i c d)

same_id : (i c : ℕ) → (i == c) ≡ true → i ≡ c
same_id i c h = ground arith

hold-items :
    (i c : ℕ) (item : Item) (d : Dict ℕ (List Item))
    → items_of (value_of c (assign i (items_of (value_of i d) ++ item ∷ []) d))
      ≡ items_of (value_of c d) ++ (if i == c then item ∷ [] else [])
hold-items i c item d = elim (Bool-cases (i == c)) [
  | inl e ↦
      let here : i ≡ c = same_id i c e in
      rw (value_of-assign i c (items_of (value_of i d) ++ item ∷ []) d, e, here) refl
  | inr e ↦
      rw (value_of-assign i c (items_of (value_of i d) ++ item ∷ []) d, e)
        (sym (append-nil (items_of (value_of c d))))
]

-- Before the queue is made, the items wait.
abbrev Waits : ℕ → ℕ × Item → Conn → Conn → Type 0
Waits c m s t =
    (value_of c t.recv_queues ≡ none)
    × (items_of (value_of c t.pending_recv)
        ≡ items_of (value_of c s.pending_recv) ++ items_for c (m ∷ []))

-- The queue of another connection is there, so this is not its id.
not_same :
    (i c : ℕ) (d : Dict ℕ (List Item)) {q : List Item}
    → value_of c d ≡ none
    → value_of i d ≡ some q
    → (i == c) ≡ false
not_same i c d e f = elim (Bool-cases (i == c)) [
  | inl h ↦ absurd (ground (arith, e, f, ap (λ x. value_of x d) (same_id i c h)))
  | inr h ↦ h
]

arrive-pending :
    (c : ℕ) (m : ℕ × Item) (s : Conn)
    → IsOpenFor c m
    → value_of c s.recv_queues ≡ none
    → Waits c m s (arrive m s)
unfolding on_recv on_close_ok
arrive-pending c (i, some b) s o e = elim (Option-cases (value_of i s.recv_queues)) [
  | inl f ↦ rw (on_recv, f) (e, hold-items i c (some b) s.pending_recv)
  | inr (q, f) ↦
      let other = not_same i c s.recv_queues e f in
      rw (on_recv, f)
        (
          value_of-assign i c _ s.recv_queues ∙ rw other e,
          rw other (sym (append-nil (items_of (value_of c s.pending_recv)))),
        )
]
arrive-pending c (i, none) s o e = elim (Option-cases (value_of i s.recv_queues)) [
  | inl f ↦ rw (on_close_ok, f) (e, hold-items i c none s.pending_recv)
  | inr (q, f) ↦
      rw (on_close_ok, f)
        (
          value_of-removed i c s.recv_queues ∙ rw o e,
          rw o (sym (append-nil (items_of (value_of c s.pending_recv)))),
        )
]

-- Behind that, they go into it.
arrive-queue :
    (c : ℕ) (m : ℕ × Item) (s : Conn) (q : List Item)
    → IsOpenFor c m
    → value_of c s.recv_queues ≡ some q
    → value_of c (arrive m s).recv_queues ≡ some (q ++ items_for c (m ∷ []))
unfolding on_recv on_close_ok
arrive-queue c (i, some b) s q o e = elim (Bool-cases (i == c)) [
  | inl h ↦
      let here : i ≡ c = same_id i c h in
      let there : value_of i s.recv_queues ≡ some q = ap (λ x. value_of x s.recv_queues) here ∙ e in
      rw (on_recv, there, h) (value_of-assign i c _ s.recv_queues ∙ rw h refl)
  | inr h ↦ elim (Option-cases (value_of i s.recv_queues)) [
    | inl f ↦ rw (on_recv, f, h) (e ∙ ap some (sym (append-nil q)))
    | inr (r, f) ↦
        rw (on_recv, f, h)
          (value_of-assign i c _ s.recv_queues ∙ rw h (e ∙ ap some (sym (append-nil q))))
  ]
]
arrive-queue c (i, none) s q o e = elim (Option-cases (value_of i s.recv_queues)) [
  | inl f ↦ rw (on_close_ok, f, o) (e ∙ ap some (sym (append-nil q)))
  | inr (r, f) ↦
      rw (on_close_ok, f, o)
        (value_of-removed i c s.recv_queues ∙ rw o (e ∙ ap some (sym (append-nil q))))
]

items_for-cons :
    (c : ℕ) (m : ℕ × Item) (ms : List (ℕ × Item))
    → items_for c (m ∷ ms) ≡ items_for c (m ∷ []) ++ items_for c ms
items_for-cons c (i, item) ms = elim (Bool-cases (i == c)) [ inl h ↦ rw h refl | inr h ↦ rw h refl ]

arrive_all-held :
    (c : ℕ) (ms : List (ℕ × Item)) (s : Conn)
    → All (IsOpenFor c) ms
    → value_of c s.recv_queues ≡ none
    → (value_of c (arrive_all ms s).recv_queues ≡ none)
      × (items_of (value_of c (arrive_all ms s).pending_recv)
          ≡ items_of (value_of c s.pending_recv) ++ items_for c ms)
arrive_all-held c [] s a e = (e, sym (append-nil (items_of (value_of c s.pending_recv))))
arrive_all-held c (m ∷ ms) s a e =
    let (none_yet, waiting) = arrive-pending c m s a.0 e in
    let (still_none, all_of_it) = arrive_all-held c ms (arrive m s) a.1 none_yet in
    (
      still_none,
      all_of_it
          ∙ ap (λ l. l ++ items_for c ms) waiting
          ∙ append_assoc (items_of (value_of c s.pending_recv)) (items_for c (m ∷ []))
              (items_for c ms)
          ∙ ap (λ l. items_of (value_of c s.pending_recv) ++ l) (sym (items_for-cons c m ms)),
    )

pub arrive_all-queued :
    (c : ℕ) (ms : List (ℕ × Item)) (s : Conn) (q : List Item)
    → All (IsOpenFor c) ms
    → value_of c s.recv_queues ≡ some q
    → value_of c (arrive_all ms s).recv_queues ≡ some (q ++ items_for c ms)
arrive_all-queued c [] s q a e = e ∙ ap some (sym (append-nil q))
arrive_all-queued c (m ∷ ms) s q a e =
    arrive_all-queued c ms (arrive m s) (q ++ items_for c (m ∷ [])) a.1 (arrive-queue c m s q a.0 e)
    ∙ ap some (
        append_assoc q (items_for c (m ∷ [])) (items_for c ms)
        ∙ ap (λ l. q ++ l) (sym (items_for-cons c m ms)))

-- A queue that is made for a connection holds, in the order of arrival, what arrived for the
-- connection before the queue was made and what arrives behind that. The daemon sends for any
-- connections in between, and ends others; this one is not ended, has no queue before, and nothing
-- waits for it at the start.
pub arrive_all-register :
    (c : ℕ) (before later : List (ℕ × Item)) (s : Conn)
    → All (IsOpenFor c) before
    → All (IsOpenFor c) later
    → value_of c s.recv_queues ≡ none
    → value_of c s.pending_recv ≡ none
    → value_of c (arrive_all later (register_recv_queue c (arrive_all before s))).recv_queues
      ≡ some (items_for c before ++ items_for c later)
unfolding register_recv_queue
arrive_all-register c before later s ab al e p =
    let (_, waiting) = arrive_all-held c before s ab e in
    let t = arrive_all before s in
    let queue : value_of c (register_recv_queue c t).recv_queues ≡ some (items_for c before) =
      value_of-assign c c _ t.recv_queues
      ∙ rw (eqb_self ⦃h = nat_HasEq⦄ c)
          (ap some (waiting ∙ ap (λ o. items_of o ++ items_for c before) p)) in
    arrive_all-queued c later (register_recv_queue c t) (items_for c before) al queue
