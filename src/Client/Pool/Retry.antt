-- ===== src/Client/Pool/Retry.antt =====
-- `drop_current` before a retry changes nothing about the connection that the retry gets.
use pilot_langgraph.Prelude.{
  ℕ, ◌≡◌, refl, ◌∙◌, Bool, true, Bool-cases, inl, inr, Option, none, some, [], ◌∷◌, ◌==◌,
  if◌then◌else◌, arith, Dict, value_of, assign, value_of-assign, eqb_self, nat_HasEq,
}
use pilot_langgraph.Prelude.Result.{Result}
use pilot_langgraph.Client.Connection.{removed}
use pilot_langgraph.Client.Pool.{Pool, connect, closing, acquire, drop_current}

pub value_of-removed :
    (i c : ℕ) (d : Dict ℕ ℕ) → value_of c (removed i d) ≡ (if i == c then none else value_of c d)
value_of-removed i c [] = ground arith
value_of-removed i c ((j, v) ∷ d) = ground (arith, value_of-removed i c d)

-- The same connection or exception, and the same state but for the order of the table.
pub record IsSame (a b : Result ℕ × Pool) : Type 0 where
  pub outcome : a.0 ≡ b.0
  pub table : (loop : ℕ) → value_of loop a.1.by_loop ≡ value_of loop b.1.by_loop
  pub counter : a.1.next_conn ≡ b.1.next_conn
  pub closings : a.1.closed ≡ b.1.closed
  pub forcings : a.1.forced ≡ b.1.forced

same : (a : Result ℕ × Pool) → IsSame a a
same a = record {
  outcome = refl;
  table = λ l. refl;
  counter = refl;
  closings = refl;
  forcings = refl;
}

reassigned :
    (loop c l : ℕ) (d : Dict ℕ ℕ)
    → value_of l (assign loop c (removed loop d)) ≡ value_of l (assign loop c d)
reassigned loop c l d = ground (
  arith,
  value_of-assign loop l c (removed loop d),
  value_of-assign loop l c d,
  value_of-removed loop l d,
)

-- A retry that first drops the connection of its loop if it is dead gets what a call without that
-- would get, with the daemon up: the same connection, with the same connections closed and the same
-- table. So it neither closes nor replaces a connection that is alive.
pub acquire-drop_current :
    (is_alive : ℕ → Bool) (loop : ℕ) (p : Pool)
    → IsSame
        (acquire is_alive true loop (drop_current is_alive loop p))
        (acquire is_alive true loop p)
unfolding acquire drop_current
acquire-drop_current is_alive loop p = go (value_of loop p.by_loop) refl
  where
    go :
        (v : Option ℕ)
        → value_of loop p.by_loop ≡ v
        → IsSame
            (acquire is_alive true loop (drop_current is_alive loop p))
            (acquire is_alive true loop p)
    go none e =
        let kept : drop_current is_alive loop p ≡ p = rw (drop_current, e) refl in
        rw kept (same (acquire is_alive true loop p))
    go (some c) e = elim (Bool-cases (is_alive c)) [
      | inl a ↦
          let kept : drop_current is_alive loop p ≡ p = rw (drop_current, e, a) refl in
          rw kept (same (acquire is_alive true loop p))
      | inr a ↦
          let q = closing c (record p { by_loop = removed loop p.by_loop }) in
          let dropped : drop_current is_alive loop p ≡ q = rw (drop_current, e, a) refl in
          let gone : value_of loop q.by_loop ≡ none =
            value_of-removed loop loop p.by_loop ∙ rw (eqb_self ⦃h = nat_HasEq⦄ loop) refl in
          let fresh : acquire is_alive true loop q ≡ connect true loop q =
            rw (acquire, gone) refl in
          let replaced : acquire is_alive true loop p ≡ connect true loop (closing c p) =
            rw (acquire, e, a) refl in
          rw (dropped, fresh, replaced)
            (record {
              outcome = refl;
              table = λ l. reassigned loop p.next_conn l p.by_loop;
              counter = refl;
              closings = refl;
              forcings = refl;
            })
    ]
