-- ===== src/Channel/Recv.antt =====
-- What calls of `recv` give, one behind the other.
use pilot_langgraph.Prelude.{
  ◌≡◌, sym, ap, subst, ◌∙◌, inl, inr, List, [], ◌∷◌, ◌++◌, append-nil, append_assoc, All, arith,
}
use pilot_langgraph.Prelude.Result.{ok, raise, Result-cases}
use pilot_langgraph.Ipc.Bytes.{Bytes, Utf8}
use pilot_langgraph.Ipc.Events.{Event, encode_events, split_events}
use pilot_langgraph.Ipc.Events.Chunks.{Split, after}
use pilot_langgraph.Ipc.Events.RoundTrip.{Fits, split_events-encode_events}
use pilot_langgraph.Channel.{
  Read, got, silent, late, Received, event, Rest, hand_out, or_hand_out, recv,
}
use pilot_langgraph.Channel.Pending.{coming, all_events, turn, after_none, no_raise}

module _ (u : Utf8) where
  -- The queue behind one `recv` that has given `e`.
  pub record Gives (r : Received × Rest) (e : Event) (events : List Event) (leftover : Bytes)
      : Type 0 where
    pub given : r.0 ≡ event e
    pub others : all_events u r.1.reads r.1.buf ≡ ok (events, leftover)

  hand_out-Gives :
      (first : Event) (now : List Event) (left : Bytes) (reads : List Read) (e : Event)
      (events : List Event) (leftover : Bytes)
      → after (first ∷ now) (split_events u (left ++ coming reads)) ≡ ok (e ∷ events, leftover)
      → All (Fits u) now
      → Gives (hand_out u first now left reads) e events leftover
  unfolding hand_out
  hand_out-Gives first [] left reads e events leftover h a =
      elim (Result-cases (split_events u (left ++ coming reads))) [
        | inr (x, s) ↦ absurd (ground (arith, h, s))
        | inl ((more, lo), s) ↦ record {
          given = ground (arith, h, s);
          others = ground (arith, h, s);
        }
      ]
  hand_out-Gives first (second ∷ now) left reads e events leftover h a =
      let back = split_events-encode_events u (second ∷ now) (left ++ coming reads) a in
      elim (Result-cases (split_events u (left ++ coming reads))) [
        | inr (x, s) ↦ absurd (ground (arith, h, s))
        | inl ((more, lo), s) ↦ elim (Result-cases (encode_events u (second ∷ now))) [
          | inr (x, en) ↦ absurd (ground (arith, back, en, s))
          | inl (rest, en) ↦
              rw (hand_out, en)
                (record {
                  given = ground (arith, h, s);
                  others =
                      ap (split_events u) (append_assoc rest left (coming reads))
                      ∙ (rw (en, s) at back)
                      ∙ ground (arith, h, s);
                })
        ]
      ]

  All-front : (now more : List Event) → All (Fits u) (now ++ more) → All (Fits u) now
  All-front [] more a = tt
  All-front (e ∷ now) more a = (a.0, All-front now more a.1)

  -- The events behind the first one that were found now are among those to come.
  All-now :
      (first : Event) (now : List Event) (r : Split) (e : Event) (events : List Event)
      (leftover : Bytes)
      → after (first ∷ now) r ≡ ok (e ∷ events, leftover)
      → All (Fits u) events
      → All (Fits u) now
  All-now first now (raise x) e events leftover h a = absurd (ground (arith, h))
  All-now first now (ok (more, lo)) e events leftover h a =
      let same : events ≡ now ++ more = ground (arith, h) in
      All-front now more (subst (All (Fits u)) same a)

  or_hand_out-Gives :
      (buf : Bytes) (reads : List Read) (read_more : Bytes → Received × Rest) (e : Event)
      (events : List Event) (leftover : Bytes)
      → all_events u reads buf ≡ ok (e ∷ events, leftover)
      → All (Fits u) events
      → ((left : Bytes)
          → split_events u buf ≡ ok ([], left)
          → Gives (read_more left) e events leftover)
      → Gives (or_hand_out u (split_events u buf) buf reads read_more) e events leftover
  unfolding or_hand_out
  or_hand_out-Gives buf reads read_more e events leftover h a next =
      elim (Result-cases (split_events u buf)) [
        | inr (x, s) ↦ elim (no_raise u buf (coming reads) s h) [ ]
        | inl (([], left), s) ↦ rw s (next left s)
        | inl ((first ∷ now, left), s) ↦ rw s (
            hand_out-Gives first now left reads e events leftover
              (sym (turn u buf (coming reads) s) ∙ h)
              (All-now first now _ e events leftover (sym (turn u buf (coming reads) s) ∙ h) a))
      ]

  -- No more bytes, and no event in the buffer: then there are none to come.
  nothing :
      (buf : Bytes) {left : Bytes} {e : Event} {events : List Event} {leftover : Bytes}
      → split_events u buf ≡ ok ([], left)
      → split_events u (buf ++ []) ≡ ok (e ∷ events, leftover)
      → ⊥
  nothing buf s h = ground (arith, s, h, append-nil buf)

  -- Where the bytes to come hold an event, `recv` gives the first one, and leaves the others.
  recv-Gives :
      (reads : List Read) (buf : Bytes) (e : Event) (events : List Event) (leftover : Bytes)
      → all_events u reads buf ≡ ok (e ∷ events, leftover)
      → All (Fits u) events
      → Gives (recv u reads buf) e events leftover
  unfolding recv
  recv-Gives [] buf e events leftover h a =
      or_hand_out-Gives buf [] _ e events leftover h a λ left s. elim (nothing buf s h) [ ]
  recv-Gives (got [] ∷ reads) buf e events leftover h a =
      or_hand_out-Gives buf (got [] ∷ reads) _ e events leftover h a
        λ left s. elim (nothing buf s h) [ ]
  recv-Gives (silent ∷ reads) buf e events leftover h a =
      or_hand_out-Gives buf (silent ∷ reads) _ e events leftover h a
        λ left s. elim (nothing buf s h) [ ]
  recv-Gives (late ∷ reads) buf e events leftover h a =
      or_hand_out-Gives buf (late ∷ reads) _ e events leftover h a
        λ left s. elim (nothing buf s h) [ ]
  recv-Gives (got (b ∷ chunk) ∷ reads) buf e events leftover h a =
      or_hand_out-Gives buf (got (b ∷ chunk) ∷ reads) _ e events leftover h a λ left s.
        recv-Gives reads (left ++ (b ∷ chunk)) e events leftover
          (ap (split_events u) (append_assoc left (b ∷ chunk) (coming reads))
            ∙ after_none u buf (coming (got (b ∷ chunk) ∷ reads)) s
            ∙ h)
          a

  -- Calls of `recv`, one behind the other, that all give an event.
  pub data Receives : List Event → List Read → Bytes → Rest → Type 0 where
    none_more :
        {reads : List Read} {buf : Bytes}
        → Receives [] reads buf (record { buf = buf; reads = reads })
    one_more :
        {e : Event} {events : List Event} {reads : List Read} {buf : Bytes} {rest last : Rest}
        → recv u reads buf ≡ (event e, rest)
        → Receives events rest.reads rest.buf last
        → Receives (e ∷ events) reads buf last

  -- Where the buffer and the bytes to come hold events and a leftover, calls of `recv` give exactly
  -- these events, in their order, and leave a channel that holds none, with the same leftover. The
  -- events are within the limits when they are encoded again.
  pub recv-Receives :
      (events : List Event) (reads : List Read) (buf leftover : Bytes)
      → all_events u reads buf ≡ ok (events, leftover)
      → All (Fits u) events
      → (last : Rest) × Receives events reads buf last
        × (all_events u last.reads last.buf ≡ ok ([], leftover))
  recv-Receives [] reads buf leftover h a = (_, none_more, h)
  recv-Receives (e ∷ events) reads buf leftover h a =
      let g = recv-Gives reads buf e events leftover h a.1 in
      let (last, more, done) =
        recv-Receives events (recv u reads buf).1.reads (recv u reads buf).1.buf leftover g.others
          a.1 in
      (last, one_more (λ i. (g.given i, (recv u reads buf).1)) more, done)
