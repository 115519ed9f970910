-- ===== src/Channel/Pending.antt =====
-- The bytes and events that a channel still has to come.
use pilot_langgraph.Prelude.{
  ◌≡◌, refl, sym, ap, ◌∙◌, inl, inr, List, [], ◌∷◌, ◌++◌, append-nil, length, length-append, arith,
}
use pilot_langgraph.Prelude.Result.{Exc, ok, raise, Result-cases}
use pilot_langgraph.Ipc.Bytes.{Bytes, Utf8}
use pilot_langgraph.Ipc.Events.{Event, split_events}
use pilot_langgraph.Ipc.Events.Chunks.{Split, after, after-nil, split_events-append}
use pilot_langgraph.Channel.{Read, got}

-- The bytes that come before the stream ends or falls silent.
abbrev pub coming : List Read → Bytes
coming [] = []
coming (got [] ∷ reads) = []
coming (got (b ∷ chunk) ∷ reads) = (b ∷ chunk) ++ coming reads
coming (_ ∷ reads) = []

module _ (u : Utf8) where
  -- All the events of a channel, and the leftover: what the bytes of its buffer and of the stream
  -- hold.
  abbrev pub all_events : List Read → Bytes → Split
  all_events reads buf = split_events u (buf ++ coming reads)

  -- What an event behind the first turn means for the whole.
  pub turn :
      (buf now_coming : Bytes) {events : List Event} {left : Bytes}
      → split_events u buf ≡ ok (events, left)
      → split_events u (buf ++ now_coming) ≡ after events (split_events u (left ++ now_coming))
  turn buf now_coming e = split_events-append u buf now_coming ∙ rw e refl

  pub after_none :
      (buf now_coming : Bytes) {left : Bytes}
      → split_events u buf ≡ ok ([], left)
      → split_events u (left ++ now_coming) ≡ split_events u (buf ++ now_coming)
  after_none buf now_coming {left} s =
      sym (turn buf now_coming s ∙ after-nil (split_events u (left ++ now_coming)))

  pub no_raise :
      (buf more : Bytes) {x : Exc} {r : List Event × Bytes}
      → split_events u buf ≡ raise x
      → split_events u (buf ++ more) ≡ ok r
      → ⊥
  no_raise buf more e h = ground (arith, split_events-append u buf more, e, h)

  nothing_behind : (now more : List Event) → now ++ more ≡ now → more ≡ []
  nothing_behind now [] h = refl
  nothing_behind now (e ∷ more) h =
      absurd (omega (arith, length-append now (e ∷ more), ap length h))

  -- A leftover holds no event.
  pub leftover_none :
      (buf : Bytes) {now : List Event} {left : Bytes}
      → split_events u buf ≡ ok (now, left)
      → split_events u left ≡ ok ([], left)
  leftover_none buf {now} {left} s =
      let t : after now (split_events u left) ≡ ok (now, left) =
        ap (λ l. after now (split_events u l)) (sym (append-nil left))
        ∙ sym (turn buf [] s)
        ∙ ap (split_events u) (append-nil buf)
        ∙ s in
      elim (Result-cases (split_events u left)) [
        | inr (x, m) ↦ absurd (ground (arith, t, m))
        | inl ((more, lo), m) ↦
            let same : now ++ more ≡ now = ground (arith, t, m) in
            let none_left : more ≡ [] = nothing_behind now more same in
            let same_left : lo ≡ left = ground (arith, t, m) in
            m ∙ λ i. ok (none_left i, same_left i)
      ]
