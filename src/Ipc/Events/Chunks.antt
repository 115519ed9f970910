-- ===== src/Ipc/Events/Chunks.antt =====
-- The event stream does not depend on how the bytes are cut into chunks.
use pilot_langgraph.Prelude.{
  ℕ, zero, suc, ◌+◌, ◌≤◌, ◌≡◌, ◌≢◌, refl, sym, ap, ◌∙◌, ◌⊎◌, inl, inr, Option, none, some, List, [],
  ◌∷◌, ◌++◌, length, drop, length-append, length-drop, take-append, drop-append, arith,
}
use pilot_langgraph.Prelude.Result.{Exc, Result, ok, raise, Result-cases}
use pilot_langgraph.Ipc.Bytes.{Bytes, Utf8, unpack_u16_from, unpack_u32_from}
use pilot_langgraph.Ipc.Bytes.Fields.{unpack_u16_from-stable, unpack_u32_from-stable}
use pilot_langgraph.Ipc.Events.{
  Event, with_payload_len, with_topic_len, next_event, split_from, split_events,
}

-- What one turn says once bytes arrive behind the buffer: an event stays, a refusal stays.
abbrev pub grow : Bytes → Result (Option (Event × Bytes)) → Result (Option (Event × Bytes))
grow more (raise e) = raise e
grow more (ok none) = ok none
grow more (ok (some (event, rest))) = ok (some (event, rest ++ more))

module _ (u : Utf8) (more : Bytes) where
  payload_turn :
      (n m : ℕ) (buf : Bytes)
      → with_payload_len u n m buf ≢ ok none
      → with_payload_len u n m (buf ++ more) ≡ grow more (with_payload_len u n m buf)
  unfolding with_payload_len
  payload_turn n m buf h = ground (
    arith,
    length-append buf more,
    drop-append 2 buf more,
    take-append n (drop 2 buf) more,
    length-drop 2 buf,
    drop-append (2 + n + 4) buf more,
    take-append m (drop (2 + n + 4) buf) more,
    length-drop (2 + n + 4) buf,
    drop-append (2 + n + 4 + m) buf more,
  )

  topic_turn :
      (n : ℕ) (buf : Bytes)
      → with_topic_len u n buf ≢ ok none
      → with_topic_len u n (buf ++ more) ≡ grow more (with_topic_len u n buf)
  unfolding with_topic_len
  topic_turn n buf h = elim (Result-cases (unpack_u32_from buf (2 + n))) [
    | inl (m, e) ↦ ground (
      arith,
      e,
      length-append buf more,
      unpack_u32_from-stable buf more (2 + n),
      payload_turn n m buf,
    )
    | inr (x, e) ↦
        ground (arith, e, length-append buf more, unpack_u32_from-stable buf more (2 + n))
  ]

  -- A turn that takes an event, or refuses, does the same with more bytes behind it.
  next_event-append :
      (buf : Bytes)
      → next_event u buf ≢ ok none
      → next_event u (buf ++ more) ≡ grow more (next_event u buf)
  unfolding next_event
  next_event-append buf h = elim (Result-cases (unpack_u16_from buf 0)) [
    | inl (n, e) ↦
        ground
          (arith, e, length-append buf more, unpack_u16_from-stable buf more 0, topic_turn n buf)
    | inr (x, e) ↦ ground (arith, e, length-append buf more, unpack_u16_from-stable buf more 0)
  ]

-- An event takes at least six bytes.
next_event-shrinks :
    (u : Utf8) (buf : Bytes) {event : Event} {rest : Bytes}
    → next_event u buf ≡ ok (some (event, rest))
    → length rest + 6 ≤ length buf
unfolding next_event with_topic_len with_payload_len
next_event-shrinks u buf {event} {rest} h = elim (Result-cases (unpack_u16_from buf 0)) [
  | inr (x, e) ↦ absurd (ground (arith, e))
  | inl (n, e) ↦ elim (Result-cases (unpack_u32_from buf (2 + n))) [
    | inr (x, e') ↦ absurd (ground (arith, e, e'))
    | inl (m, e') ↦ ground (arith, e, e', length-drop (2 + n + 4 + m) buf)
  ]
]

next_event-nil : (u : Utf8) → next_event u [] ≡ ok none
unfolding next_event
next_event-nil u = refl

Turn-cases :
    (r : Result (Option (Event × Bytes)))
    → (r ≡ ok none)
      ⊎ ((x : Exc) × (r ≡ raise x))
      ⊎ ((event : Event) × (rest : Bytes) × (r ≡ ok (some (event, rest))))
Turn-cases (raise x) = inr (inl (x, refl))
Turn-cases (ok none) = inl refl
Turn-cases (ok (some (event, rest))) = inr (inr (event, rest, refl))

abbrev pub Split : Type 0
Split = Result (List Event × Bytes)

-- Puts events in front of those that are still to come.
abbrev pub after : List Event → Split → Split
after events (raise x) = raise x
after events (ok (more, leftover)) = ok (events ++ more, leftover)

pub after-nil : (r : Split) → after [] r ≡ r
after-nil (raise x) = refl
after-nil (ok (events, leftover)) = refl

pub after-cons :
    (event : Event) (events : List Event) (r : Split)
    → after (event ∷ events) r ≡ after (event ∷ []) (after events r)
after-cons event events (raise x) = refl
after-cons event events (ok (more, leftover)) = refl

module _ (u : Utf8) where
  pub split_from-none :
      (f : ℕ) (buf : Bytes) → next_event u buf ≡ ok none → split_from u f buf ≡ ok ([], buf)
  unfolding split_from
  split_from-none zero buf e = refl
  split_from-none (suc f) buf e = rw (e, split_from)

  split_from-raise :
      (f : ℕ) (buf : Bytes) (x : Exc)
      → next_event u buf ≡ raise x
      → split_from u (suc f) buf ≡ raise x
  unfolding split_from
  split_from-raise f buf x e = rw (e, split_from)

  pub split_from-some :
      (f : ℕ) (buf rest : Bytes) (event : Event)
      → next_event u buf ≡ ok (some (event, rest))
      → split_from u (suc f) buf ≡ after (event ∷ []) (split_from u f rest)
  unfolding split_from
  split_from-some f buf rest event e = rw (e, split_from) (ground arith)

  -- More fuel than bytes changes nothing.
  pub split_from-fuel :
      (f g : ℕ) (buf : Bytes)
      → length buf ≤ f
      → length buf ≤ g
      → split_from u f buf ≡ split_from u g buf
  split_from-fuel f g [] hf hg =
      split_from-none f [] (next_event-nil u) ∙ sym (split_from-none g [] (next_event-nil u))
  split_from-fuel zero g (b ∷ buf) hf hg = absurd (omega arith)
  split_from-fuel (suc f) zero (b ∷ buf) hf hg = absurd (omega arith)
  split_from-fuel (suc f) (suc g) (b ∷ buf) hf hg = elim (Turn-cases (next_event u (b ∷ buf))) [
    | inl e ↦ cc (split_from-none (suc f) (b ∷ buf) e, split_from-none (suc g) (b ∷ buf) e)
    | inr (inl (x, e)) ↦ cc (split_from-raise f (b ∷ buf) x e, split_from-raise g (b ∷ buf) x e)
    | inr (inr (event, rest, e)) ↦
        split_from-some f (b ∷ buf) rest event e
        ∙ ap (after (event ∷ [])) (
            split_from-fuel f g rest (omega (arith, next_event-shrinks u (b ∷ buf) e))
              (omega (arith, next_event-shrinks u (b ∷ buf) e)))
        ∙ sym (split_from-some g (b ∷ buf) rest event e)
  ]

  pub split_events-none :
      (buf : Bytes) → next_event u buf ≡ ok none → split_events u buf ≡ ok ([], buf)
  unfolding split_events
  split_events-none buf e = split_from-none (length buf) buf e

  pub split_events-raise :
      (buf : Bytes) (x : Exc) → next_event u buf ≡ raise x → split_events u buf ≡ raise x
  unfolding split_events
  split_events-raise [] x e = cc (next_event-nil u, e)
  split_events-raise (b ∷ buf) x e = split_from-raise (length buf) (b ∷ buf) x e

  pub split_events-some :
      (buf rest : Bytes) (event : Event)
      → next_event u buf ≡ ok (some (event, rest))
      → split_events u buf ≡ after (event ∷ []) (split_events u rest)
  unfolding split_events
  split_events-some [] rest event e = cc (next_event-nil u, e)
  split_events-some (b ∷ buf) rest event e =
      split_from-some (length buf) (b ∷ buf) rest event e
      ∙ ap (after (event ∷ [])) (
          split_from-fuel (length buf) (length rest) rest
            (omega (arith, next_event-shrinks u (b ∷ buf) e)) (omega arith))

  -- Goes on with a second chunk behind what the first one left.
  abbrev pub resume : Split → Bytes → Split
  resume (raise x) more = raise x
  resume (ok (events, leftover)) more = after events (split_events u (leftover ++ more))

  resume-after :
      (event : Event) (r : Split) (more : Bytes)
      → resume (after (event ∷ []) r) more ≡ after (event ∷ []) (resume r more)
  resume-after event (raise x) more = refl
  resume-after event (ok (events, leftover)) more =
      after-cons event events (split_events u (leftover ++ more))

  resume-none :
      (f g : ℕ) (buf more : Bytes)
      → length (buf ++ more) ≤ g
      → next_event u buf ≡ ok none
      → split_from u g (buf ++ more) ≡ resume (split_from u f buf) more
  unfolding split_events
  resume-none f g buf more hg e =
      rw (split_from-none f buf e, after-nil)
        (split_from-fuel g (length (buf ++ more)) (buf ++ more) hg (omega arith))

  split_from-append :
      (f g : ℕ) (buf more : Bytes)
      → length buf ≤ f
      → length (buf ++ more) ≤ g
      → split_from u g (buf ++ more) ≡ resume (split_from u f buf) more
  split_from-append f g [] more hf hg = resume-none f g [] more hg (next_event-nil u)
  split_from-append zero g (b ∷ buf) more hf hg = absurd (omega arith)
  split_from-append (suc f) zero (b ∷ buf) more hf hg = absurd (omega arith)
  split_from-append (suc f) (suc g) (b ∷ buf) more hf hg =
      elim (Turn-cases (next_event u (b ∷ buf))) [
        | inl e ↦ resume-none (suc f) (suc g) (b ∷ buf) more hg e
        | inr (inl (x, e)) ↦ rw (split_from-raise f (b ∷ buf) x e) (
            split_from-raise g (b ∷ buf ++ more) x
              (cc (e, next_event-append u more (b ∷ buf) (λ n. cc (n, e)))))
        | inr (inr (event, rest, e)) ↦
            let shorter = next_event-shrinks u (b ∷ buf) e in
            let longer : next_event u (b ∷ buf ++ more) ≡ ok (some (event, rest ++ more)) =
              cc (e, next_event-append u more (b ∷ buf) (λ n. cc (n, e))) in
            split_from-some g (b ∷ buf ++ more) (rest ++ more) event longer
            ∙ ap (after (event ∷ [])) (
                split_from-append f g rest more (omega arith)
                  (omega (arith, length-append rest more, length-append buf more)))
            ∙ sym (resume-after event (split_from u f rest) more)
            ∙ ap (λ r. resume r more) (sym (split_from-some f (b ∷ buf) rest event e))
      ]

  -- Splitting the concatenation of two chunks gives what splitting the first chunk, and then its
  -- leftover with the second chunk behind it, gives: the same events in the same order, the same
  -- leftover, and the same exception where one is raised. It holds of any two chunks.
  pub split_events-append :
      (buf more : Bytes) → split_events u (buf ++ more) ≡ resume (split_events u buf) more
  unfolding split_events
  split_events-append buf more =
      split_from-append (length buf) (length (buf ++ more)) buf more (omega arith) (omega arith)
