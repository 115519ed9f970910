-- ===== src/Channel/Iterate.antt =====
-- What the iteration over a stream yields.
use pilot_langgraph.Prelude.{
  ◌≡◌, sym, ap, ◌∙◌, inl, inr, List, [], ◌∷◌, ◌++◌, append-nil, append_assoc, arith,
}
use pilot_langgraph.Prelude.Result.{eof_error, timeout_error, ok, Result-cases}
use pilot_langgraph.Ipc.Bytes.{Bytes, Utf8}
use pilot_langgraph.Ipc.Events.{Event, split_events}
use pilot_langgraph.Ipc.Events.Chunks.{Split, after}
use pilot_langgraph.Channel.{
  Read, got, silent, late, Ending, still_open, dropped, end_with, or_drop, iterate,
}
use pilot_langgraph.Channel.Pending.{coming, all_events, turn, no_raise, leftover_none}

-- How the iteration over these reads ends.
abbrev pub ending_of : List Read → Ending
ending_of [] = still_open
ending_of (got [] ∷ reads) = dropped eof_error
ending_of (got (b ∷ chunk) ∷ reads) = ending_of reads
ending_of (_ ∷ reads) = dropped timeout_error

module _ (u : Utf8) where
  -- Where no bytes are to come, the leftover stays.
  stays :
      (left leftover : Bytes) (more : List Event) (ending : Ending)
      → split_events u left ≡ ok ([], left)
      → split_events u (left ++ []) ≡ ok (more, leftover)
      → end_with u ending left ≡ (more, ending, leftover)
  stays left leftover more ending s m =
      let t : ◌≡◌ {A = Split} (ok ([], left)) (ok (more, leftover)) =
        sym s ∙ ap (split_events u) (sym (append-nil left)) ∙ m in
      ground (arith, t)

  or_drop-now :
      (buf : Bytes) (reads : List Read) (read_more : Bytes → List Event × Ending × Bytes)
      (ending : Ending) (events : List Event) (leftover : Bytes)
      → all_events u reads buf ≡ ok (events, leftover)
      → ((left : Bytes) (more : List Event)
          → split_events u left ≡ ok ([], left)
          → split_events u (left ++ coming reads) ≡ ok (more, leftover)
          → read_more left ≡ (more, ending, leftover))
      → or_drop u (split_events u buf) buf read_more ≡ (events, ending, leftover)
  unfolding or_drop
  or_drop-now buf reads read_more ending events leftover h next =
      elim (Result-cases (split_events u buf)) [
        | inr (x, s) ↦ elim (no_raise u buf (coming reads) s h) [ ]
        | inl ((now, left), s) ↦
            let t : after now (split_events u (left ++ coming reads)) ≡ ok (events, leftover) =
              sym (turn u buf (coming reads) s) ∙ h in
            elim (Result-cases (split_events u (left ++ coming reads))) [
              | inr (x, m) ↦ absurd (ground (arith, t, m))
              | inl ((more, lo), m) ↦
                  let same_left : lo ≡ leftover = ground (arith, t, m) in
                  let same : now ++ more ≡ events = ground (arith, t, m) in
                  rw
                    (
                      s,
                      next left more (leftover_none u buf s) (m ∙ ap (λ l. ok (more, l)) same_left),
                    )
                    (λ i. (same i, ending, leftover))
            ]
      ]

  -- Where the bytes to come hold events and a leftover, the iteration yields exactly these events,
  -- the same that calls of `recv` give, and keeps the leftover.
  pub iterate-events :
      (reads : List Read) (buf : Bytes) (events : List Event) (leftover : Bytes)
      → all_events u reads buf ≡ ok (events, leftover)
      → iterate u reads buf ≡ (events, ending_of reads, leftover)
  unfolding iterate
  iterate-events [] buf events leftover h =
      or_drop-now buf [] _ still_open events leftover h
        λ left more st m. stays left leftover more still_open st m
  iterate-events (got [] ∷ reads) buf events leftover h =
      or_drop-now buf (got [] ∷ reads) _ _ events leftover h
        λ left more st m. stays left leftover more (dropped eof_error) st m
  iterate-events (silent ∷ reads) buf events leftover h =
      or_drop-now buf (silent ∷ reads) _ _ events leftover h
        λ left more st m. stays left leftover more (dropped timeout_error) st m
  iterate-events (late ∷ reads) buf events leftover h =
      or_drop-now buf (late ∷ reads) _ _ events leftover h
        λ left more st m. stays left leftover more (dropped timeout_error) st m
  iterate-events (got (b ∷ chunk) ∷ reads) buf events leftover h =
      or_drop-now buf (got (b ∷ chunk) ∷ reads) _ (ending_of reads) events leftover h
        λ left more st m.
          iterate-events reads (left ++ (b ∷ chunk)) more leftover
            (ap (split_events u) (append_assoc left (b ∷ chunk) (coming reads)) ∙ m)
