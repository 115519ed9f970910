-- ===== src/Channel/Sessions.antt =====
-- A subscription that is made again and again.
use pilot_langgraph.Prelude.{◌≡◌, refl, ap, ◌∙◌, List, [], ◌∷◌, ◌++◌, append-nil}
use pilot_langgraph.Prelude.Result.{Exc, ok}
use pilot_langgraph.Ipc.Bytes.{Bytes, Utf8}
use pilot_langgraph.Ipc.Events.{Event, split_events}
use pilot_langgraph.Channel.{
  Read, silent, still_open, dropped, Attempt, refused, connected, after_drop, reconnect_loop,
}
use pilot_langgraph.Channel.Pending.{all_events, leftover_none}
use pilot_langgraph.Channel.Iterate.{ending_of, iterate-events}

module _ (u : Utf8) where
  -- What the attempts deliver: the events of the bytes of each stream that is subscribed, one stream
  -- behind the other, up to one that stays open. The bytes of every stream split without an
  -- exception, and behind an attempt that fails the old stream gives nothing more.
  pub data Delivers : List Attempt → List Event → Type 0 where
    no_more : Delivers [] []
    passed_over :
        {attempts : List Attempt} {events : List Event}
        → Delivers attempts events
        → Delivers (refused (silent ∷ []) ∷ attempts) events
    kept_open :
        {reads : List Read} {attempts : List Attempt} {events : List Event} {leftover : Bytes}
        → all_events u reads [] ≡ ok (events, leftover)
        → ending_of reads ≡ still_open
        → Delivers (connected reads ∷ attempts) events
    lost :
        {reads : List Read} {attempts : List Attempt} {events more : List Event} {leftover : Bytes}
        (e : Exc)
        → all_events u reads [] ≡ ok (events, leftover)
        → ending_of reads ≡ dropped e
        → Delivers attempts more
        → Delivers (connected reads ∷ attempts) (events ++ more)

  after_drop-Delivers :
      (e : Exc) (buf : Bytes) (attempts : List Attempt) (events : List Event)
      → split_events u buf ≡ ok ([], buf)
      → Delivers attempts events
      → after_drop u (dropped e) buf attempts ≡ events
  unfolding after_drop
  after_drop-Delivers e buf [] events s no_more = refl
  after_drop-Delivers e buf (refused old ∷ attempts) events s (passed_over d) =
      rw (iterate-events u (silent ∷ []) buf [] buf (ap (split_events u) (append-nil buf) ∙ s))
        (after_drop-Delivers _ buf attempts events s d)
  after_drop-Delivers e buf (connected reads ∷ attempts) events s (kept_open {leftover} h o) =
      rw (iterate-events u reads [] events leftover h, o) (append-nil events)
  after_drop-Delivers e buf (connected reads ∷ attempts) events s
        (lost {events = now} {more} {leftover} x h o d) =
      rw (iterate-events u reads [] now leftover h, o)
        (ap (λ l. now ++ l) (after_drop-Delivers x leftover attempts more (leftover_none u _ h) d))

  -- Where the bytes of every stream split without an exception, and the old stream gives nothing more
  -- while attempts fail: the events that reach the queue of a channel with `auto_reconnect` are, stream by stream in
  -- order, the events of the bytes of each stream: what was left of a stream that was lost never
  -- mixes with the next one, attempts that fail deliver nothing and repeat nothing, and behind a
  -- stream that stays open nothing else comes. The first stream counts as the first attempt that
  -- succeeded.
  pub reconnect_loop-Delivers :
      (reads : List Read) (attempts : List Attempt) (events : List Event)
      → Delivers (connected reads ∷ attempts) events
      → reconnect_loop u reads attempts ≡ events
  unfolding reconnect_loop
  reconnect_loop-Delivers reads attempts events (kept_open {leftover} h o) =
      rw (iterate-events u reads [] events leftover h, o) (append-nil events)
  reconnect_loop-Delivers reads attempts events (lost {events = now} {more} {leftover} x h o d) =
      rw (iterate-events u reads [] now leftover h, o)
        (ap (λ l. now ++ l) (after_drop-Delivers x leftover attempts more (leftover_none u _ h) d))
