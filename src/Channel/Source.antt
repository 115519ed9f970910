-- ===== src/Channel/Source.antt =====
-- The items of an event source.
use pilot_langgraph.Prelude.{
  ℕ, zero, suc, true, false, ◌+◌, ◌≡◌, refl, ap, Option, none, some, List, [], ◌∷◌, map, take, leb,
  arith,
}
use pilot_langgraph.Ipc.Bytes.{Utf8}
use pilot_langgraph.Ipc.Events.{Event}
use pilot_langgraph.Channel.{item_of, source_stream}

-- The events that a source passes on.
abbrev pub passed_on : Option ℕ → List Event → List Event
passed_on none events = events
passed_on (some zero) events = take 1 events
passed_on (some (suc m)) events = take (suc m) events

module _ (u : Utf8) where
  no_limit : (n : ℕ) (events : List Event) → source_stream u none n events ≡ map (item_of u) events
  unfolding source_stream
  no_limit n [] = refl
  no_limit n (e ∷ events) = ap (◌∷◌ (item_of u e)) (no_limit (suc n) events)

  limited :
      (n k m : ℕ) (events : List Event)
      → m ≡ n + suc k
      → source_stream u (some m) n events ≡ map (item_of u) (take (suc k) events)
  unfolding source_stream
  limited n k m [] h = refl
  limited n zero m (e ∷ events) h = let full : leb m (suc n) ≡ true = ground arith in rw full refl
  limited n (suc k) m (e ∷ events) h =
      let room : leb m (suc n) ≡ false = ground arith in
      rw room (ap (◌∷◌ (item_of u e)) (limited (suc n) k m events (omega arith)))

  -- An event source yields the events of its channel in order: all of them without a limit, the first
  -- `max_events` with one, and one with a limit of none at all.
  pub source_stream-passed_on :
      (max_events : Option ℕ) (events : List Event)
      → source_stream u max_events 0 events ≡ map (item_of u) (passed_on max_events events)
  source_stream-passed_on none events = no_limit 0 events
  source_stream-passed_on (some zero) [] = unfold source_stream in refl
  source_stream-passed_on (some zero) (e ∷ events) = unfold source_stream in refl
  source_stream-passed_on (some (suc m)) events = limited 0 m (suc m) events (omega arith)
