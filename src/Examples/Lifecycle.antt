-- ===== src/Examples/Lifecycle.antt =====
-- The life of a worker of server.py, and the reading of a request.
use pilot_langgraph.Prelude.{
  ◌+◌, ◌≡◌, ◌≢◌, ◌≤◌, ◌⊎◌, inl, inr, refl, true, false, if◌then◌else◌, List, [], ◌∷◌, ◌++◌, length,
  arith,
}
use pilot_langgraph.Json.{num}
use pilot_langgraph.Ipc.Bytes.{Bytes}
use pilot_langgraph.Server.Lifecycle.{
  Service, Event, arrives, wakes, call_ends, request_stop, drain_timeout, daemon_lost, stream, run,
  serve,
}
use pilot_langgraph.Server.Lifecycle.Drain.{IsSound, run-serve-IsSound}
use pilot_langgraph.Server.Lifecycle.Stop.{is_ended, may_start, stop_ends}
use pilot_langgraph.Server.Lifecycle.Busy.{AllEnd}
use pilot_langgraph.Server.Request.{
  Loaded, loaded, malformed, undecodable, read_request, request, broken,
}
use pilot_langgraph.Server.Request.Chunks.{IsWhole, cuts_character, read_request-chunks}

-- A call begins, the stop is requested, and the call ends in the drain.
abbrev shutdown : List Event
shutdown = arrives (stream 5) ∷ wakes ∷ request_stop ∷ wakes ∷ call_ends 5 ∷ []

run-serve-IsSound_example : IsSound (run shutdown (serve true (1 ∷ [])))
run-serve-IsSound_example = run-serve-IsSound true (1 ∷ []) shutdown

-- Two calls in flight, of which one ends in time and the other behind its cancellation.
abbrev busy : List Event
busy = arrives (stream 5) ∷ wakes ∷ arrives (stream 6) ∷ wakes ∷ request_stop ∷ []

abbrev cancelled : Service
cancelled = run (wakes ∷ call_ends 5 ∷ daemon_lost ∷ drain_timeout ∷ []) (run busy (serve false []))

cancelled-AllEnd : AllEnd cancelled (call_ends 6 ∷ [])
unfolding run serve
cancelled-AllEnd c = omega arith

busy_stopping : (run busy (serve false [])).stopping ≡ true
unfolding run serve
busy_stopping = refl

stop_ends_example :
    (may_start cancelled.phase ≡ 0)
    × (length cancelled.started ≤ length (run busy (serve false [])).started + 1)
    × (is_ended (run (call_ends 6 ∷ []) cancelled).phase ≡ true)
stop_ends_example =
    stop_ends false [] busy (call_ends 5 ∷ daemon_lost ∷ drain_timeout ∷ []) (call_ends 6 ∷ [])
      busy_stopping cancelled-AllEnd

-- A loader that knows texts of two bytes, which are one character.
abbrev loads : Bytes → Loaded
loads [] = malformed
loads (a ∷ []) = undecodable
loads (a ∷ b ∷ rest) = loaded (num a)

two-IsWhole : IsWhole loads (7 ∷ 8 ∷ []) (num 7)
two-IsWhole = record { value = refl; parts = parts }
  where
    parts :
        (p q : Bytes)
        → p ++ q ≡ 7 ∷ 8 ∷ []
        → q ≢ []
        → (loads p ≡ malformed) ⊎ (loads p ≡ undecodable)
    parts [] q e n = inl refl
    parts (a ∷ []) q e n = inr refl
    parts (a ∷ b ∷ rest) [] e n = absurd (n refl)
    parts (a ∷ b ∷ []) (c ∷ q) e n = absurd (ground (arith, e))
    parts (a ∷ b ∷ d ∷ rest) (c ∷ q) e n = absurd (ground (arith, e))

read_request-chunks_example :
    read_request loads ((7 ∷ []) ∷ (((8 ∷ []) ∷ []) ++ ((9 ∷ []) ∷ []))) []
    ≡ (if cuts_character loads [] ((7 ∷ []) ∷ (8 ∷ []) ∷ []) then broken else request (num 7))
read_request-chunks_example =
    read_request-chunks loads (7 ∷ 8 ∷ []) (num 7) two-IsWhole (7 ∷ []) ((8 ∷ []) ∷ [])
      ((9 ∷ []) ∷ []) (cc, (cc, tt)) refl
