-- ===== src/Examples/Channel.antt =====
-- A subscription of channel.py over concrete bytes.
use pilot_langgraph.Prelude.{◌≡◌, refl, List, [], ◌∷◌, ◌++◌, arith}
use pilot_langgraph.Prelude.Result.{ok, eof_error}
use pilot_langgraph.Ipc.Bytes.{Utf8, unpack_u16_from, unpack_u32_from}
use pilot_langgraph.Ipc.Events.{Event, split_events}
use pilot_langgraph.Ipc.Events.RoundTrip.{Fits}
use pilot_langgraph.Channel.{Read, silent, got, Rest, Attempt, refused, connected, reconnect_loop}
use pilot_langgraph.Channel.Pending.{all_events}
use pilot_langgraph.Channel.Recv.{Receives, recv-Receives}
use pilot_langgraph.Channel.Sessions.{
  Delivers, kept_open, lost, passed_over, reconnect_loop-Delivers,
}

-- The encoding of the texts below U+0080.
abbrev ascii : Utf8
ascii = record { encode = λ t. t; decode = λ b. b; decode-encode = λ t. refl }

abbrev opened : Event
opened = record { topic = 116 ∷ []; payload = 7 ∷ [] }

abbrev closed : Event
closed = record { topic = 117 ∷ []; payload = [] }

-- Two events in one chunk and a half, and the end of the stream.
abbrev reads : List Read
reads =
    got (0 ∷ 1 ∷ 116 ∷ 0 ∷ 0 ∷ [])
    ∷ got (0 ∷ 1 ∷ 7 ∷ 0 ∷ 1 ∷ 117 ∷ 0 ∷ 0 ∷ 0 ∷ 0 ∷ 9 ∷ [])
    ∷ got []
    ∷ []

held : all_events ascii reads [] ≡ ok (opened ∷ closed ∷ [], 9 ∷ [])
unfolding split_events unpack_u16_from unpack_u32_from
held = refl

opened-Fits : Fits ascii opened
opened-Fits = record { topic = omega arith; payload = omega arith }

closed-Fits : Fits ascii closed
closed-Fits = record { topic = omega arith; payload = omega arith }

recv-Receives_example :
    (last : Rest) × Receives ascii (opened ∷ closed ∷ []) reads [] last
    × (all_events ascii last.reads last.buf ≡ ok ([], 9 ∷ []))
recv-Receives_example =
    recv-Receives ascii (opened ∷ closed ∷ []) reads [] (9 ∷ []) held
      (opened-Fits, (closed-Fits, tt))

-- The stream is lost, an attempt fails, the next one succeeds and stays open.
abbrev attempts : List Attempt
attempts = refused (silent ∷ []) ∷ connected (got (0 ∷ 1 ∷ 116 ∷ 0 ∷ 0 ∷ 0 ∷ 1 ∷ 7 ∷ []) ∷ []) ∷ []

held_again :
    all_events ascii (got (0 ∷ 1 ∷ 116 ∷ 0 ∷ 0 ∷ 0 ∷ 1 ∷ 7 ∷ []) ∷ []) [] ≡ ok (opened ∷ [], [])
unfolding split_events unpack_u16_from unpack_u32_from
held_again = refl

delivered : Delivers ascii (connected reads ∷ attempts) ((opened ∷ closed ∷ []) ++ opened ∷ [])
delivered = lost eof_error held refl (passed_over (kept_open held_again refl))

reconnect_loop-Delivers_example :
    reconnect_loop ascii reads attempts ≡ (opened ∷ closed ∷ []) ++ opened ∷ []
reconnect_loop-Delivers_example =
    reconnect_loop-Delivers ascii reads attempts ((opened ∷ closed ∷ []) ++ opened ∷ []) delivered
