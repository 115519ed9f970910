-- ===== src/Examples/Ipc.antt =====
-- Addresses, messages and events of _ipc.py at concrete inputs.
use pilot_langgraph.Prelude.{◌≡◌, refl, [], ◌∷◌, ◌++◌, arith}
use pilot_langgraph.Prelude.Result.{ok, ◌>>=◌}
use pilot_langgraph.Ipc.Bytes.{Text, Utf8}
use pilot_langgraph.Ipc.Address.{Addr, to_string, parse}
use pilot_langgraph.Ipc.Address.RoundTrip.{InRange, parse-to_string}
use pilot_langgraph.Ipc.Events.{Event, encode_events, split_events}
use pilot_langgraph.Ipc.Events.Chunks.{after, resume, split_events-append}
use pilot_langgraph.Ipc.Events.RoundTrip.{Fits, split_events-encode_events}

-- The encoding of the texts below U+0080.
abbrev ascii : Utf8
ascii = record { encode = λ t. t; decode = λ b. b; decode-encode = λ t. refl }

abbrev peer : Addr
peer = record { network = 18; node = 305419896 }

peer-InRange : InRange peer
peer-InRange = record { network = omega arith; node = omega arith }

parse-to_string_example : parse (to_string peer) ≡ ok peer
parse-to_string_example = parse-to_string peer peer-InRange

abbrev peer_text : Text
peer_text = to_string peer

abbrev tick : Event
tick = record { topic = 116 ∷ []; payload = 1 ∷ 2 ∷ 3 ∷ [] }

abbrev tock : Event
tock = record { topic = 111 ∷ 107 ∷ []; payload = [] }

tick-Fits : Fits ascii tick
tick-Fits = record { topic = omega arith; payload = omega arith }

tock-Fits : Fits ascii tock
tock-Fits = record { topic = omega arith; payload = omega arith }

split_events-encode_events_example :
    (encode_events ascii (tick ∷ tock ∷ []) >>= λ sent. split_events ascii (sent ++ 0 ∷ []))
    ≡ after (tick ∷ tock ∷ []) (split_events ascii (0 ∷ []))
split_events-encode_events_example =
    split_events-encode_events ascii (tick ∷ tock ∷ []) (0 ∷ []) (tick-Fits, (tock-Fits, tt))

-- A frame that is cut behind its topic length.
split_events-append_example :
    split_events ascii ((0 ∷ 1 ∷ []) ++ 116 ∷ 0 ∷ 0 ∷ 0 ∷ 1 ∷ 9 ∷ [])
    ≡ resume ascii (split_events ascii (0 ∷ 1 ∷ [])) (116 ∷ 0 ∷ 0 ∷ 0 ∷ 1 ∷ 9 ∷ [])
split_events-append_example = split_events-append ascii (0 ∷ 1 ∷ []) (116 ∷ 0 ∷ 0 ∷ 0 ∷ 1 ∷ 9 ∷ [])
