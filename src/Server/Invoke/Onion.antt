-- ===== src/Server/Invoke/Onion.antt =====
-- The order of the middleware: the first is outermost.
use pilot_langgraph.Prelude.{List, [], ◌∷◌}
use pilot_langgraph.Json.{Json}
use pilot_langgraph.Server.Types.{Context}
use pilot_langgraph.Server.Invoke.{Run, Middleware, coroutine, function}

-- A coroutine function that calls `next_fn` once, with what it does to the payload before and to the
-- result after that, or a function that is none.
pub data Layer : Type 0 where
  around : (Json → Context → Json) → (Run → Context → Run) → Layer
  inside : (Json → Context → Run) → Layer

unfoldable pub wrap : Layer → Middleware
wrap (around before after) =
    coroutine (λ p c next_fn idx. let (r, i) = next_fn (before p c) c idx in (after r c, i))
wrap (inside f) = function f

-- The layers around the handler, the first outermost. Behind a layer that is no coroutine function
-- nothing runs.
unfoldable pub onion : List Layer → (Json → Context → Run) → Json → Context → Run
onion [] handler p c = handler p c
onion (around before after ∷ ls) handler p c = after (onion ls handler (before p c) c) c
onion (inside f ∷ ls) handler p c = f p c
