-- ===== src/Server/Request.antt =====
-- The loop of `_handle_one` of server.py that reads the request. The loader is `json.loads` of bytes.
pub mod Chunks
use pilot_langgraph.Prelude.{Option, none, some, List, [], ◌∷◌, ◌++◌}
use pilot_langgraph.Json.{Json}
use pilot_langgraph.Ipc.Bytes.{Bytes}

-- A value, a `JSONDecodeError`, or another exception: bytes that are no UTF-8 are a
-- `UnicodeDecodeError`.
pub data Loaded : Type 0 where
  loaded : Json → Loaded
  malformed : Loaded
  undecodable : Loaded

-- The request with the number of its bytes left out; the end of the stream before that; the exception
-- that ends the call with no reply; a wait for more, which ends by the timeout of the read.
pub data Request : Type 0 where
  request : Json → Request
  gone : Request
  broken : Request
  waiting : Request

module _ (loads : Bytes → Loaded) where
  unfoldable pub read_request : List Bytes → Bytes → Request
  read_request [] buf = waiting
  read_request ([] ∷ chunks) buf = gone
  read_request ((b ∷ chunk) ∷ chunks) buf =
      let now = buf ++ (b ∷ chunk) in
      let rest = read_request chunks now in
      elim (loads now) [ loaded req ↦ request req | malformed ↦ rest | undecodable ↦ broken ]
