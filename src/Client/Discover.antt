-- ===== src/Client/Discover.antt =====
-- `PilotRemoteRunnable.adiscover` of runnables.py, behind the call of `_handlers`. A handler's name
-- is taken to be a text, and the listing a `dict` whose "handlers" are a list.
pub mod Handlers
use pilot_langgraph.Prelude.{
  ℕ, Bool, true, false, not, ◌&&◌, Option, none, some, List, [], String, if◌then◌else◌, starts_with,
  Dict, assign, string_HasEq,
}
use pilot_langgraph.Json.{Json, str, arr, get?, Items, nil, cons}

-- The arguments of `PilotRemoteRunnable` that `adiscover` gives.
pub record Remote : Type 0 where
  pub node : String
  pub peer : String
  pub port : ℕ
  pub timeout_secs : ℕ
  pub socket_path : Option String

-- `h.get("name", "")`
unfoldable pub name_of : Json → String
name_of h = elim (get? "name" h) [ none ↦ "" | some (str s) ↦ s | some _ ↦ "" ]

module _ (include_introspection : Bool) (remote : String → Remote) where
  unfoldable pub add_one : String → Dict String Remote → Dict String Remote
  add_one name out =
      if not include_introspection && starts_with name "_"
      then out
      else assign name (remote name) out

  unfoldable pub add_all : Items → Dict String Remote → Dict String Remote
  add_all nil out = out
  add_all (cons h hs) out = add_all hs (add_one (name_of h) out)

  -- `listing.get("handlers", [])`
  unfoldable pub discover : Json → Dict String Remote
  unfolding add_one add_all name_of
  discover listing = elim (get? "handlers" listing) [ some (arr hs) ↦ add_all hs [] | _ ↦ [] ]

unfoldable pub remote_at : String → ℕ → ℕ → Option String → String → Remote
remote_at peer port timeout_secs socket_path name = record {
  node = name;
  peer = peer;
  port = port;
  timeout_secs = timeout_secs;
  socket_path = socket_path;
}
