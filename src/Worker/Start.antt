-- ===== src/Worker/Start.antt =====
-- The part of `main` of worker.py that builds the server, from the import of the handler module to
-- the test for handlers. `none` is the exit with status 2.
use pilot_langgraph.Prelude.{
  ◌≡◌, ◌≢◌, refl, Bool-cases, inl, inr, Option, none, some, List, [], ◌∷◌, false, length, String,
  str_eq, ℕ,
}
use pilot_langgraph.Server.Types.{Handler, Options, Registration, registration}
use pilot_langgraph.Server.Invoke.{Middleware}
use pilot_langgraph.Server.Registry.{Table, Worker, insert, add, new_server, register_many}
use pilot_langgraph.Worker.Reload.{Module, registered}

-- `if not server.handlers: return 2`
unfoldable pub if_any : Table → Worker → Option Worker
if_any [] w = none
if_any (_ ∷ _) w = some w

unfoldable pub start : Module → Worker → Option Worker
unfolding if_any
start m server =
    let w = registered m.on_import (register_many m.decorated server) in if_any w.handlers w

insert-ne_nil : (name : String) (a : ℕ) (t : Table) → insert name a t ≢ []
unfolding insert
insert-ne_nil name a [] = λ e. cc
insert-ne_nil name a ((n, b) ∷ t) = elim (Bool-cases (str_eq n name)) [
  | inl e ↦ rw e (λ h. cc)
  | inr e ↦ rw e (λ h. cc)
]

add-ne_nil : (name : String) (reg : Registration) (w : Worker) → (add name reg w).handlers ≢ []
unfolding add
add-ne_nil name reg w = insert-ne_nil name (length w.regs) w.handlers

register_many-ne_nil :
    (l : List (String × Registration)) (w : Worker)
    → w.handlers ≢ []
    → (register_many l w).handlers ≢ []
unfolding register_many add
register_many-ne_nil [] w h = h
register_many-ne_nil ((name, reg) ∷ l) w h =
    register_many-ne_nil l (add name reg w) (add-ne_nil name reg w)

if_any-ne_nil : (t : Table) (w : Worker) → t ≢ [] → if_any t w ≡ some w
unfolding if_any
if_any-ne_nil [] w h = absurd (h refl)
if_any-ne_nil (e ∷ t) w h = refl

-- A worker whose module has no `register` function starts whatever handlers the module decorates,
-- also where these are none: a new server has its introspection handlers already, so the test for a
-- module without handlers never stops it.
pub start-new_server :
    (decorated : List (String × Registration)) (health introspect : Handler) (o : Options)
    (mws : List Middleware)
    → let server = new_server health introspect o mws in
      let m : Module = record { decorated = decorated; on_import = none } in
      start m server ≡ some (register_many decorated server)
unfolding start new_server
start-new_server decorated health introspect o mws =
    let bare : Worker = record {
      regs = [];
      handlers = [];
      total_calls = 0;
      total_errors = 0;
      middleware = mws;
      stopping = false;
    } in
    let server = new_server health introspect o mws in
    let all = register_many decorated server in
    if_any-ne_nil all.handlers all (
      register_many-ne_nil decorated server (
        add-ne_nil "_handlers" (registration introspect o)
          (add "_health" (registration health o) bare)))
