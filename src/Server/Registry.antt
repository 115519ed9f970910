-- ===== src/Server/Registry.antt =====
-- The state of a `WorkerServer`, and its table of handlers. Registrations are shared objects: a
-- call in flight holds one that the table may have dropped since. So they stand in a heap, by
-- address, and the table maps a name to an address. `handlers` keeps the order of a `dict`.
pub mod Heap
pub mod Reload
pub mod Known
use pilot_langgraph.Prelude.{
  ℕ, zero, suc, ◌+◌, ◌++◌, Bool, true, false, not, Option, none, some, List, [], ◌∷◌, map, length,
  get_elem?, String, str_eq, starts_with, if◌then◌else◌,
}
use pilot_langgraph.Prelude.Result.{Result, ok, raise, key_error}
use pilot_langgraph.Server.Types.{Handler, Options, Registration, registration}
use pilot_langgraph.Server.Invoke.{Middleware}

abbrev pub Table : Type 0
Table = List (String × ℕ)

pub record Worker : Type 0 where
  pub regs : List Registration
  pub handlers : Table
  pub total_calls : ℕ
  pub total_errors : ℕ
  pub middleware : List Middleware
  pub stopping : Bool

-- `self._handlers.get(name)`
unfoldable pub lookup : String → Table → Option ℕ
lookup name [] = none
lookup name ((n, a) ∷ t) = if str_eq n name then some a else lookup name t

-- `self._handlers[name] = reg`
unfoldable pub insert : String → ℕ → Table → Table
insert name a [] = (name, a) ∷ []
insert name a ((n, b) ∷ t) = if str_eq n name then (n, a) ∷ t else (n, b) ∷ insert name a t

-- The names that do not start with "_" go.
unfoldable pub keep_private : Table → Table
keep_private [] = []
keep_private ((n, a) ∷ t) = if starts_with n "_" then (n, a) ∷ keep_private t else keep_private t

-- The object at an address, and a write to it.
abbrev pub reg_at : Worker → ℕ → Option Registration
reg_at w a = get_elem? w.regs a

unfoldable pub update : ℕ → Registration → List Registration → List Registration
update a r [] = []
update zero r (x ∷ xs) = r ∷ xs
update (suc a) r (x ∷ xs) = x ∷ update a r xs

-- A registration that has just been made gets the next address.
unfoldable pub add : String → Registration → Worker → Worker
add name reg w = record w {
  regs = w.regs ++ reg ∷ [];
  handlers = insert name (length w.regs) w.handlers;
}

-- `WorkerServer.__init__`, with the registrations of `_health` and `_handlers`.
unfoldable pub new_server : Handler → Handler → Options → List Middleware → Worker
unfolding add insert registration
new_server health introspect open_to_all middleware =
    add "_handlers" (registration introspect open_to_all) (
      add "_health" (registration health open_to_all) (record {
        regs = [];
        handlers = [];
        total_calls = 0;
        total_errors = 0;
        middleware = middleware;
        stopping = false;
      }))

unfoldable pub register : String → Handler → Options → Worker → Worker
unfolding add insert registration
register name fn o w = add name (registration fn o) w

-- `register_many`, of the registrations that `pilot_handler` made.
unfoldable pub register_many : List (String × Registration) → Worker → Worker
unfolding add insert
register_many [] w = w
register_many ((name, reg) ∷ l) w = register_many l (add name reg w)

unfoldable pub clear_user_handlers : Worker → Worker
unfolding keep_private
clear_user_handlers w = record w { handlers = keep_private w.handlers }

-- `authorize`: the new ACL, written to the object.
unfoldable pub authorize : String → List ℕ → Worker → Result Worker
unfolding lookup update
authorize name allow w = elim (lookup name w.handlers) [
  | none ↦ raise key_error
  | some a ↦ elim (get_elem? w.regs a) [
    | none ↦ raise key_error
    | some reg ↦ ok (record w { regs = update a (record reg { allow = some allow }) w.regs })
  ]
]

-- `use` and `request_stop`
unfoldable pub use_middleware : Middleware → Worker → Worker
use_middleware mw w = record w { middleware = w.middleware ++ mw ∷ [] }

unfoldable pub request_stop : Worker → Worker
request_stop w = record w { stopping = true }

-- `_GLOBAL_HANDLERS`: `pilot_handler` adds to it, `consume_global_handlers` takes all of it.
abbrev pub Globals : Type 0
Globals = List (String × Registration)

pub set_global : String → Registration → Globals → Globals
set_global name reg [] = (name, reg) ∷ []
set_global name reg ((n, r) ∷ g) =
    if str_eq n name then (n, reg) ∷ g else (n, r) ∷ set_global name reg g

unfoldable pub pilot_handler : String → Handler → Options → Globals → Globals
unfolding set_global registration
pilot_handler name fn o g = set_global name (registration fn o) g

unfoldable pub consume_global_handlers : Globals → Globals × Globals
consume_global_handlers g = (g, [])
