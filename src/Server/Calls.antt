-- ===== src/Server/Calls.antt =====
-- Interleavings of the calls of one worker: calls are let in, turned away and end in any order, while
-- handlers are registered, dropped and given new ACLs.
pub mod Permits
pub mod Counters
use pilot_langgraph.Prelude.{ℕ, suc, ◌≡◌, List, [], ◌∷◌, ◌++◌, String, ◌==◌, if◌then◌else◌}
use pilot_langgraph.Prelude.Result.{ok}
use pilot_langgraph.Server.Types.{Handler, Options, Registration, registration, Frame}
use pilot_langgraph.Server.Invoke.{Middleware}
use pilot_langgraph.Server.Registry.{
  Worker, new_server, register, clear_user_handlers, authorize, use_middleware, request_stop,
}
use pilot_langgraph.Server.Dispatch.{refused, entered, admit, Ending, finish}

-- A worker and the registrations, by address, of the calls that it runs.
pub record System : Type 0 where
  pub worker : Worker
  pub running : List ℕ

abbrev pub count : ℕ → List ℕ → ℕ
count a [] = 0
count a (b ∷ l) = if b == a then suc (count a l) else count a l

pub data Step : System → System → Type 0 where
  let_in :
      {s : System} {w : Worker} {a : ℕ} (node : String) (caller now : ℕ)
      → admit node caller now s.worker ≡ (entered a, w)
      → Step s (record { worker = w; running = a ∷ s.running })
  turn_away :
      {s : System} {w : Worker} {f : Frame} (node : String) (caller now : ℕ)
      → admit node caller now s.worker ≡ (refused f, w)
      → Step s (record { worker = w; running = s.running })
  end_call :
      {s : System} (before after : List ℕ) (a latency : ℕ) (ending : Ending)
      → s.running ≡ before ++ a ∷ after
      → Step s (record { worker = (finish a latency ending s.worker).0; running = before ++ after })
  add_handler :
      {s : System} (name : String) (fn : Handler) (o : Options)
      → Step s (record { worker = register name fn o s.worker; running = s.running })
  drop_handlers :
      {s : System} → Step s (record { worker = clear_user_handlers s.worker; running = s.running })
  set_acl :
      {s : System} {w : Worker} (name : String) (allow : List ℕ)
      → authorize name allow s.worker ≡ ok w
      → Step s (record { worker = w; running = s.running })
  add_middleware :
      {s : System} (mw : Middleware)
      → Step s (record { worker = use_middleware mw s.worker; running = s.running })
  stop : {s : System} → Step s (record { worker = request_stop s.worker; running = s.running })

pub data Reach (s : System) : System → Type 0 where
  here : Reach s s
  step : {t u : System} → Reach s t → Step t u → Reach s u

-- A server that has just been made.
abbrev pub fresh : Handler → Handler → Options → List Middleware → System
fresh health introspect open_to_all middleware = record {
  worker = new_server health introspect open_to_all middleware;
  running = [];
}
