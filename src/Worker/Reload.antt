-- ===== src/Worker/Reload.antt =====
-- `_reload_handler_module` and `_watch_module_file` of worker.py. The import of a module is an
-- argument: `none` is an exception, and else the module's decorated handlers, as
-- `consume_global_handlers` gives them, and its `register` function, which may also raise where it
-- has changed the server.
use pilot_langgraph.Prelude.{
  ℕ, ◌≡◌, refl, ap, ◌∙◌, Option, none, some, List, String, starts_with, if◌then◌else◌, ◌==◌,
}
use pilot_langgraph.Server.Types.{Registration}
use pilot_langgraph.Server.Registry.{Worker, register_many, clear_user_handlers}
use pilot_langgraph.Server.Registry.Known.{
  IsKnown, clear-IsKnown, register_many-IsKnown, find_reg, last_of, find_reg-clear,
  find_reg-register_many,
}

pub record Module : Type 0 where
  pub decorated : List (String × Registration)
  pub on_import : Option (Worker → Worker)

abbrev pub registered : Option (Worker → Worker) → Worker → Worker
registered none w = w
registered (some f) w = f w

unfoldable pub reload_handler_module : Option Module → Worker → Worker
reload_handler_module none w = w
reload_handler_module (some m) w =
    registered m.on_import (register_many m.decorated (clear_user_handlers w))

-- `_check`, for what `os.stat` gives: the time of the last change that has been seen, and the server.
unfoldable pub check : Option ℕ → Option Module → ℕ × Worker → ℕ × Worker
unfolding reload_handler_module
check none m (last_mtime, w) = (last_mtime, w)
check (some current) m (last_mtime, w) =
    if current == last_mtime then (last_mtime, w) else (current, reload_handler_module m w)

-- Behind a reload of a module without a `register` function, a name leads to the last handler that
-- the new module decorates with it; a name that it does not decorate leads where it led before if
-- it starts with "_", and else nowhere. A module that cannot be imported changes nothing. The table
-- of the server leads to registrations that exist, before and behind.
pub find_reg-reload :
    (name : String) (decorated : List (String × Registration)) (w : Worker)
    → IsKnown w
    → let m : Module = record { decorated = decorated; on_import = none } in
      (find_reg name (reload_handler_module (some m) w)
        ≡ last_of name decorated (if starts_with name "_" then find_reg name w else none))
      × IsKnown (reload_handler_module (some m) w)
      × (reload_handler_module none w ≡ w)
unfolding reload_handler_module
find_reg-reload name decorated w h = (
  find_reg-register_many name decorated (clear_user_handlers w) (clear-IsKnown w h)
      ∙ ap (last_of name decorated) (find_reg-clear name w),
  register_many-IsKnown decorated (clear_user_handlers w) (clear-IsKnown w h),
  refl,
)
