-- ===== src/Server/Lifecycle/Periodic.antt =====
-- `_run_periodic` and `add_periodic_task` of server.py.
use pilot_langgraph.Prelude.{ℕ, suc, ◌≡◌, refl, ap, Bool, true, false, List, [], ◌∷◌, ◌++◌, map}
use pilot_langgraph.Prelude.Result.{Result, ok, raise, runtime_error}

-- How a run of the task's function ends.
pub data RunEnd : Type 0 where
  returned : RunEnd
  raised : RunEnd
  cancelled : RunEnd

-- What the wait of a turn gives: the stop, or the interval and then a run, with the stop set by its
-- end or not.
pub data Turn : Type 0 where
  stopped : Turn
  elapsed : RunEnd → Bool → Turn

abbrev pub counted : ℕ × Bool → ℕ × Bool
counted (n, over) = (suc n, over)

-- The runs of the function, and whether the task has ended; `stopping` is the test of the loop.
unfoldable pub run_periodic : Bool → List Turn → ℕ × Bool
run_periodic true turns = (0, true)
run_periodic false [] = (0, false)
run_periodic false (stopped ∷ turns) = (0, true)
run_periodic false (elapsed returned stop ∷ turns) = counted (run_periodic stop turns)
run_periodic false (elapsed raised stop ∷ turns) = counted (run_periodic stop turns)
run_periodic false (elapsed cancelled stop ∷ turns) = (1, true)

-- `add_periodic_task`: only before `serve_forever`.
unfoldable pub add_periodic_task : {A : Type 0} → Bool → A → List A → Result (List A)
add_periodic_task started task tasks = elim started [
  | true ↦ raise runtime_error
  | false ↦ ok (tasks ++ task ∷ [])
]

-- The same turn, with a function that raises nothing.
abbrev pub calmed : Turn → Turn
calmed stopped = stopped
calmed (elapsed raised stop) = elapsed returned stop
calmed (elapsed r stop) = elapsed r stop

-- Exceptions of the function change neither the number of its runs nor the end of the task.
pub run_periodic-calmed :
    (stopping : Bool) (turns : List Turn)
    → run_periodic stopping (map calmed turns) ≡ run_periodic stopping turns
unfolding run_periodic
run_periodic-calmed true turns = refl
run_periodic-calmed false [] = refl
run_periodic-calmed false (stopped ∷ turns) = refl
run_periodic-calmed false (elapsed returned stop ∷ turns) =
    ap counted (run_periodic-calmed stop turns)
run_periodic-calmed false (elapsed raised stop ∷ turns) =
    ap counted (run_periodic-calmed stop turns)
run_periodic-calmed false (elapsed cancelled stop ∷ turns) = refl
