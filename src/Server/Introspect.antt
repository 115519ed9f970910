-- ===== src/Server/Introspect.antt =====
-- The handlers `_health` and `_handlers` of every `WorkerServer`, in `_register_introspection` of
-- server.py. Latencies are hundredths of a millisecond, as `percentile` gives them, and uptimes are
-- given rounded to tenths of a second. `model_json_schema` is a parameter: null where there is none
-- or it fails.
use Prim.Native.String.{compare}
use pilot_langgraph.Prelude.{
  ℕ, true, Option, none, some, List, [], ◌∷◌, map, length, String, if◌then◌else◌, get_elem?,
}
use pilot_langgraph.Json.{Json, null, bool, num, str, arr, dict, Items, nil, cons}
use pilot_langgraph.Server.Types.{Registration, Model}
use pilot_langgraph.Server.Stats.{percentile, sorted}
use pilot_langgraph.Server.Registry.{Table, Worker}
use text.Mathlib.Text.{is_le}

-- `self._handlers.items()`
unfoldable pub items : List Registration → Table → List (String × Registration)
items regs [] = []
items regs ((name, a) ∷ t) = elim (get_elem? regs a) [
  | none ↦ items regs t
  | some reg ↦ (name, reg) ∷ items regs t
]

-- `sorted`, by the names, which differ.
unfoldable pub insert_item :
    String × Registration → List (String × Registration) → List (String × Registration)
insert_item e [] = e ∷ []
insert_item e (f ∷ l) = if is_le (compare e.0 f.0) then e ∷ f ∷ l else f ∷ insert_item e l

unfoldable pub sort_items : List (String × Registration) → List (String × Registration)
unfolding insert_item
sort_items [] = []
sort_items (e ∷ l) = insert_item e (sort_items l)

abbrev pub items_of : List Json → Items
items_of [] = nil
items_of (j ∷ l) = cons j (items_of l)

abbrev pub num_or_null : Option ℕ → Json
num_or_null none = null
num_or_null (some n) = num n

module _ (schema : Model → Json) where
  -- `_schema_of`
  pub schema_of : Option Model → Json
  schema_of none = null
  schema_of (some m) = schema m

  unfoldable pub entry : String × Registration → Json
  unfolding schema_of
  entry (name, reg) = dict (
      ("name", str name)
      ∷ ("allow", elim reg.allow [ none ↦ null | some l ↦ arr (items_of (map num (sorted l))) ])
      ∷ ("calls", num reg.stats.calls)
      ∷ ("errors", num reg.stats.errors)
      ∷ ("p50_ms", num (percentile 50 reg.stats))
      ∷ ("p95_ms", num (percentile 95 reg.stats))
      ∷ ("timeout_secs", num_or_null reg.timeout_secs)
      ∷ ("max_concurrent", num_or_null reg.max_concurrent)
      ∷ ("input_schema", schema_of reg.input_model)
      ∷ ("output_schema", schema_of reg.output_model)
      ∷ [])

  -- `_handlers_introspect`
  unfoldable pub handlers_report : Worker → Json
  unfolding entry items sort_items
  handlers_report w =
      dict (("handlers", arr (items_of (map entry (sort_items (items w.regs w.handlers))))) ∷ [])

-- `_health`
unfoldable pub health_report : String → ℕ → ℕ → Worker → Json
health_report version uptime in_flight w = dict (
    ("ok", bool true)
    ∷ ("version", str version)
    ∷ ("uptime_secs", num uptime)
    ∷ ("in_flight", num in_flight)
    ∷ ("total_calls", num w.total_calls)
    ∷ ("total_errors", num w.total_errors)
    ∷ ("n_handlers", num (length w.handlers))
    ∷ [])
