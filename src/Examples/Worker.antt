-- ===== src/Examples/Worker.antt =====
-- What stands around a worker, at concrete inputs.
use pilot_langgraph.Prelude.{length, drop, ◌≡◌, ap, sym, none, some, [], ◌∷◌, ◌++◌, false}
use pilot_langgraph.Json.{Json, num}
use pilot_langgraph.Server.Types.{Context, Handler, Options, plain, returned, registration}
use pilot_langgraph.Server.Invoke.{Run, drive, drive_run}
use pilot_langgraph.Worker.Metrics.Render.{codes, label_start, sample_line, sample_line-read_label}
use pilot_langgraph.Worker.Metrics.{read_label}
use pilot_langgraph.Worker.Testing.{test_handler, outcome_of, is_list, test_handler-drive}

-- A handler's name with a quote and a backslash.
sample_line-read_label_example :
    read_label (drop (length (label_start "calls")) (sample_line "calls" (some "a\"b\\", 52 ∷ [])))
    ≡ some (codes "a\"b\\", codes "} " ++ 52 ∷ [])
sample_line-read_label_example = sample_line-read_label "calls" "a\"b\\" (52 ∷ [])

abbrev constant : Handler
constant = record { signature = none; body = plain (λ p c. returned (num 3)) }

abbrev options : Options
options = record {
  allow = none;
  timeout_secs = none;
  rate_per_caller = none;
  rate_window_secs = 60;
  max_concurrent = none;
  input_model = none;
  output_model = none;
}

abbrev context : Context
context = record {
  caller_node_id = 1;
  caller_addr = record { network = 0; node = 1 };
  caller_port = 5000;
  request_id = "r";
  started_at = 0;
  handler_name = "h";
}

never_list : (r : Json) → returned (num 3) ≡ returned r → is_list r ≡ false
never_list r e = let same : num 3 ≡ r = cc in ap is_list (sym same)

test_handler-drive_example :
    (r : Run) × (drive (registration constant options) [] (num 1) context ≡ drive_run r)
    × (test_handler constant (num 1) context none none ≡ outcome_of r)
test_handler-drive_example =
    test_handler-drive constant options (num 1) context (λ p c r e. never_list r e)
