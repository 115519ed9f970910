-- ===== src/Examples/Server.antt =====
-- The worker of server.py at concrete calls.
use pilot_langgraph.Prelude.{
  ℕ, ap, str_eq, starts_with, length, if◌then◌else◌, ◌≡◌, ◌≤◌, refl, List, [], ◌∷◌, some, none,
  arith,
}
use pilot_langgraph.Json.{str, null, num}
use pilot_langgraph.Server.Types.{
  Context, returned, plain, Handler, Options, Registration, registration, authorized, last, is_done,
}
use pilot_langgraph.Server.RateLimiter.{init}
use pilot_langgraph.Server.RateLimiter.Runs.{
  Ordered, answers, expected, answers-expected, served, last_time, WithinQuota, served-WithinQuota,
}
use pilot_langgraph.Server.Invoke.{value, unawaited, Drive}
use pilot_langgraph.Server.Invoke.Onion.{Layer, around, inside}
use pilot_langgraph.Server.Invoke.Frames.{IsReply, IsProper}
use pilot_langgraph.Server.Registry.{
  Worker, reg_at, register, new_server, lookup, update, clear_user_handlers,
}
use pilot_langgraph.Server.Registry.Reload.{found-reload}
use pilot_langgraph.Server.Dispatch.Admit.{IsLetIn, admit-IsLetIn}
use pilot_langgraph.Server.Dispatch.Reply.{handle_call-IsReply}
use pilot_langgraph.Server.Dispatch.{
  Admission, entered, undisturbed, handle_call, admit, check_caller, limit_rate, acquire, permits,
}
use pilot_langgraph.Server.Calls.{System, count, let_in, add_handler, Reach, here, step, fresh}
use pilot_langgraph.Server.Calls.Permits.{running-le-max_concurrent}
use pilot_langgraph.Server.Calls.Counters.{IsCounted, fresh-IsCounted}

-- Two calls of one caller in a window, one of another, and one behind the window.
abbrev calls : List (ℕ × ℕ)
calls = (1, 5) ∷ (1, 6) ∷ (2, 6) ∷ (1, 30) ∷ []

calls_Ordered : Ordered 0 calls
calls_Ordered = (omega arith, (omega arith, (omega arith, (omega arith, tt))))

answers-expected_example : answers (init 1 10) calls ≡ expected 1 10 [] calls
answers-expected_example = answers-expected 1 10 calls calls_Ordered

served-WithinQuota_example : WithinQuota 1 10 (served (init 1 10) [] calls) (last_time 0 calls)
served-WithinQuota_example = served-WithinQuota 1 10 calls calls_Ordered

abbrev context : Context
context = record {
  caller_node_id = 1;
  caller_addr = record { network = 0; node = 1 };
  caller_port = 5000;
  request_id = "r";
  started_at = 0;
  handler_name = "echo";
}

abbrev echo : Handler
echo = record { signature = none; body = plain (λ p _. returned p) }

abbrev options : Options
options = record {
  allow = none;
  timeout_secs = some 5;
  rate_per_caller = none;
  rate_window_secs = 60;
  max_concurrent = some 1;
  input_model = none;
  output_model = none;
}

abbrev open_to_all : Options
open_to_all = record {
  allow = none;
  timeout_secs = none;
  rate_per_caller = none;
  rate_window_secs = 60;
  max_concurrent = none;
  input_model = none;
  output_model = none;
}

abbrev tagging : Layer
tagging = around (λ p c. str "in") (λ r c. value (str "out"))

abbrev logging : Layer
logging = inside (λ p c. unawaited)

abbrev start : System
start = fresh echo echo open_to_all []

abbrev with_echo : System
with_echo = record { worker = register "echo" echo options start.worker; running = [] }

abbrev echo_worker : Worker
echo_worker = (admit "echo" 1 0 with_echo.worker).1

abbrev echo_running : System
echo_running = record { worker = echo_worker; running = 2 ∷ [] }

admitted : admit "echo" 1 0 with_echo.worker ≡ (entered 2, echo_worker)
unfolding admit new_server register lookup check_caller authorized limit_rate acquire permits
admitted = refl

echo-Reach : Reach start echo_running
echo-Reach = step (step here (add_handler "echo" echo options)) (let_in "echo" 1 0 admitted)

abbrev echo_reg : Registration
echo_reg = record (registration echo options) { semaphore = some 0 }

echo_at : reg_at echo_worker 2 ≡ some echo_reg
unfolding admit new_server register lookup check_caller authorized limit_rate acquire permits update
echo_at = refl

running-le-max_concurrent_example : count 2 echo_running.running ≤ 1
unfolding registration
running-le-max_concurrent_example =
    running-le-max_concurrent echo echo open_to_all [] echo-Reach 2 echo_reg 1 echo_at refl

fresh-IsCounted_example : IsCounted echo_worker
fresh-IsCounted_example = fresh-IsCounted echo echo open_to_all [] echo-Reach

admit-IsLetIn_example : IsLetIn "echo" 1 0 with_echo.worker 2
admit-IsLetIn_example =
    admit-IsLetIn "echo" 1 0 with_echo.worker 2 (ap (λ (p : Admission × Worker). p.0) admitted)

handle_call-IsReply_example :
    IsReply (handle_call "echo" (num 3) context 0 7 undisturbed with_echo.worker).0
handle_call-IsReply_example = handle_call-IsReply "echo" (num 3) context 0 7 with_echo.worker

-- A handler that has sent nothing when its deadline comes.
abbrev slow : Drive
slow = record { frames = last null ∷ []; raises = none }

slow-IsProper : IsProper slow
slow-IsProper = unfold is_done in refl

found-reload_example :
    (lookup "_health" (register "new" echo options (clear_user_handlers echo_worker)).handlers ≡ (
      if str_eq "new" "_health"
      then some (length echo_worker.regs)
      else if starts_with "_health" "_"
      then lookup "_health" echo_worker.handlers
      else none))
    × (reg_at
          (register "new" echo options (clear_user_handlers echo_worker))
          (length echo_worker.regs)
        ≡ some (registration echo options))
    × (reg_at (register "new" echo options (clear_user_handlers echo_worker)) 2 ≡ some echo_reg)
found-reload_example = found-reload "new" "_health" echo options echo_worker 2 echo_reg echo_at
