-- ===== src/Server/Dispatch.antt =====
-- `_handle_one` of server.py from the parsed request on: `admit` is the part up to the acquisition of
-- the semaphore, with no wait in it, `finish` the part behind the end of the drive. The semaphore is
-- made on first use, and `locked()` says that no permit is free.
pub mod Admit
pub mod Reply
use pilot_langgraph.Prelude.{
  ℕ, suc, ◌+◌, ◌-◌, ◌++◌, Bool, true, false, Option, none, some, List, [], ◌∷◌, get_elem?, String,
  str_eq, ◌==◌, if◌then◌else◌, take,
}
use pilot_langgraph.Json.{Json}
use pilot_langgraph.Server.Types.{
  Context, PyExc, exc, Registration, authorized, Message, no_handler, not_allowed, rate_limit,
  concurrency_limit, timed_out, exception, ErrorType, handler_not_found, unauthorized, rate_limited,
  handler_error, Frame, failure,
}
use pilot_langgraph.Server.Stats.{count_call, count_error}
use pilot_langgraph.Server.RateLimiter.{RateLimiter, consume}
use pilot_langgraph.Server.Invoke.{Drive, drive, chain_of}
use pilot_langgraph.Server.Registry.{Worker, lookup, reg_at, update}

-- An error frame at once, or the address of the registration whose handler runs.
pub data Admission : Type 0 where
  refused : Frame → Admission
  entered : ℕ → Admission

abbrev pub put_reg : ℕ → Registration → Worker → Worker
put_reg a reg w = record w { regs = update a reg w.regs }

-- `Registration.semaphore()`: the free permits.
unfoldable pub permits : Registration → Option ℕ
permits reg = elim reg.max_concurrent [
  | none ↦ none
  | some m ↦ elim reg.semaphore [ none ↦ some m | some free ↦ some free ]
]

-- The concurrency limit, and the acquisition of a permit.
unfoldable pub acquire : ℕ → String → Registration → Worker → Admission × Worker
acquire a node reg w = elim (permits reg) [
  | none ↦ (entered a, w)
  | some free ↦
      if free == 0
      then (
        refused (
            failure rate_limited
              (concurrency_limit (elim reg.max_concurrent [ none ↦ 0 | some m ↦ m ]) node)),
        put_reg a (record reg { semaphore = some 0 }) w,
      )
      else (entered a, put_reg a (record reg { semaphore = some (free - 1) }) w)
]

-- The rate limit, and what follows it.
unfoldable pub limit_rate : ℕ → ℕ → ℕ → String → Registration → Worker → Admission × Worker
limit_rate a caller now node reg w = elim reg.rate_limiter [
  | none ↦ acquire a node reg w
  | some rl ↦
      let (let_through, rl') = consume rl caller now in
      let reg' = record reg { rate_limiter = some rl' } in
      if let_through then acquire a node reg' (put_reg a reg' w) else (
        refused (failure rate_limited (rate_limit rl.limit rl.window_secs node)),
        put_reg a reg' w,
      )
]

unfoldable pub check_caller : ℕ → ℕ → ℕ → String → Registration → Worker → Admission × Worker
check_caller a caller now node reg w =
    if authorized reg caller
    then limit_rate a caller now node reg w
    else (refused (failure unauthorized (not_allowed caller node)), w)

unfoldable pub admit : String → ℕ → ℕ → Worker → Admission × Worker
admit node caller now w = elim (lookup node w.handlers) [
  | none ↦ (refused (failure handler_not_found (no_handler node)), w)
  | some a ↦ elim (reg_at w a) [
    | none ↦ (refused (failure handler_not_found (no_handler node)), w)
    | some reg ↦ check_caller a caller now node reg w
  ]
]

-- How the `async with` block of a call ends.
pub data Ending : Type 0 where
  completed : Ending
  deadline : Ending
  raised : PyExc → Ending
  cancelled : Ending

-- `Semaphore.release`, on the way out of the block.
unfoldable pub release : Registration → Registration
release reg = elim reg.semaphore [
  | none ↦ reg
  | some free ↦ record reg { semaphore = some (free + 1) }
]

-- `asyncio.TimeoutError` is the built-in `TimeoutError`, which user code raises too.
unfoldable pub is_timeout : PyExc → Bool
is_timeout (exc kind text) = str_eq kind "TimeoutError"
is_timeout _ = false

abbrev pub handler_failed : Message → Frame
handler_failed m = failure handler_error m

-- The counters of a call that failed, and its frame.
unfoldable pub count_failure : ℕ → ℕ → Registration → Message → Worker → Worker × List Frame
unfolding count_error
count_failure a latency reg m w = (
  record w {
    total_calls = w.total_calls + 1;
    total_errors = w.total_errors + 1;
    regs = update a (record reg { stats = count_error latency reg.stats }) w.regs;
  },
  handler_failed m ∷ [],
)

unfoldable pub settle : ℕ → ℕ → Registration → Ending → Worker → Worker × List Frame
settle a latency reg completed w = (
  record w {
    total_calls = w.total_calls + 1;
    regs = update a (record reg { stats = count_call latency reg.stats }) w.regs;
  },
  [],
)
settle a latency reg deadline w = count_failure a latency reg (timed_out reg.timeout_secs) w
settle a latency reg (raised e) w =
    count_failure a latency reg (if is_timeout e then timed_out reg.timeout_secs else exception e) w
settle a latency reg cancelled w = (put_reg a reg w, [])

-- The end of a call whose registration stands at `a`: the permit goes back, and then the counters.
unfoldable pub finish : ℕ → ℕ → Ending → Worker → Worker × List Frame
finish a latency ending w = elim (reg_at w a) [
  | none ↦ (w, [])
  | some reg ↦ settle a latency (release reg) ending w
]

-- What stops a drive from outside: its deadline, after some of its frames, or a cancellation.
pub data Interrupt : Type 0 where
  undisturbed : Interrupt
  at_deadline : ℕ → Interrupt
  at_cancel : ℕ → Interrupt

-- The frames that a drive has sent when its block ends, and how the block ends.
unfoldable pub run_drive : Drive → Interrupt → List Frame × Ending
run_drive d undisturbed = (d.frames, elim d.raises [ none ↦ completed | some e ↦ raised e ])
run_drive d (at_deadline n) = (take n d.frames, deadline)
run_drive d (at_cancel n) = (take n d.frames, cancelled)

-- The frames and the worker behind the admission.
unfoldable pub reply_to :
    Admission → String → Json → Context → ℕ → Interrupt → Worker → List Frame × Worker
reply_to (refused f) node payload ctx latency interrupt w = (f ∷ [], w)
reply_to (entered a) node payload ctx latency interrupt w = elim (reg_at w a) [
  | none ↦ ([], w)
  | some reg ↦
      let (sent, ending) =
        run_drive (drive reg (chain_of node w.middleware) payload ctx) interrupt in
      let (w', more) = finish a latency ending w in (sent ++ more, w')
]

-- A call that runs alone: all its frames, and the worker behind it.
unfoldable pub handle_call :
    String → Json → Context → ℕ → ℕ → Interrupt → Worker → List Frame × Worker
handle_call node payload ctx now latency interrupt w =
    let (admission, w') = admit node ctx.caller_node_id now w in
    reply_to admission node payload ctx latency interrupt w'
