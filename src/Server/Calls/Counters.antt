-- ===== src/Server/Calls/Counters.antt =====
-- The counters of the worker against those of its registrations.
use pilot_langgraph.Prelude.{
  ℕ, ◌+◌, ◌-◌, ◌≤◌, ◌≡◌, refl, ap, subst, some, Option-cases, Bool-cases, inl, inr, List, get_elem?,
  String, ◌==◌, arith,
}
use pilot_langgraph.Prelude.Result.{ok}
use pilot_langgraph.Server.Types.{Handler, Options, Registration, registration, authorized, Message}
use pilot_langgraph.Server.Stats.{Stats, no_stats, count_call, count_error}
use pilot_langgraph.Server.RateLimiter.{consume}
use pilot_langgraph.Server.Invoke.{Middleware}
use pilot_langgraph.Server.Registry.{
  Worker, lookup, reg_at, update, register, new_server, authorize, clear_user_handlers,
  use_middleware, request_stop,
}
use pilot_langgraph.Server.Registry.Heap.{
  get_elem?-update_self, sum_over, sum_over-update, sum_over-snoc,
}
use pilot_langgraph.Server.Dispatch.{
  Admission, permits, acquire, limit_rate, check_caller, admit, put_reg, Ending, completed,
  deadline, raised, cancelled, release, settle, count_failure, finish,
}
use pilot_langgraph.Server.Calls.{
  System, Step, let_in, turn_away, end_call, add_handler, drop_handlers, set_acl, add_middleware,
  stop, Reach, here, step, fresh,
}

abbrev pub calls_of : Registration → ℕ
calls_of reg = reg.stats.calls

abbrev pub errors_of : Registration → ℕ
errors_of reg = reg.stats.errors

-- The totals are the sums over all registrations that the server has made, dropped ones included.
pub record IsCounted (w : Worker) : Type 0 where
  pub calls : w.total_calls ≡ sum_over calls_of w.regs
  pub errors : w.total_errors ≡ sum_over errors_of w.regs
  pub errors_le : w.total_errors ≤ w.total_calls

-- A write that leaves the statistics alone.
put-IsCounted :
    (a : ℕ) (reg reg' : Registration) (w : Worker)
    → reg_at w a ≡ some reg
    → reg'.stats ≡ reg.stats
    → IsCounted w
    → IsCounted (put_reg a reg' w)
put-IsCounted a reg reg' w e same c = record {
  calls = omega (
    arith,
    c.calls,
    sum_over-update calls_of w.regs a reg reg' e,
    ap (λ (s : Stats). s.calls) same,
  );
  errors = omega (
    arith,
    c.errors,
    sum_over-update errors_of w.regs a reg reg' e,
    ap (λ (s : Stats). s.errors) same,
  );
  errors_le = c.errors_le;
}

acquire-IsCounted :
    (a : ℕ) (node : String) (reg : Registration) (w : Worker)
    → reg_at w a ≡ some reg
    → IsCounted w
    → IsCounted (acquire a node reg w).1
unfolding acquire
acquire-IsCounted a node reg w e c = elim (Option-cases (permits reg)) [
  | inl unlimited ↦ rw (unlimited, acquire) c
  | inr (free, p) ↦ elim (Bool-cases (free == 0)) [
    | inl busy ↦
        rw (p, busy, acquire) (put-IsCounted a reg (record reg { semaphore = some 0 }) w e refl c)
    | inr room ↦
        rw (p, room, acquire)
          (put-IsCounted a reg (record reg { semaphore = some (free - 1) }) w e refl c)
  ]
]

limit_rate-IsCounted :
    (a caller now : ℕ) (node : String) (reg : Registration) (w : Worker)
    → reg_at w a ≡ some reg
    → IsCounted w
    → IsCounted (limit_rate a caller now node reg w).1
unfolding limit_rate
limit_rate-IsCounted a caller now node reg w e c = elim (Option-cases reg.rate_limiter) [
  | inl open_to_all ↦ rw (open_to_all, limit_rate) (acquire-IsCounted a node reg w e c)
  | inr (rl, r) ↦
      let reg' : Registration = record reg { rate_limiter = some (consume rl caller now).1 } in
      let c' = put-IsCounted a reg reg' w e refl c in
      elim (Bool-cases (consume rl caller now).0) [
        | inl let_through ↦
            rw (r, let_through, limit_rate)
              (acquire-IsCounted a node reg' (put_reg a reg' w)
                (get_elem?-update_self w.regs a reg reg' e) c')
        | inr over ↦ rw (r, over, limit_rate) c'
      ]
]

admit-IsCounted :
    (node : String) (caller now : ℕ) (w : Worker)
    → IsCounted w
    → IsCounted (admit node caller now w).1
unfolding admit check_caller
admit-IsCounted node caller now w c = elim (Option-cases (lookup node w.handlers)) [
  | inl unknown ↦ rw (unknown, admit) c
  | inr (a, known) ↦ elim (Option-cases (reg_at w a)) [
    | inl dangling ↦ rw (known, dangling, admit) c
    | inr (reg, e) ↦ elim (Bool-cases (authorized reg caller)) [
      | inl allowed ↦
          rw (known, e, allowed, admit) (limit_rate-IsCounted a caller now node reg w e c)
      | inr denied ↦ rw (known, e, denied, admit) c
    ]
  ]
]

release_same : (reg : Registration) → (release reg).stats ≡ reg.stats
unfolding release
release_same reg = ground arith

module _ (a latency : ℕ) (reg : Registration) (w : Worker) (e : reg_at w a ≡ some reg)
    (c : IsCounted w) where
  -- The statistics that a write leaves, as sums.
  moved :
      (f : Registration → ℕ) (s : Stats)
      → sum_over f (update a (record (release reg) { stats = s }) w.regs) + f reg
        ≡ sum_over f w.regs + f (record (release reg) { stats = s })
  moved f s = sum_over-update f w.regs a reg _ e

  same_calls : (release reg).stats.calls ≡ reg.stats.calls
  same_calls = ap (λ (s : Stats). s.calls) (release_same reg)

  same_errors : (release reg).stats.errors ≡ reg.stats.errors
  same_errors = ap (λ (s : Stats). s.errors) (release_same reg)

  failed-IsCounted : (m : Message) → IsCounted (count_failure a latency (release reg) m w).0
  unfolding count_failure count_error
  failed-IsCounted m =
      let now : Stats = count_error latency (release reg).stats in
      record {
        calls = omega (arith, c.calls, same_calls, moved calls_of now);
        errors = omega (arith, c.errors, same_errors, moved errors_of now);
        errors_le = omega (arith, c.errors_le);
      }

  settle-IsCounted : (ending : Ending) → IsCounted (settle a latency (release reg) ending w).0
  unfolding settle count_call
  settle-IsCounted completed =
      let now : Stats = count_call latency (release reg).stats in
      record {
        calls = omega (arith, c.calls, same_calls, moved calls_of now);
        errors = omega (arith, c.errors, same_errors, moved errors_of now);
        errors_le = omega (arith, c.errors_le);
      }
  settle-IsCounted deadline = failed-IsCounted _
  settle-IsCounted (raised x) = failed-IsCounted _
  settle-IsCounted cancelled = put-IsCounted a reg (release reg) w e (release_same reg) c

finish-IsCounted :
    (a latency : ℕ) (ending : Ending) (w : Worker)
    → IsCounted w
    → IsCounted (finish a latency ending w).0
unfolding finish
finish-IsCounted a latency ending w c = elim (Option-cases (reg_at w a)) [
  | inl dangling ↦ rw (dangling, finish) c
  | inr (reg, e) ↦ rw (e, finish) (settle-IsCounted a latency reg w e c ending)
]

register-IsCounted :
    (name : String) (fn : Handler) (o : Options) (w : Worker)
    → IsCounted w
    → IsCounted (register name fn o w)
unfolding register no_stats
register-IsCounted name fn o w c = record {
  calls = omega (arith, c.calls, sum_over-snoc calls_of w.regs (registration fn o));
  errors = omega (arith, c.errors, sum_over-snoc errors_of w.regs (registration fn o));
  errors_le = c.errors_le;
}

authorize-IsCounted :
    (name : String) (allow : List ℕ) (w w' : Worker)
    → authorize name allow w ≡ ok w'
    → IsCounted w
    → IsCounted w'
unfolding authorize
authorize-IsCounted name allow w w' e c = elim (Option-cases (lookup name w.handlers)) [
  | inl unknown ↦ absurd (ground (arith, e, unknown))
  | inr (a, known) ↦ elim (Option-cases (get_elem? w.regs a)) [
    | inl dangling ↦ absurd (ground (arith, e, known, dangling))
    | inr (reg, at_a) ↦
        let reg' : Registration = record reg { allow = some allow } in
        let same : put_reg a reg' w ≡ w' = ground (arith, e, known, at_a) in
        subst IsCounted same (put-IsCounted a reg reg' w at_a refl c)
  ]
]

abbrev SystemIsCounted : System → Type 0
SystemIsCounted s = IsCounted s.worker

Step-IsCounted : {s t : System} → Step s t → SystemIsCounted s → SystemIsCounted t
unfolding clear_user_handlers use_middleware request_stop
Step-IsCounted {s} (let_in node caller now e) c =
    subst IsCounted (ap (λ (p : Admission × Worker). p.1) e)
      (admit-IsCounted node caller now s.worker c)
Step-IsCounted {s} (turn_away node caller now e) c =
    subst IsCounted (ap (λ (p : Admission × Worker). p.1) e)
      (admit-IsCounted node caller now s.worker c)
Step-IsCounted {s} (end_call before after a latency ending e) c =
    finish-IsCounted a latency ending s.worker c
Step-IsCounted {s} (add_handler name fn o) c = register-IsCounted name fn o s.worker c
Step-IsCounted drop_handlers c = record {
  calls = c.calls;
  errors = c.errors;
  errors_le = c.errors_le;
}
Step-IsCounted {s} (set_acl {w} name allow e) c = authorize-IsCounted name allow s.worker w e c
Step-IsCounted (add_middleware mw) c = record {
  calls = c.calls;
  errors = c.errors;
  errors_le = c.errors_le;
}
Step-IsCounted stop c = record { calls = c.calls; errors = c.errors; errors_le = c.errors_le }

Reach-IsCounted : {s t : System} → Reach s t → SystemIsCounted s → SystemIsCounted t
Reach-IsCounted here c = c
Reach-IsCounted (step r st) c = Step-IsCounted st (Reach-IsCounted r c)

new_server-IsCounted :
    (health introspect : Handler) (o : Options) (mws : List Middleware)
    → IsCounted (new_server health introspect o mws)
unfolding new_server sum_over no_stats
new_server-IsCounted health introspect o mws = record {
  calls = refl;
  errors = refl;
  errors_le = omega arith;
}

-- In every state that a new server can reach, the totals of the server are the sums of the counters
-- of the registrations that it has made (those it has dropped since included), and it counts no more
-- errors than calls.
pub fresh-IsCounted :
    (health introspect : Handler) (o : Options) (mws : List Middleware) {s : System}
    → Reach (fresh health introspect o mws) s
    → IsCounted s.worker
fresh-IsCounted health introspect o mws r =
    Reach-IsCounted r (new_server-IsCounted health introspect o mws)
