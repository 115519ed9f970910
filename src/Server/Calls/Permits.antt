-- ===== src/Server/Calls/Permits.antt =====
-- The semaphores: free permits and running calls of a registration make up its limit.
pub mod Balance
use pilot_langgraph.Prelude.{
  ℕ, zero, suc, ◌+◌, ◌-◌, ◌≤◌, ◌≡◌, refl, ap, sym, subst, ◌∙◌, Bool, true, false, Option, none,
  some, Option-cases, Bool-cases, inl, inr, List, [], ◌∷◌, ◌++◌, length, get_elem?, String, ◌==◌,
  if◌then◌else◌, arith,
}
use pilot_langgraph.Prelude.Result.{ok}
use pilot_langgraph.Server.Types.{Handler, Options, Registration, registration, authorized}
use pilot_langgraph.Server.RateLimiter.{consume}
use pilot_langgraph.Server.Registry.{
  Worker, Table, lookup, reg_at, update, add, register, new_server, authorize, clear_user_handlers,
  use_middleware, request_stop,
}
use pilot_langgraph.Server.Registry.Heap.{
  written, get_elem?-update, get_elem?-update_self, get_elem?-snoc, get_elem?-length,
}
use pilot_langgraph.Server.Dispatch.{
  Admission, refused, entered, permits, acquire, limit_rate, check_caller, admit, put_reg, Ending,
  completed, deadline, raised, cancelled, release, settle, count_failure, finish,
}
use pilot_langgraph.Server.Invoke.{Middleware}
use pilot_langgraph.Server.Calls.{
  System, count, Step, let_in, turn_away, end_call, add_handler, drop_handlers, set_acl,
  add_middleware, stop, Reach, here, step, fresh,
}
use pilot_langgraph.Server.Calls.Permits.Balance.{
  Holds, HoldsAt, Balanced, self_eq, Balanced-update, Holds-release, AdmitOk, put-Balanced,
  admit-AdmitOk,
}

count-middle :
    (b a : ℕ) (before after : List ℕ)
    → count b (before ++ a ∷ after)
      ≡ (if a == b then suc (count b (before ++ after)) else count b (before ++ after))
count-middle b a [] after = refl
count-middle b a (c ∷ before) after = ground (arith, count-middle b a before after)

settle-Balanced :
    (a latency : ℕ) (before after : List ℕ) (reg : Registration) (ending : Ending) (w : Worker)
    → reg_at w a ≡ some reg
    → Balanced w.regs (before ++ a ∷ after)
    → Balanced (settle a latency (release reg) ending w).0.regs (before ++ after)
unfolding settle count_failure release
settle-Balanced a latency before after reg ending w e bal = go ending
  where
    held : Holds reg (suc (count a (before ++ after)))
    held = subst (Holds reg) (count-middle a a before after ∙ rw (self_eq a)) (rw e at (bal a))

    elsewhere :
        (b : ℕ) → (a == b) ≡ false → count b (before ++ after) ≡ count b (before ++ a ∷ after)
    elsewhere b ne = sym (count-middle b a before after ∙ rw ne)

    put :
        (new : Registration)
        → Holds new (count a (before ++ after))
        → Balanced (update a new w.regs) (before ++ after)
    put new h =
        Balanced-update w.regs (before ++ a ∷ after) (before ++ after) a reg new e h elsewhere bal

    go :
        (ending : Ending)
        → Balanced (settle a latency (release reg) ending w).0.regs (before ++ after)
    go completed = put _ (Holds-release reg _ held)
    go deadline = put _ (Holds-release reg _ held)
    go (raised x) = put _ (Holds-release reg _ held)
    go cancelled = put _ (Holds-release reg _ held)

finish-Balanced :
    (a latency : ℕ) (before after : List ℕ) (ending : Ending) (w : Worker)
    → Balanced w.regs (before ++ a ∷ after)
    → Balanced (finish a latency ending w).0.regs (before ++ after)
unfolding finish
finish-Balanced a latency before after ending w bal = elim (Option-cases (reg_at w a)) [
  | inl dangling ↦ absurd (ground (arith, (rw dangling at (bal a)), count-middle a a before after))
  | inr (reg, e) ↦ rw (e, finish) (settle-Balanced a latency before after reg ending w e bal)
]

Holds-new : (fn : Handler) (o : Options) → Holds (registration fn o) 0
unfolding registration
Holds-new fn o = elim (Option-cases o.max_concurrent) [
  | inl e ↦ rw e refl
  | inr (m, e) ↦ rw e (omega arith)
]

add-Balanced :
    (name : String) (fn : Handler) (o : Options) (w : Worker) (running : List ℕ)
    → Balanced w.regs running
    → Balanced (register name fn o w).regs running
unfolding register
add-Balanced name fn o w running bal b = elim (Bool-cases (b == length w.regs)) [
  | inl new ↦
      let at_end : b ≡ length w.regs = ground arith in
      let unused : count b running ≡ 0 =
        subst (λ r. HoldsAt r (count b running))
          (ap (get_elem? w.regs) at_end ∙ get_elem?-length w.regs) (bal b) in
      rw (get_elem?-snoc w.regs _ b, new, unused) (Holds-new fn o)
  | inr old ↦ rw (get_elem?-snoc w.regs _ b, old) (bal b)
]

authorize-Balanced :
    (name : String) (allow : List ℕ) (w w' : Worker) (running : List ℕ)
    → authorize name allow w ≡ ok w'
    → Balanced w.regs running
    → Balanced w'.regs running
unfolding authorize
authorize-Balanced name allow w w' running e bal = elim (Option-cases (lookup name w.handlers)) [
  | inl unknown ↦ absurd (ground (arith, e, unknown))
  | inr (a, known) ↦ elim (Option-cases (get_elem? w.regs a)) [
    | inl dangling ↦ absurd (ground (arith, e, known, dangling))
    | inr (reg, at_a) ↦
        let reg' : Registration = record reg { allow = some allow } in
        let same : update a reg' w.regs ≡ w'.regs = ground (arith, e, known, at_a) in
        subst (λ r. Balanced r running) same
          (put-Balanced a name running reg reg' w at_a (λ h. h) bal)
  ]
]

new_server-Balanced :
    (health introspect : Handler) (o : Options) (mws : List Middleware)
    → Balanced (new_server health introspect o mws).regs []
unfolding new_server
new_server-Balanced health introspect o mws zero = Holds-new health o
new_server-Balanced health introspect o mws (suc zero) = Holds-new introspect o
new_server-Balanced health introspect o mws (suc (suc b)) = refl

abbrev IsBalanced : System → Type 0
IsBalanced s = Balanced s.worker.regs s.running

Step-IsBalanced : {s t : System} → Step s t → IsBalanced s → IsBalanced t
unfolding clear_user_handlers use_middleware request_stop
Step-IsBalanced {s} (let_in {w} {a} node caller now e) bal =
    subst (AdmitOk s.running) e (admit-AdmitOk node caller now s.worker s.running bal)
Step-IsBalanced {s} (turn_away {w} {f} node caller now e) bal =
    subst (AdmitOk s.running) e (admit-AdmitOk node caller now s.worker s.running bal)
Step-IsBalanced {s} (end_call before after a latency ending e) bal =
    finish-Balanced a latency before after ending s.worker (subst (Balanced s.worker.regs) e bal)
Step-IsBalanced {s} (add_handler name fn o) bal = add-Balanced name fn o s.worker s.running bal
Step-IsBalanced drop_handlers bal = bal
Step-IsBalanced {s} (set_acl {w} name allow e) bal =
    authorize-Balanced name allow s.worker w s.running e bal
Step-IsBalanced (add_middleware mw) bal = bal
Step-IsBalanced stop bal = bal

Reach-IsBalanced : {s t : System} → Reach s t → IsBalanced s → IsBalanced t
Reach-IsBalanced here bal = bal
Reach-IsBalanced (step r st) bal = Step-IsBalanced st (Reach-IsBalanced r bal)

-- In every state that a new server can reach, by calls that are let in, turned away or ended in any
-- order, and by handlers that are registered, dropped or given new ACLs meanwhile, the calls that run
-- under a registration are never more than its `max_concurrent`.
pub running-le-max_concurrent :
    (health introspect : Handler) (o : Options) (mws : List Middleware) {s : System}
    → Reach (fresh health introspect o mws) s
    → (a : ℕ) (reg : Registration) (m : ℕ) → reg_at s.worker a ≡ some reg
    → reg.max_concurrent ≡ some m
    → count a s.running ≤ m
running-le-max_concurrent health introspect o mws {s} r a reg m e limit =
    let h : Holds reg (count a s.running) =
      rw e at (Reach-IsBalanced r (new_server-Balanced health introspect o mws) a) in
    ground (arith, h, limit)
