-- ===== src/Server/Dispatch/Reply.antt =====
-- The reply of a whole call.
use pilot_langgraph.Prelude.{
  ℕ, ◌≡◌, refl, true, Option-cases, Bool-cases, inl, inr, some, List, [], ◌∷◌, ◌++◌, String,
  append-nil, take, ◌==◌,
}
use pilot_langgraph.Json.{Json}
use pilot_langgraph.Server.Types.{Context, PyExc, exc, Registration, Frame, is_done, authorized}
use pilot_langgraph.Server.RateLimiter.{consume}
use pilot_langgraph.Server.Invoke.{Drive, drive, chain_of}
use pilot_langgraph.Server.Invoke.Frames.{IsReply, IsOpen, IsReply-append, IsProper, drive-IsProper}
use pilot_langgraph.Server.Registry.{Worker, lookup, reg_at}
use pilot_langgraph.Server.Registry.Heap.{get_elem?-update_self}
use pilot_langgraph.Server.Dispatch.{
  Admission, refused, entered, permits, acquire, limit_rate, check_caller, admit, Ending, completed,
  deadline, raised, cancelled, finish, settle, count_failure, Interrupt, undisturbed, at_deadline,
  at_cancel, run_drive, reply_to, handle_call,
}

-- The registration of a call that is let in stands where the call says.
abbrev Stands : Admission × Worker → Type 0
Stands (refused f, w) = is_done f ≡ true
Stands (entered a, w) = (reg : Registration) × (reg_at w a ≡ some reg)

acquire-Stands :
    (a : ℕ) (node : String) (reg : Registration) (w : Worker)
    → reg_at w a ≡ some reg
    → Stands (acquire a node reg w)
unfolding acquire is_done
acquire-Stands a node reg w e = elim (Option-cases (permits reg)) [
  | inl p ↦ rw (acquire, p) (reg, e)
  | inr (free, p) ↦ elim (Bool-cases (free == 0)) [
    | inl busy ↦ rw (acquire, p, busy) refl
    | inr room ↦ rw (acquire, p, room) (_, get_elem?-update_self w.regs a reg _ e)
  ]
]

limit_rate-Stands :
    (a caller now : ℕ) (node : String) (reg : Registration) (w : Worker)
    → reg_at w a ≡ some reg
    → Stands (limit_rate a caller now node reg w)
unfolding limit_rate is_done
limit_rate-Stands a caller now node reg w e = elim (Option-cases reg.rate_limiter) [
  | inl r ↦ rw (limit_rate, r) (acquire-Stands a node reg w e)
  | inr (rl, r) ↦ elim (Bool-cases (consume rl caller now).0) [
    | inl c ↦
        rw (limit_rate, r, c) (acquire-Stands a node _ _ (get_elem?-update_self w.regs a reg _ e))
    | inr c ↦ rw (limit_rate, r, c) refl
  ]
]

admit-Stands : (node : String) (caller now : ℕ) (w : Worker) → Stands (admit node caller now w)
unfolding admit check_caller is_done
admit-Stands node caller now w = elim (Option-cases (lookup node w.handlers)) [
  | inl unknown ↦ rw (admit, unknown) refl
  | inr (a, known) ↦ elim (Option-cases (reg_at w a)) [
    | inl dangling ↦ rw (admit, known, dangling) refl
    | inr (reg, e) ↦ elim (Bool-cases (authorized reg caller)) [
      | inl allowed ↦ rw (admit, known, e, allowed) (limit_rate-Stands a caller now node reg w e)
      | inr denied ↦ rw (admit, known, e, denied) refl
    ]
  ]
]

-- What `finish` still sends.
abbrev Closes : Ending → List Frame → Type 0
Closes completed l = l ≡ []
Closes cancelled l = l ≡ []
Closes _ l = (f : Frame) × (is_done f ≡ true) × (l ≡ f ∷ [])

finish-Closes :
    (a latency : ℕ) (ending : Ending) (w : Worker) (reg : Registration)
    → reg_at w a ≡ some reg
    → Closes ending (finish a latency ending w).1
unfolding finish settle count_failure is_done
finish-Closes a latency completed w reg e = rw (finish, e) refl
finish-Closes a latency cancelled w reg e = rw (finish, e) refl
finish-Closes a latency deadline w reg e = rw (finish, e) (_, refl, refl)
finish-Closes a latency (raised x) w reg e = rw (finish, e) (_, refl, refl)

-- Frames that are not done, and what an ending adds.
close : (l more : List Frame) (x : PyExc) → IsOpen l → Closes (raised x) more → IsReply (l ++ more)
close l more x o (f, d, e) = rw e (IsReply-append l f o d)

-- The interrupt comes before the last frame has been sent, if it comes.
abbrev pub IsEarly : Drive → Interrupt → Type 0
IsEarly d undisturbed = Unit
IsEarly d (at_deadline n) = IsOpen (take n d.frames)
IsEarly d (at_cancel n) = ⊥

-- A call under a registration that stands at its address, with a drive of the shape that every drive
-- has, sends a whole reply with what `finish` adds: undisturbed, and also where the deadline cuts the
-- drive off before its closing frame.
pub run_drive-IsReply :
    (d : Drive) (i : Interrupt) (a latency : ℕ) (w : Worker) (reg : Registration)
    → IsProper d
    → IsEarly d i
    → reg_at w a ≡ some reg
    → IsReply ((run_drive d i).0 ++ (finish a latency (run_drive d i).1 w).1)
unfolding run_drive
run_drive-IsReply d undisturbed a latency w reg p early e = elim (Option-cases d.raises) [
  | inl n ↦ rw (n, finish-Closes a latency completed w reg e, append-nil d.frames) (rw n at p)
  | inr (x, n) ↦ rw n (close d.frames _ x (rw n at p) (finish-Closes a latency (raised x) w reg e))
]
run_drive-IsReply d (at_deadline n) a latency w reg p early e =
    close (take n d.frames) _ (exc "" "") early (finish-Closes a latency deadline w reg e)
run_drive-IsReply d (at_cancel n) a latency w reg p early e = elim early [ ]

reply_to-IsReply :
    (admission : Admission) (node : String) (payload : Json) (ctx : Context) (latency : ℕ)
    (w : Worker)
    → Stands (admission, w)
    → IsReply (reply_to admission node payload ctx latency undisturbed w).0
unfolding reply_to
reply_to-IsReply (refused f) node payload ctx latency w s = s
reply_to-IsReply (entered a) node payload ctx latency w (reg, e) =
    let d = drive reg (chain_of node w.middleware) payload ctx in
    rw (reply_to, e)
      (run_drive-IsReply d undisturbed a latency w reg (drive-IsProper reg _ payload ctx) tt e)

-- A call that is not interrupted, whatever its handler, middleware and payload do, is answered by
-- frames that are not done and then exactly one that is: a refused call by the one error frame, a
-- call whose handler raises by the frames that it had sent and the error frame.
pub handle_call-IsReply :
    (node : String) (payload : Json) (ctx : Context) (now latency : ℕ) (w : Worker)
    → IsReply (handle_call node payload ctx now latency undisturbed w).0
unfolding handle_call
handle_call-IsReply node payload ctx now latency w =
    reply_to-IsReply _ node payload ctx latency _ (admit-Stands node ctx.caller_node_id now w)
