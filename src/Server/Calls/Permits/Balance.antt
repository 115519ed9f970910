-- ===== src/Server/Calls/Permits/Balance.antt =====
-- What the admission of a call does to the semaphores.
use pilot_langgraph.Prelude.{
  ℕ, suc, ◌+◌, ◌-◌, ◌≡◌, refl, ap, sym, subst, ◌∙◌, true, false, Option, none, some, Option-cases,
  Bool-cases, inl, inr, List, ◌∷◌, get_elem?, String, ◌==◌, arith,
}
use pilot_langgraph.Server.Types.{Registration, authorized}
use pilot_langgraph.Server.RateLimiter.{consume}
use pilot_langgraph.Server.Registry.{Worker, lookup, reg_at, update}
use pilot_langgraph.Server.Registry.Heap.{get_elem?-update, get_elem?-update_self}
use pilot_langgraph.Server.Dispatch.{
  Admission, refused, entered, permits, acquire, limit_rate, check_caller, admit, put_reg, release,
}
use pilot_langgraph.Server.Calls.{count}

-- `n` calls of this registration are running.
abbrev pub Holds : Registration → ℕ → Type 0
Holds reg n = elim reg.max_concurrent [
  | none ↦ reg.semaphore ≡ none
  | some m ↦ (elim reg.semaphore [ none ↦ m | some free ↦ free ]) + n ≡ m
]

abbrev pub HoldsAt : Option Registration → ℕ → Type 0
HoldsAt none n = n ≡ 0
HoldsAt (some reg) n = Holds reg n

-- At every address.
abbrev pub Balanced : List Registration → List ℕ → Type 0
Balanced regs running = (a : ℕ) → HoldsAt (get_elem? regs a) (count a running)

pub self_eq : (a : ℕ) → (a == a) ≡ true
self_eq a = ground arith

-- What holds where `a` is, and where it is not, holds everywhere.
split_at : (P : ℕ → Type 0) (a : ℕ) → P a → ((b : ℕ) → (a == b) ≡ false → P b) → (b : ℕ) → P b
split_at P a at_a there b = elim (Bool-cases (a == b)) [
  | inl e ↦ let e' : a ≡ b = ground arith in rw (← e') at_a
  | inr e ↦ there b e
]

module _ (regs : List Registration) (running running' : List ℕ) (a : ℕ) where
  abbrev pub SameElsewhere : Type 0
  SameElsewhere = (b : ℕ) → (a == b) ≡ false → count b running' ≡ count b running

  -- The calls at one address change, and its registration allows for it.
  Balanced-recount :
      HoldsAt (get_elem? regs a) (count a running')
      → SameElsewhere
      → Balanced regs running
      → Balanced regs running'
  Balanced-recount h same bal =
      split_at (λ b. HoldsAt (get_elem? regs b) (count b running')) a h
        λ b ne. rw (same b ne) (bal b)

  -- The same, with a write to the registration.
  pub Balanced-update :
      (old new : Registration)
      → get_elem? regs a ≡ some old
      → Holds new (count a running')
      → SameElsewhere
      → Balanced regs running
      → Balanced (update a new regs) running'
  Balanced-update old new e h same bal =
      split_at (λ b. HoldsAt (get_elem? (update a new regs) b) (count b running')) a
        (rw (get_elem?-update regs a a new, self_eq a, e) h)
        λ b ne. rw (get_elem?-update regs a b new, ne, same b ne) (bal b)

Holds-unlimited : (reg : Registration) (n n' : ℕ) → permits reg ≡ none → Holds reg n → Holds reg n'
unfolding permits
Holds-unlimited reg n n' p h = ground arith

-- A permit is taken.
Holds-take :
    (reg : Registration) (n free : ℕ)
    → permits reg ≡ some free
    → (free == 0) ≡ false
    → Holds reg n
    → Holds (record reg { semaphore = some (free - 1) }) (suc n)
unfolding permits
Holds-take reg n free p room h = ground arith

-- The semaphore is made, and no permit taken.
Holds-make :
    (reg : Registration) (n free : ℕ)
    → permits reg ≡ some free
    → Holds reg n
    → Holds (record reg { semaphore = some free }) n
unfolding permits
Holds-make reg n free p h = ground arith

-- A permit goes back.
pub Holds-release : (reg : Registration) (n : ℕ) → Holds reg (suc n) → Holds (release reg) n
unfolding release
Holds-release reg n h = ground arith

-- What a call of `admit` or of one of its parts leaves.
abbrev pub AdmitOk : List ℕ → Admission × Worker → Type 0
AdmitOk running (entered a, w) = Balanced w.regs (a ∷ running)
AdmitOk running (refused f, w) = Balanced w.regs running

module _ (a : ℕ) (node : String) (running : List ℕ) where
  one_more : (b : ℕ) → (a == b) ≡ false → count b (a ∷ running) ≡ count b running
  one_more b e = rw e

  one_here : count a (a ∷ running) ≡ suc (count a running)
  one_here = rw (self_eq a)

  holds :
      (reg : Registration) (w : Worker)
      → reg_at w a ≡ some reg
      → Balanced w.regs running
      → Holds reg (count a running)
  holds reg w e bal = rw e at (bal a)

  acquire-AdmitOk :
      (reg : Registration) (w : Worker)
      → reg_at w a ≡ some reg
      → Balanced w.regs running
      → AdmitOk running (acquire a node reg w)
  unfolding acquire
  acquire-AdmitOk reg w e bal = elim (Option-cases (permits reg)) [
    | inl unlimited ↦
        rw (unlimited, acquire)
          (Balanced-recount w.regs running (a ∷ running) a
            (rw e (Holds-unlimited reg _ _ unlimited (holds reg w e bal))) one_more bal)
    | inr (free, p) ↦ elim (Bool-cases (free == 0)) [
      | inl busy ↦
          let none_left : free ≡ 0 = ground arith in
          rw (p, busy, acquire)
            (Balanced-update w.regs running running a reg (record reg { semaphore = some 0 }) e
              (Holds-make reg (count a running) 0 (p ∙ ap some none_left) (holds reg w e bal))
              (λ b ne. refl) bal)
      | inr room ↦
          rw (p, room, acquire)
            (Balanced-update w.regs running (a ∷ running) a reg _ e
              (subst (Holds (record reg { semaphore = some (free - 1) })) (sym one_here)
                (Holds-take reg (count a running) free p room (holds reg w e bal)))
              one_more bal)
    ]
  ]

  -- A write that leaves the limit and the semaphore alone.
  pub put-Balanced :
      (reg reg' : Registration) (w : Worker)
      → reg_at w a ≡ some reg
      → (Holds reg (count a running) → Holds reg' (count a running))
      → Balanced w.regs running
      → Balanced (update a reg' w.regs) running
  put-Balanced reg reg' w e keeps bal =
      Balanced-update w.regs running running a reg reg' e (keeps (holds reg w e bal)) (λ b ne. refl)
        bal

  limit_rate-AdmitOk :
      (caller now : ℕ) (reg : Registration) (w : Worker)
      → reg_at w a ≡ some reg
      → Balanced w.regs running
      → AdmitOk running (limit_rate a caller now node reg w)
  unfolding limit_rate
  limit_rate-AdmitOk caller now reg w e bal = elim (Option-cases reg.rate_limiter) [
    | inl open_to_all ↦ rw (open_to_all, limit_rate) (acquire-AdmitOk reg w e bal)
    | inr (rl, r) ↦
        let reg' : Registration = record reg { rate_limiter = some (consume rl caller now).1 } in
        let bal' = put-Balanced reg reg' w e (λ h. h) bal in
        elim (Bool-cases (consume rl caller now).0) [
          | inl let_through ↦
              rw (r, let_through, limit_rate)
                (acquire-AdmitOk reg' (put_reg a reg' w) (get_elem?-update_self w.regs a reg reg' e)
                  bal')
          | inr over ↦ rw (r, over, limit_rate) bal'
        ]
  ]

check_caller-AdmitOk :
    (a : ℕ) (node : String) (running : List ℕ) (caller now : ℕ) (reg : Registration) (w : Worker)
    → reg_at w a ≡ some reg
    → Balanced w.regs running
    → AdmitOk running (check_caller a caller now node reg w)
unfolding check_caller
check_caller-AdmitOk a node running caller now reg w e bal =
    elim (Bool-cases (authorized reg caller)) [
      | inl allowed ↦ rw allowed (limit_rate-AdmitOk a node running caller now reg w e bal)
      | inr denied ↦ rw denied bal
    ]

pub admit-AdmitOk :
    (node : String) (caller now : ℕ) (w : Worker) (running : List ℕ)
    → Balanced w.regs running
    → AdmitOk running (admit node caller now w)
unfolding admit
admit-AdmitOk node caller now w running bal = elim (Option-cases (lookup node w.handlers)) [
  | inl unknown ↦ rw (unknown, admit) bal
  | inr (a, known) ↦ elim (Option-cases (reg_at w a)) [
    | inl dangling ↦ rw (known, dangling, admit) bal
    | inr (reg, e) ↦
        rw (known, e, admit) (check_caller-AdmitOk a node running caller now reg w e bal)
  ]
]
