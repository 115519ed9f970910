-- ===== src/Server/Dispatch/Admit.antt =====
-- What `admit` lets in, and what it refuses.
use pilot_langgraph.Prelude.{
  ℕ, ◌≡◌, refl, ap, sym, ◌∙◌, Bool, true, false, Bool-cases, Option-cases, inl, inr, none, some,
  String, ◌==◌, if◌then◌else◌, arith,
}
use pilot_langgraph.Server.Types.{Registration, authorized}
use pilot_langgraph.Server.RateLimiter.{consume}
use pilot_langgraph.Server.Registry.{Worker, lookup, reg_at}
use pilot_langgraph.Server.Dispatch.{entered, permits, acquire, limit_rate, check_caller, admit}

-- The rate limit lets this call through.
abbrev pub within_rate : Registration → ℕ → ℕ → Bool
within_rate reg caller now = elim reg.rate_limiter [
  | none ↦ true
  | some rl ↦ (consume rl caller now).0
]

-- A permit is free.
abbrev pub has_permit : Registration → Bool
has_permit reg = elim (permits reg) [ none ↦ true | some free ↦ if free == 0 then false else true ]

-- The conditions of a call, in the order in which they are tested.
pub record IsLetIn (node : String) (caller now : ℕ) (w : Worker) (a : ℕ) : Type 0 where
  pub reg : Registration
  pub named : lookup node w.handlers ≡ some a
  pub stands : reg_at w a ≡ some reg
  pub caller_allowed : authorized reg caller ≡ true
  pub rate_allows : within_rate reg caller now ≡ true
  pub permit_free : has_permit reg ≡ true

acquire-entered :
    (a b : ℕ) (node : String) (reg : Registration) (w : Worker)
    → (acquire a node reg w).0 ≡ entered b
    → (has_permit reg ≡ true) × (a ≡ b)
unfolding acquire
acquire-entered a b node reg w e = elim (Option-cases (permits reg)) [
  | inl p ↦ (rw (has_permit, p) refl, ground (arith, e, p))
  | inr (free, p) ↦ elim (Bool-cases (free == 0)) [
    | inl busy ↦ absurd (ground (arith, e, p, busy))
    | inr room ↦ (rw (has_permit, p, room) refl, ground (arith, e, p, room))
  ]
]

limit_rate-entered :
    (a b caller now : ℕ) (node : String) (reg : Registration) (w : Worker)
    → (limit_rate a caller now node reg w).0 ≡ entered b
    → (within_rate reg caller now ≡ true) × (has_permit reg ≡ true) × (a ≡ b)
unfolding limit_rate permits
limit_rate-entered a b caller now node reg w e = elim (Option-cases reg.rate_limiter) [
  | inl r ↦
      let (permit, same) = acquire-entered a b node reg w (rw (limit_rate, r) at e) in
      (rw (within_rate, r) refl, permit, same)
  | inr (rl, r) ↦ elim (Bool-cases (consume rl caller now).0) [
    | inl c ↦
        let (permit, same) =
          acquire-entered a b node (record reg { rate_limiter = some (consume rl caller now).1 }) _
            (rw (limit_rate, r, c) at e) in
        (rw (within_rate, r, c) refl, permit, same)
    | inr c ↦ absurd (ground (arith, e, r, c))
  ]
]

-- A call that is let in names a registration of the table whose ACL allows the caller, whose rate
-- limit lets the call through and which has a permit free, and it runs under that registration.
pub admit-IsLetIn :
    (node : String) (caller now : ℕ) (w : Worker) (a : ℕ)
    → (admit node caller now w).0 ≡ entered a
    → IsLetIn node caller now w a
unfolding admit check_caller
admit-IsLetIn node caller now w a e = elim (Option-cases (lookup node w.handlers)) [
  | inl unknown ↦ absurd (ground (arith, e, unknown))
  | inr (b, known) ↦ elim (Option-cases (reg_at w b)) [
    | inl dangling ↦ absurd (ground (arith, e, known, dangling))
    | inr (reg, r) ↦ elim (Bool-cases (authorized reg caller)) [
      | inl allowed ↦
          let (rate, permit, same) =
            limit_rate-entered b a caller now node reg w (rw (admit, known, r, allowed) at e) in
          record {
            reg = reg;
            named = known ∙ ap some same;
            stands = ap (reg_at w) (sym same) ∙ r;
            caller_allowed = allowed;
            rate_allows = rate;
            permit_free = permit;
          }
      | inr denied ↦ absurd (ground (arith, e, known, r, denied))
    ]
  ]
]
