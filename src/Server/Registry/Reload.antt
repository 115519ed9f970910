-- ===== src/Server/Registry/Reload.antt =====
-- Registering and dropping handlers.
use pilot_langgraph.Prelude.{
  ◌≡◌, refl, ap, sym, ◌∙◌, false, Bool-cases, inl, inr, none, some, List, [], ◌∷◌, length, String,
  str_eq, starts_with, if◌then◌else◌, eq_iff, arith, eqb_self, eqb-false, string_HasEq, nat_HasEq,
  ℕ, get_elem?, ◌==◌,
}
use pilot_langgraph.Server.Types.{Handler, Options, Registration, registration}
use pilot_langgraph.Server.Registry.{
  Table, Worker, lookup, insert, keep_private, reg_at, register, clear_user_handlers,
}
use pilot_langgraph.Server.Registry.Heap.{get_elem?-snoc, get_elem?-length}

pub lookup-insert :
    (name other : String) (a : ℕ) (t : Table)
    → lookup other (insert name a t) ≡ (if str_eq name other then some a else lookup other t)
unfolding lookup insert
lookup-insert name other a [] = refl
lookup-insert name other a ((n, b) ∷ t) = elim (Bool-cases (str_eq n name)) [
  | inl e ↦
      let agree : str_eq n other ≡ str_eq name other =
        ap (λ x. str_eq x other) ((eq_iff n name).0 e) in
      elim (Bool-cases (str_eq name other)) [
        | inl f ↦ rw (e, agree, f) refl
        | inr f ↦ rw (e, agree, f) refl
      ]
  | inr e ↦ elim (Bool-cases (str_eq n other)) [
    | inl f ↦
        let apart : str_eq name other ≡ false =
          eqb-false ⦃h = string_HasEq⦄ name other
            (λ p. absurd (ground (arith, e, (eq_iff n name).1 ((eq_iff n other).0 f ∙ sym p)))) in
        rw (e, f, apart) refl
    | inr f ↦ rw (e, f) (lookup-insert name other a t)
  ]
]

pub lookup-keep_private :
    (name : String) (t : Table)
    → lookup name (keep_private t) ≡ (if starts_with name "_" then lookup name t else none)
unfolding lookup keep_private
lookup-keep_private name [] = ground arith
lookup-keep_private name ((n, a) ∷ t) = elim (Bool-cases (str_eq n name)) [
  | inl e ↦
      let same : starts_with n "_" ≡ starts_with name "_" =
        ap (λ x. starts_with x "_") ((eq_iff n name).0 e) in
      elim (Bool-cases (starts_with name "_")) [
        | inl f ↦ rw (same, f, e) refl
        | inr f ↦ rw (same, f) (lookup-keep_private name t ∙ rw f refl)
      ]
  | inr e ↦ elim (Bool-cases (starts_with n "_")) [
    | inl f ↦ rw (f, e) (lookup-keep_private name t)
    | inr f ↦ rw (f, e) (lookup-keep_private name t)
  ]
]

old :
    (regs : List Registration) (a : ℕ) (reg new : Registration)
    → get_elem? regs a ≡ some reg
    → (if a == length regs then some new else get_elem? regs a) ≡ some reg
old regs a reg new e = elim (Bool-cases (a == length regs)) [
  | inl f ↦
      let at_end : a ≡ length regs = ground arith in
      absurd (ground (arith, e, ap (get_elem? regs) at_end ∙ get_elem?-length regs))
  | inr f ↦ rw f e
]

-- When the user handlers have been cleared and one handler has been registered, its name leads to a
-- new registration of it (no counters, a full semaphore and window), every other name that starts
-- with "_" to what it led to before, and all other names to nothing. A registration that a call in
-- flight holds stays as it is.
pub found-reload :
    (name other : String) (fn : Handler) (o : Options) (w : Worker) (a : ℕ) (reg : Registration)
    → reg_at w a ≡ some reg
    → (lookup other (register name fn o (clear_user_handlers w)).handlers ≡ (
        if str_eq name other
        then some (length w.regs)
        else if starts_with other "_"
        then lookup other w.handlers
        else none))
      × (reg_at (register name fn o (clear_user_handlers w)) (length w.regs)
          ≡ some (registration fn o))
      × (reg_at (register name fn o (clear_user_handlers w)) a ≡ some reg)
unfolding register clear_user_handlers
found-reload name other fn o w a reg e = (
  lookup-insert name other (length w.regs) (keep_private w.handlers)
      ∙ ap (λ r. if str_eq name other then some (length w.regs) else r)
          (lookup-keep_private other w.handlers),
  get_elem?-snoc w.regs (registration fn o) (length w.regs)
      ∙ rw (eqb_self ⦃h = nat_HasEq⦄ (length w.regs)) refl,
  get_elem?-snoc w.regs (registration fn o) a ∙ old w.regs a reg (registration fn o) e,
)
