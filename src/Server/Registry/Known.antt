-- ===== src/Server/Registry/Known.antt =====
-- The table of handlers leads to registrations that exist, and what it finds behind changes of the
-- table.
use pilot_langgraph.Prelude.{
  ℕ, ◌≡◌, refl, ap, sym, ◌∙◌, false, Bool-cases, inl, inr, Option, none, some, List, [], ◌∷◌, ◌++◌,
  length, get_elem?, All, String, str_eq, starts_with, if◌then◌else◌, ◌==◌, arith,
}
use pilot_langgraph.Server.Types.{Handler, Options, Registration, registration}
use pilot_langgraph.Server.Invoke.{Middleware}
use pilot_langgraph.Server.Registry.{
  Table, Worker, lookup, insert, keep_private, add, new_server, register_many, clear_user_handlers,
}
use pilot_langgraph.Server.Registry.Heap.{get_elem?-snoc, get_elem?-length}
use pilot_langgraph.Server.Registry.Reload.{lookup-insert, lookup-keep_private}

abbrev pub Leads : List Registration → String × ℕ → Type 0
Leads regs e = (reg : Registration) × (get_elem? regs e.1 ≡ some reg)

-- The table names only registrations that there are.
abbrev pub IsKnown : Worker → Type 0
IsKnown w = All (Leads w.regs) w.handlers

-- The registration of a name.
abbrev pub find_at : List Registration → Option ℕ → Option Registration
find_at regs none = none
find_at regs (some a) = get_elem? regs a

abbrev pub find_reg : String → Worker → Option Registration
find_reg name w = find_at w.regs (lookup name w.handlers)

kept :
    (regs : List Registration) (new : Registration) (a : ℕ) (reg : Registration)
    → get_elem? regs a ≡ some reg
    → get_elem? (regs ++ new ∷ []) a ≡ some reg
kept regs new a reg e = elim (Bool-cases (a == length regs)) [
  | inl f ↦
      let at_end : a ≡ length regs = ground arith in
      absurd (ground (arith, e, ap (get_elem? regs) at_end ∙ get_elem?-length regs))
  | inr f ↦ get_elem?-snoc regs new a ∙ rw f e
]

kept-All :
    (regs : List Registration) (new : Registration) (t : Table)
    → All (Leads regs) t
    → All (Leads (regs ++ new ∷ [])) t
kept-All regs new [] h = tt
kept-All regs new ((n, a) ∷ t) h =
    (((h.0).0, kept regs new a (h.0).0 (h.0).1), kept-All regs new t h.1)

last_one :
    (regs : List Registration) (new : Registration)
    → get_elem? (regs ++ new ∷ []) (length regs) ≡ some new
last_one regs new = ground (arith, get_elem?-snoc regs new (length regs))

insert-All :
    (regs : List Registration) (name : String) (a : ℕ) (t : Table)
    → Leads regs (name, a)
    → All (Leads regs) t
    → All (Leads regs) (insert name a t)
unfolding insert
insert-All regs name a [] l h = (l, tt)
insert-All regs name a ((n, b) ∷ t) l h = elim (Bool-cases (str_eq n name)) [
  | inl e ↦ rw e (l, h.1)
  | inr e ↦ rw e (h.0, insert-All regs name a t l h.1)
]

pub add-IsKnown :
    (name : String) (reg : Registration) (w : Worker) → IsKnown w → IsKnown (add name reg w)
unfolding add
add-IsKnown name reg w h =
    insert-All (w.regs ++ reg ∷ []) name (length w.regs) w.handlers (reg, last_one w.regs reg)
      (kept-All w.regs reg w.handlers h)

keep_private-All :
    (regs : List Registration) (t : Table) → All (Leads regs) t → All (Leads regs) (keep_private t)
unfolding keep_private
keep_private-All regs [] h = tt
keep_private-All regs ((n, a) ∷ t) h = elim (Bool-cases (starts_with n "_")) [
  | inl e ↦ rw e (h.0, keep_private-All regs t h.1)
  | inr e ↦ rw e (keep_private-All regs t h.1)
]

pub clear-IsKnown : (w : Worker) → IsKnown w → IsKnown (clear_user_handlers w)
unfolding clear_user_handlers
clear-IsKnown w h = keep_private-All w.regs w.handlers h

pub register_many-IsKnown :
    (l : List (String × Registration)) (w : Worker) → IsKnown w → IsKnown (register_many l w)
unfolding register_many
register_many-IsKnown [] w h = h
register_many-IsKnown ((name, reg) ∷ l) w h =
    register_many-IsKnown l (add name reg w) (add-IsKnown name reg w h)

pub new_server-IsKnown :
    (health introspect : Handler) (o : Options) (mws : List Middleware)
    → IsKnown (new_server health introspect o mws)
unfolding new_server
new_server-IsKnown health introspect o mws =
    let bare : Worker = record {
      regs = [];
      handlers = [];
      total_calls = 0;
      total_errors = 0;
      middleware = mws;
      stopping = false;
    } in
    let first = registration health o in
    add-IsKnown "_handlers" (registration introspect o) (add "_health" first bare)
      (add-IsKnown "_health" first bare (tt {0}))

-- A registration that is found stays the one that is found.
found_kept :
    (regs : List Registration) (new : Registration) (name : String) (t : Table)
    → All (Leads regs) t
    → find_at (regs ++ new ∷ []) (lookup name t) ≡ find_at regs (lookup name t)
unfolding lookup
found_kept regs new name [] h = refl
found_kept regs new name ((n, a) ∷ t) h = elim (Bool-cases (str_eq n name)) [
  | inl e ↦ rw e (kept regs new a (h.0).0 (h.0).1 ∙ sym (h.0).1)
  | inr e ↦ rw e (found_kept regs new name t h.1)
]

pub find_reg-add :
    (name other : String) (reg : Registration) (w : Worker)
    → IsKnown w
    → find_reg other (add name reg w) ≡ (if str_eq name other then some reg else find_reg other w)
unfolding add
find_reg-add name other reg w h =
    ap (find_at (w.regs ++ reg ∷ [])) (lookup-insert name other (length w.regs) w.handlers)
    ∙ elim (Bool-cases (str_eq name other)) [
      | inl e ↦ rw e (last_one w.regs reg)
      | inr e ↦ rw e (found_kept w.regs reg other w.handlers h)
    ]

pub find_reg-clear :
    (name : String) (w : Worker)
    → find_reg name (clear_user_handlers w)
      ≡ (if starts_with name "_" then find_reg name w else none)
unfolding clear_user_handlers
find_reg-clear name w =
    ap (find_at w.regs) (lookup-keep_private name w.handlers)
    ∙ elim (Bool-cases (starts_with name "_")) [ inl e ↦ rw e refl | inr e ↦ rw e refl ]

-- The last registration of a name in a mapping.
abbrev pub last_of :
    String → List (String × Registration) → Option Registration → Option Registration
last_of name [] found = found
last_of name ((n, reg) ∷ l) found = last_of name l (if str_eq n name then some reg else found)

pub find_reg-register_many :
    (name : String) (l : List (String × Registration)) (w : Worker)
    → IsKnown w
    → find_reg name (register_many l w) ≡ last_of name l (find_reg name w)
unfolding register_many
find_reg-register_many name [] w h = refl
find_reg-register_many name ((n, reg) ∷ l) w h =
    find_reg-register_many name l (add n reg w) (add-IsKnown n reg w h)
    ∙ ap (last_of name l) (find_reg-add n name reg w h)
