-- ===== src/Client/Discover/Handlers.antt =====
-- A client discovers the handlers of a worker.
use pilot_langgraph.Prelude.{
  ◌≡◌, refl, ap, ◌∙◌, Bool, true, false, not, ◌&&◌, ◌||◌, Bool-cases, inl, inr, Option, none, some,
  List, [], ◌∷◌, map, get_elem?, String, str_eq, eq_iff, if◌then◌else◌, starts_with, arith, All,
  Dict, value_of, value_of-assign, eqb_self, string_HasEq,
}
use pilot_langgraph.Json.{Json, get?}
use pilot_langgraph.Server.Types.{Registration, Model}
use pilot_langgraph.Server.Registry.{Table, Worker, lookup}
use pilot_langgraph.Server.Registry.Known.{IsKnown}
use pilot_langgraph.Server.Introspect.{
  items, insert_item, sort_items, items_of, entry, handlers_report,
}
use pilot_langgraph.Client.Discover.{Remote, name_of, add_one, add_all, discover}

has_name : String → List (String × Registration) → Bool
has_name n [] = false
has_name n ((m, reg) ∷ l) = str_eq m n || has_name n l

insert-has_name :
    (n : String) (e : String × Registration) (l : List (String × Registration))
    → has_name n (insert_item e l) ≡ has_name n (e ∷ l)
unfolding has_name insert_item
insert-has_name n e [] = refl
insert-has_name n e (f ∷ l) = ground (arith, insert-has_name n e l)

sort-has_name :
    (n : String) (l : List (String × Registration)) → has_name n (sort_items l) ≡ has_name n l
unfolding has_name sort_items
sort-has_name n [] = refl
sort-has_name n ((m, reg) ∷ l) =
    insert-has_name n (m, reg) (sort_items l) ∙ ap (λ b. str_eq m n || b) (sort-has_name n l)

abbrev pub is_some : {A : Type 0} → Option A → Bool
is_some none = false
is_some (some _) = true

items-has_name :
    (n : String) (regs : List Registration) (t : Table)
    → All (λ e. (reg : Registration) × (get_elem? regs e.1 ≡ some reg)) t
    → has_name n (items regs t) ≡ is_some (lookup n t)
unfolding has_name items lookup
items-has_name n regs [] k = refl
items-has_name n regs ((m, a) ∷ t) k =
    rw (items, (k.0).1) (ground (arith, items-has_name n regs t k.1))

name_of-entry : (schema : Model → Json) (e : String × Registration) → name_of (entry schema e) ≡ e.0
unfolding name_of entry get?
name_of-entry schema e = refl

-- Which names are passed over.
abbrev pub is_hidden : Bool → String → Bool
is_hidden include_introspection name = not include_introspection && starts_with name "_"

add_one-value_of :
    (inc : Bool) (remote : String → Remote) (n m : String) (d : Dict String Remote)
    → value_of n (add_one inc remote m d)
      ≡ (if str_eq m n && not (is_hidden inc n) then some (remote n) else value_of n d)
unfolding add_one
add_one-value_of inc remote n m d = elim (Bool-cases (str_eq m n)) [
  | inl e ↦
      let same : m ≡ n = (eq_iff m n).0 e in
      ap (λ x. value_of n (add_one inc remote x d)) same ∙ elim (Bool-cases (is_hidden inc n)) [
        | inl h ↦ rw (e, h) refl
        | inr h ↦
            rw (e, h) (value_of-assign n n (remote n) d ∙ rw (eqb_self ⦃h = string_HasEq⦄ n) refl)
      ]
  | inr e ↦ elim (Bool-cases (is_hidden inc m)) [
    | inl h ↦ rw (e, h) refl
    | inr h ↦ rw (e, h) (value_of-assign m n (remote m) d ∙ rw e refl)
  ]
]

add_all-value_of :
    (inc : Bool) (remote : String → Remote) (schema : Model → Json) (n : String)
    (l : List (String × Registration)) (d : Dict String Remote)
    → value_of n (add_all inc remote (items_of (map (entry schema) l)) d)
      ≡ (if has_name n l && not (is_hidden inc n) then some (remote n) else value_of n d)
unfolding has_name add_all
add_all-value_of inc remote schema n [] d = refl
add_all-value_of inc remote schema n ((m, reg) ∷ l) d =
    ap
      (λ x.
        value_of n (add_all inc remote (items_of (map (entry schema) l)) (add_one inc remote x d)))
      (name_of-entry schema (m, reg))
    ∙ ground (
      arith,
      add_all-value_of inc remote schema n l (add_one inc remote m d),
      add_one-value_of inc remote n m d,
    )

-- A client that discovers the handlers of a worker, by the answer of the worker's `_handlers`, gets
-- one runnable for each name that is registered, less those that start with "_" unless it asks for
-- them, under that name and for that name, and no other. The table names only registrations that
-- there are.
pub discover-handlers_report :
    (inc : Bool) (remote : String → Remote) (schema : Model → Json) (w : Worker) (n : String)
    → IsKnown w
    → value_of n (discover inc remote (handlers_report schema w))
      ≡ (if is_some (lookup n w.handlers) && not (is_hidden inc n) then some (remote n) else none)
unfolding discover handlers_report get?
discover-handlers_report inc remote schema w n k =
    let l = items w.regs w.handlers in
    add_all-value_of inc remote schema n (sort_items l) []
    ∙ ap (λ b. if b && not (is_hidden inc n) then some (remote n) else none)
        (sort-has_name n l ∙ items-has_name n w.regs w.handlers k)
