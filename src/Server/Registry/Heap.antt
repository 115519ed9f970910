-- ===== src/Server/Registry/Heap.antt =====
-- Reads of the heap of registrations behind writes to it.
use pilot_langgraph.Prelude.{
  ℕ, zero, suc, ◌+◌, ◌≡◌, refl, Option, none, some, List, [], ◌∷◌, ◌++◌, length, get_elem?, ◌==◌,
  if◌then◌else◌, arith,
}
use pilot_langgraph.Server.Types.{Registration}
use pilot_langgraph.Server.Registry.{update}

abbrev pub written : Registration → Option Registration → Option Registration
written r none = none
written r (some _) = some r

pub get_elem?-update :
    (xs : List Registration) (a b : ℕ) (r : Registration)
    → get_elem? (update a r xs) b ≡ (if a == b then written r (get_elem? xs b) else get_elem? xs b)
unfolding update
get_elem?-update [] a b r = ground arith
get_elem?-update (x ∷ xs) zero zero r = ground arith
get_elem?-update (x ∷ xs) zero (suc b) r = ground arith
get_elem?-update (x ∷ xs) (suc a) zero r = ground arith
get_elem?-update (x ∷ xs) (suc a) (suc b) r = ground (arith, get_elem?-update xs a b r)

pub get_elem?-snoc :
    (xs : List Registration) (r : Registration) (b : ℕ)
    → get_elem? (xs ++ r ∷ []) b ≡ (if b == length xs then some r else get_elem? xs b)
get_elem?-snoc [] r zero = ground arith
get_elem?-snoc [] r (suc b) = ground arith
get_elem?-snoc (x ∷ xs) r zero = ground arith
get_elem?-snoc (x ∷ xs) r (suc b) = ground (arith, get_elem?-snoc xs r b)

pub get_elem?-length : (xs : List Registration) → get_elem? xs (length xs) ≡ none
get_elem?-length [] = refl
get_elem?-length (x ∷ xs) = get_elem?-length xs

-- The sum of a field over the heap.
unfoldable pub sum_over : (Registration → ℕ) → List Registration → ℕ
sum_over f [] = 0
sum_over f (x ∷ xs) = f x + sum_over f xs

pub sum_over-update :
    (f : Registration → ℕ) (xs : List Registration) (a : ℕ) (old new : Registration)
    → get_elem? xs a ≡ some old
    → sum_over f (update a new xs) + f old ≡ sum_over f xs + f new
unfolding sum_over update
sum_over-update f [] a old new e = cc
sum_over-update f (x ∷ xs) zero old new e = ground arith
sum_over-update f (x ∷ xs) (suc a) old new e = omega (arith, sum_over-update f xs a old new e)

pub sum_over-snoc :
    (f : Registration → ℕ) (xs : List Registration) (r : Registration)
    → sum_over f (xs ++ r ∷ []) ≡ sum_over f xs + f r
unfolding sum_over
sum_over-snoc f [] r = omega arith
sum_over-snoc f (x ∷ xs) r = omega (arith, sum_over-snoc f xs r)

pub get_elem?-update_self :
    (xs : List Registration) (a : ℕ) (old new : Registration)
    → get_elem? xs a ≡ some old
    → get_elem? (update a new xs) a ≡ some new
get_elem?-update_self xs a old new e = ground (arith, get_elem?-update xs a a new, e)
