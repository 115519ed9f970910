-- ===== src/Json.antt =====
-- JSON values, as `json.loads` gives them and `json.dumps` takes them. Numbers are the natural ones.
use pilot_langgraph.Prelude.{
  ℕ, zero, suc, Bool, true, false, Option, none, some, List, [], ◌∷◌, String, str_eq, if◌then◌else◌,
}

mutual
  pub data Json : Type 0 where
    null : Json
    bool : Bool → Json
    num : ℕ → Json
    str : String → Json
    arr : Items → Json
    obj : Fields → Json

  pub data Items : Type 0 where
    nil : Items
    cons : Json → Items → Items

  pub data Fields : Type 0 where
    end : Fields
    field : String → Json → Fields → Fields

abbrev pub fields : List (String × Json) → Fields
fields [] = end
fields ((k, v) ∷ l) = field k v (fields l)

-- A `dict` display.
abbrev pub dict : List (String × Json) → Json
dict l = obj (fields l)

pub find : String → Fields → Option Json
find k end = none
find k (field j v l) = if str_eq j k then some v else find k l

-- `d.get(k)`, with a missing key told from a null value; only of a dict.
unfoldable pub get? : String → Json → Option Json
unfolding find
get? k (obj l) = find k l
get? k _ = none

-- `d.get(k)`: `None` for a missing key.
unfoldable pub get : String → Json → Json
unfolding get?
get k j = elim (get? k j) [ none ↦ null | some v ↦ v ]

-- `x is None`
unfoldable pub is_null : Json → Bool
is_null null = true
is_null _ = false

-- Python's truth of a value.
unfoldable pub truthy : Json → Bool
truthy null = false
truthy (bool b) = b
truthy (num n) = elim n [ zero ↦ false | suc _ ↦ true ]
truthy (str s) = if str_eq s "" then false else true
truthy (arr nil) = false
truthy (arr (cons _ _)) = true
truthy (obj end) = false
truthy (obj (field _ _ _)) = true

-- `x or other`
unfoldable pub or_else : Json → Json → Json
unfolding truthy
or_else x other = if truthy x then x else other
