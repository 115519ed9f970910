-- ===== src/Worker/Trust.antt =====
-- `ensure_trust` of trust.py, for what the calls of `trust_list` give. Node ids are numbers.
use pilot_langgraph.Prelude.{
  ℕ, ◌≡◌, refl, Bool, true, false, ◌&&◌, ◌||◌, Bool-cases, inl, inr, Option, none, some, List, [],
  ◌∷◌, ◌==◌, if◌then◌else◌, arith,
}
use pilot_langgraph.Prelude.Result.{Result, ok, raise, timeout_error}
use pilot_langgraph.Json.{Json, num, bool, get}

-- `int(entry.get("node_id", -1)) == node_id`
unfoldable pub is_of : ℕ → Json → Bool
is_of node_id entry = elim (get "node_id" entry) [ num n ↦ n == node_id | _ ↦ false ]

-- `entry.get("mutual") is True`
unfoldable pub says_mutual : Json → Bool
says_mutual entry = elim (get "mutual" entry) [ bool b ↦ b | _ ↦ false ]

abbrev pub find_entry : (Json → Bool) → List Json → Option Json
find_entry p [] = none
find_entry p (e ∷ es) = if p e then some e else find_entry p es

abbrev pub mutual_with : ℕ → Json → Bool
mutual_with node_id entry = is_of node_id entry && says_mutual entry

-- `_is_mutual`
unfoldable pub is_mutual : ℕ → List Json → Bool
is_mutual node_id entries = elim (find_entry (mutual_with node_id) entries) [
  | none ↦ false
  | some _ ↦ true
]

-- The polls that come before the deadline, with the listing of each.
unfoldable pub poll : ℕ → List (List Json) → Result Json
poll node_id [] = raise timeout_error
poll node_id (entries ∷ polls) =
    let later = poll node_id polls in
    elim (find_entry (mutual_with node_id) entries) [ none ↦ later | some e ↦ ok e ]

-- What the caller gets, and whether a handshake was sent. `first` is the listing for the test and
-- `second` the one that is read again if the test holds.
unfoldable pub ensure_trust : ℕ → List Json → List Json → List (List Json) → Result Json × Bool
unfolding poll
ensure_trust node_id first second polls =
    let shake : Result Json × Bool = (poll node_id polls, true) in
    if is_mutual node_id first
    then elim (find_entry (is_of node_id) second) [ some e ↦ (ok e, false) | none ↦ shake ]
    else shake

-- An entry that is mutual stands in one of the listings.
abbrev pub some_poll : ℕ → List (List Json) → Bool
some_poll node_id [] = false
some_poll node_id (entries ∷ polls) = is_mutual node_id entries || some_poll node_id polls

abbrev pub is_ok : {A : Type 0} → Result A → Bool
is_ok (ok a) = true
is_ok (raise e) = false

find_entry-holds :
    (p : Json → Bool) (es : List Json) (e : Json) → find_entry p es ≡ some e → p e ≡ true
find_entry-holds p [] e h = cc
find_entry-holds p (x ∷ es) e h = elim (Bool-cases (p x)) [
  | inl t ↦ ground (arith, h, t)
  | inr f ↦ find_entry-holds p es e (rw f at h)
]

poll-ok :
    (node_id : ℕ) (polls : List (List Json))
    → (is_ok (poll node_id polls) ≡ some_poll node_id polls)
      × ((e : Json) → poll node_id polls ≡ ok e → mutual_with node_id e ≡ true)
unfolding poll is_mutual
poll-ok node_id [] = (refl, λ e h. cc)
poll-ok node_id (entries ∷ polls) =
    go (find_entry (mutual_with node_id) entries) refl (poll-ok node_id polls)
  where
    go :
        (v : Option Json)
        → find_entry (mutual_with node_id) entries ≡ v
        → (is_ok (poll node_id polls) ≡ some_poll node_id polls)
          × ((e : Json) → poll node_id polls ≡ ok e → mutual_with node_id e ≡ true)
        → (is_ok (poll node_id (entries ∷ polls)) ≡ some_poll node_id (entries ∷ polls))
          × ((e : Json) → poll node_id (entries ∷ polls) ≡ ok e → mutual_with node_id e ≡ true)
    go none q ih = rw (poll, is_mutual, q) ih
    go (some x) q ih =
        rw (poll, is_mutual, q)
          (
            refl,
            λ e h.
                let same : x ≡ e = cc in
                rw (← same) (find_entry-holds (mutual_with node_id) entries x q),
          )

-- Where the node is not mutual at the start: the handshake is sent; the caller gets an entry
-- exactly where some poll before the deadline lists a mutual one of the node, and otherwise an
-- exception; and the entry that it gets is of the node and mutual.
pub ensure_trust-polls :
    (node_id : ℕ) (first second : List Json) (polls : List (List Json))
    → is_mutual node_id first ≡ false
    → let r = ensure_trust node_id first second polls in
      (r.1 ≡ true)
      × (is_ok r.0 ≡ some_poll node_id polls)
      × ((e : Json) → r.0 ≡ ok e → mutual_with node_id e ≡ true)
unfolding ensure_trust
ensure_trust-polls node_id first second polls h =
    let p = poll-ok node_id polls in rw h (refl, p.0, p.1)
