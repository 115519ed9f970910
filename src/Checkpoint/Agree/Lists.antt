-- ===== src/Checkpoint/Agree/Lists.antt =====
-- The rows of a thread behind an `INSERT OR REPLACE`.
use pilot_langgraph.Prelude.{
  ◌≡◌, refl, sym, ap, subst, ◌∙◌, false, Bool-cases, inl, inr, Option, none, some, List, [], ◌∷◌,
  ◌++◌, String, str_eq, if◌then◌else◌, eqb, eqb-false, string_HasEq, pair_HasEq, eq_iff, arith,
}
use pilot_langgraph.Checkpoint.Requests.{Key}
use pilot_langgraph.Checkpoint.Memory.{remove}
use pilot_langgraph.Checkpoint.Sqlite.{Row, rows_of, row_of, without}
use pilot_langgraph.Checkpoint.Agree.{Distinct, cids}

-- The rows of one thread without an id.
abbrev pub without_cid : String → List Row → List Row
without_cid cid [] = []
without_cid cid (r ∷ rows) =
    if str_eq r.cid cid then without_cid cid rows else r ∷ without_cid cid rows

str_eq-flip : (a b : String) → str_eq a b ≡ false → str_eq b a ≡ false
str_eq-flip a b h =
    eqb-false ⦃h = string_HasEq⦄ b a λ p. absurd (ground (arith, h, (eq_iff a b).1 (sym p)))

pub without-id : (cid : String) (l : List Row) → row_of cid l ≡ none → without_cid cid l ≡ l
without-id cid [] h = refl
without-id cid (r ∷ l) h = elim (Bool-cases (str_eq r.cid cid)) [
  | inl e ↦ absurd (ground (arith, e, h))
  | inr e ↦ rw e (ap (◌∷◌ r) (without-id cid l (rw e at h)))
]

pub rows_of-append : (k : Key) (l m : List Row) → rows_of k (l ++ m) ≡ rows_of k l ++ rows_of k m
rows_of-append k [] m = refl
rows_of-append k (r ∷ l) m = elim (Bool-cases (eqb r.key k)) [
  | inl e ↦ rw e (ap (◌∷◌ r) (rows_of-append k l m))
  | inr e ↦ rw e (rows_of-append k l m)
]

pub rows_of-without :
    (k : Key) (cid : String) (l : List Row)
    → rows_of k (without k cid l) ≡ without_cid cid (rows_of k l)
rows_of-without k cid [] = refl
rows_of-without k cid (r ∷ l) = elim (Bool-cases (eqb r.key k)) [
  | inl e ↦ elim (Bool-cases (str_eq r.cid cid)) [
    | inl f ↦ rw (e, f) (rows_of-without k cid l)
    | inr f ↦ rw (e, f, e) (ap (◌∷◌ r) (rows_of-without k cid l))
  ]
  | inr e ↦ rw (e, e) (rows_of-without k cid l)
]

-- Other threads keep their rows.
pub rows_of-without_other :
    (k j : Key) (cid : String) (l : List Row)
    → eqb k j ≡ false
    → rows_of j (without k cid l) ≡ rows_of j l
rows_of-without_other k j cid [] ne = refl
rows_of-without_other k j cid (r ∷ l) ne = elim (Bool-cases (eqb r.key k)) [
  | inl e ↦
      let other : eqb r.key j ≡ false = ap (λ x. eqb x j) ((pair_HasEq.eqb_iff r.key k).0 e) ∙ ne in
      elim (Bool-cases (str_eq r.cid cid)) [
        | inl f ↦ rw (e, f, other) (rows_of-without_other k j cid l ne)
        | inr f ↦ rw (e, f, other) (rows_of-without_other k j cid l ne)
      ]
  | inr e ↦ elim (Bool-cases (eqb r.key j)) [
    | inl f ↦ rw (e, f) (ap (◌∷◌ r) (rows_of-without_other k j cid l ne))
    | inr f ↦ rw (e, f) (rows_of-without_other k j cid l ne)
  ]
]

pub row_of-without_cid : (cid : String) (l : List Row) → row_of cid (without_cid cid l) ≡ none
row_of-without_cid cid [] = refl
row_of-without_cid cid (r ∷ l) = elim (Bool-cases (str_eq r.cid cid)) [
  | inl e ↦ rw e (row_of-without_cid cid l)
  | inr e ↦ rw (e, e) (row_of-without_cid cid l)
]

pub row_of-without_other :
    (cid d : String) (l : List Row)
    → str_eq cid d ≡ false
    → row_of d (without_cid cid l) ≡ row_of d l
row_of-without_other cid d [] ne = refl
row_of-without_other cid d (r ∷ l) ne = elim (Bool-cases (str_eq r.cid cid)) [
  | inl e ↦
      let other : str_eq r.cid d ≡ false = ap (λ x. str_eq x d) ((eq_iff r.cid cid).0 e) ∙ ne in
      rw (e, other) (row_of-without_other cid d l ne)
  | inr e ↦ elim (Bool-cases (str_eq r.cid d)) [
    | inl f ↦ rw (e, f) refl
    | inr f ↦ rw (e, f) (row_of-without_other cid d l ne)
  ]
]

-- A row at the end is found if no other is.
abbrev pub or_last : String → Row → Option Row → Option Row
or_last cid r (some q) = some q
or_last cid r none = if str_eq r.cid cid then some r else none

pub row_of-snoc :
    (cid : String) (l : List Row) (r : Row)
    → row_of cid (l ++ r ∷ []) ≡ or_last cid r (row_of cid l)
row_of-snoc cid [] r = refl
row_of-snoc cid (q ∷ l) r = elim (Bool-cases (str_eq q.cid cid)) [
  | inl e ↦ rw e refl
  | inr e ↦ rw e (row_of-snoc cid l r)
]

-- An id that is gone, and one that is not there, are not found behind a removal.
pub row_of-none :
    (cid d : String) (l : List Row) → row_of d l ≡ none → row_of d (without_cid cid l) ≡ none
row_of-none cid d l h = elim (Bool-cases (str_eq cid d)) [
  | inl e ↦
      subst (λ x. row_of x (without_cid cid l) ≡ none) ((eq_iff cid d).0 e)
        (row_of-without_cid cid l)
  | inr e ↦ row_of-without_other cid d l e ∙ h
]

pub without-Distinct : (cid : String) (l : List Row) → Distinct l → Distinct (without_cid cid l)
without-Distinct cid [] h = tt
without-Distinct cid (r ∷ l) h = elim (Bool-cases (str_eq r.cid cid)) [
  | inl e ↦ rw e (without-Distinct cid l h.1)
  | inr e ↦ rw e (row_of-none cid r.cid l h.0, without-Distinct cid l h.1)
]

pub snoc-Distinct :
    (l : List Row) (r : Row) → row_of r.cid l ≡ none → Distinct l → Distinct (l ++ r ∷ [])
snoc-Distinct [] r h d = (refl, tt)
snoc-Distinct (q ∷ l) r h d = elim (Bool-cases (str_eq q.cid r.cid)) [
  | inl e ↦ absurd (ground (arith, e, h))
  | inr e ↦
      let other : str_eq r.cid q.cid ≡ false = str_eq-flip q.cid r.cid e in
      (row_of-snoc q.cid l r ∙ rw (d.0, other) refl, snoc-Distinct l r (rw e at h) d.1)
]

-- `remove` takes the first of equal ids away, which is the only one.
pub cids-without :
    (cid : String) (l : List Row) → Distinct l → cids (without_cid cid l) ≡ remove cid (cids l)
cids-without cid [] h = refl
cids-without cid (r ∷ l) h = elim (Bool-cases (str_eq r.cid cid)) [
  | inl e ↦
      rw e
        (ap cids (without-id cid l (subst (λ x. row_of x l ≡ none) ((eq_iff r.cid cid).0 e) h.0)))
  | inr e ↦ rw e (ap (◌∷◌ r.cid) (cids-without cid l h.1))
]

pub cids-append : (l m : List Row) → cids (l ++ m) ≡ cids l ++ cids m
cids-append [] m = refl
cids-append (r ∷ l) m = ap (◌∷◌ r.cid) (cids-append l m)
