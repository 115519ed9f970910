-- ===== src/Client/Calls/Fanout.antt =====
-- The two ways to run a fan-out, `ainvoke` and `astream`, on the same ends of its targets.
use pilot_langgraph.Prelude.{
  ◌≡◌, refl, ap, sym, subst, ◌∙◌, Bool, true, false, ◌||◌, Bool-cases, Option, none, some, ◌⊎◌, inl,
  inr, List, [], ◌∷◌, String, str_eq, eq_iff, eqb_self, concat, if◌then◌else◌, Dict, value_of,
  string_HasEq, arith,
}
use pilot_langgraph.Client.Calls.{
  Answer, Entry, value, exception, first_failure, labelled, fan_ainvoke, take_results, fan_astream,
}

abbrev pub is_label : String → List String → Bool
is_label l [] = false
is_label l (m ∷ ls) = str_eq m l || is_label l ls

-- The exception of one of the targets.
abbrev pub IsFailure : (String → Entry) → List String → Answer → Type 0
IsFailure ends labels e = (l : String) × (is_label l labels ≡ true) × (ends l ≡ exception e)

-- What the stream yields, and what the call returns.
abbrev pub Agrees :
    (String → Entry)
    → List String
    → Dict String Entry × Option Answer
    → Answer ⊎ Dict String Entry
    → Type 0
Agrees ends labels (ys, some e) (inl e') = IsFailure ends labels e × IsFailure ends labels e'
Agrees ends labels (ys, none) (inr d) = (l : String) → value_of l ys ≡ value_of l d
Agrees _ _ _ _ = ⊥

value_of-labelled :
    (ends : String → Entry) (l : String) (ls : List String)
    → value_of l (labelled ends ls) ≡ (if is_label l ls then some (ends l) else none)
value_of-labelled ends l [] = refl
value_of-labelled ends l (m ∷ ls) = elim (Bool-cases (str_eq m l)) [
  | inl e ↦ let same : m ≡ l = (eq_iff m l).0 e in rw e (ap (λ x. some (ends x)) same)
  | inr e ↦ rw e (value_of-labelled ends l ls)
]

stream-eq :
    (ret : Bool) (ends : String → Entry) (order : List String)
    → (ret ≡ true) ⊎ (first_failure ends order ≡ none)
    → take_results ret ends order ≡ (labelled ends order, none)
unfolding take_results
stream-eq ret ends [] h = refl
stream-eq ret ends (l ∷ order) h = go (ends l) refl (λ k. stream-eq ret ends order k)
  where
    go :
        (v : Entry)
        → ends l ≡ v
        → ((ret ≡ true) ⊎ (first_failure ends order ≡ none)
            → take_results ret ends order ≡ (labelled ends order, none))
        → take_results ret ends (l ∷ order) ≡ (labelled ends (l ∷ order), none)
    go (value v) e ih = elim h [
      | inl t ↦ rw (take_results, e, ih (inl t)) refl
      | inr n ↦ rw (take_results, e, ih (inr (rw (e, first_failure) at n))) refl
    ]
    go (exception x) e ih = elim h [
      | inl t ↦ rw (take_results, e, ih (inl t), t) refl
      | inr n ↦ absurd (ground (arith, e, n))
    ]

stream-failed :
    (ends : String → Entry) (order : List String) (e : Answer)
    → first_failure ends order ≡ some e
    → (take_results false ends order).1 ≡ some e
unfolding take_results
stream-failed ends [] e h = cc
stream-failed ends (l ∷ order) e h = go (ends l) refl (λ k. stream-failed ends order e k)
  where
    go :
        (v : Entry)
        → ends l ≡ v
        → (first_failure ends order ≡ some e → (take_results false ends order).1 ≡ some e)
        → (take_results false ends (l ∷ order)).1 ≡ some e
    go (value v) q ih = rw (take_results, q) (ih (rw (q, first_failure) at h))
    go (exception x) q ih = rw (take_results, q) (ground (arith, q, h))

first_failure-IsFailure :
    (ends : String → Entry) (order : List String) (e : Answer)
    → first_failure ends order ≡ some e
    → IsFailure ends order e
first_failure-IsFailure ends [] e h = cc
first_failure-IsFailure ends (l ∷ order) e h =
    go (ends l) refl (λ k. first_failure-IsFailure ends order e k)
  where
    go :
        (v : Entry)
        → ends l ≡ v
        → (first_failure ends order ≡ some e → IsFailure ends order e)
        → IsFailure ends (l ∷ order) e
    go (value v) q ih = let (m, i, f) = ih (rw (q, first_failure) at h) in (m, ground (arith, i), f)
    go (exception x) q ih =
        (l, rw (eqb_self ⦃h = string_HasEq⦄ l) refl, q ∙ ap exception (ground (arith, q, h)))

same_values :
    (ends : String → Entry) (order labels : List String)
    → ((l : String) → is_label l order ≡ is_label l labels)
    → (l : String) → value_of l (labelled ends order) ≡ value_of l (labelled ends labels)
same_values ends order labels same l =
    value_of-labelled ends l order
    ∙ ap (λ b. if b then some (ends l) else none) (same l)
    ∙ sym (value_of-labelled ends l labels)

no-IsFailure :
    (ends : String → Entry) (order : List String)
    → first_failure ends order ≡ none
    → (e : Answer) → ¬ IsFailure ends order e
no-IsFailure ends [] h e (l, i, q) = absurd (ground (arith, i))
no-IsFailure ends (m ∷ order) h e (l, i, q) = go (ends m) refl (λ k. no-IsFailure ends order k e)
  where
    go : (v : Entry) → ends m ≡ v → (first_failure ends order ≡ none → ¬ IsFailure ends order e) → ⊥
    go (exception x) p ih = absurd (ground (arith, p, h))
    go (value v) p ih = elim (Bool-cases (str_eq m l)) [
      | inl same ↦ absurd (ground (arith, p, q, ap ends ((eq_iff m l).0 same)))
      | inr apart ↦ ih (rw (p, first_failure) at h) (l, ground (arith, i, apart), q)
    ]

moved-IsFailure :
    (ends : String → Entry) (order labels : List String) (e : Answer)
    → ((l : String) → is_label l order ≡ is_label l labels)
    → IsFailure ends order e
    → IsFailure ends labels e
moved-IsFailure ends order labels e same (l, i, q) = (l, sym (same l) ∙ i, q)

raised-Agrees :
    (ends : String → Entry) (labels : List String) (r : Dict String Entry × Option Answer)
    (e x : Answer)
    → r.1 ≡ some e
    → IsFailure ends labels e
    → IsFailure ends labels x
    → Agrees ends labels r (inl x)
raised-Agrees ends labels (ys, none) e x h f g = cc
raised-Agrees ends labels (ys, some y) e x h f g =
    let same : e ≡ y = cc in (subst (IsFailure ends labels) same f, g)

-- Where the targets end in some order, in which each of them stands and nothing else, and the turns
-- of the stream take each of them and nothing else, in any order: the stream of the fan-out raises
-- an exception exactly where the call does. Both are exceptions of targets, but not always of the
-- same one. Otherwise what the stream has yielded for each label is what the call gives under the
-- label.
pub fan_astream-Agrees :
    (ret : Bool) (ends : String → Entry) (order : List String) (turns : List (List String))
    (labels : List String)
    → ((l : String) → is_label l order ≡ is_label l labels)
    → ((l : String) → is_label l (concat turns) ≡ is_label l labels)
    → Agrees ends labels (fan_astream ret ends turns) (fan_ainvoke ret ends order labels)
unfolding fan_ainvoke fan_astream
fan_astream-Agrees true ends order turns labels same taken =
    subst (λ r. Agrees ends labels r (inr (labelled ends labels)))
      (sym (stream-eq true ends (concat turns) (inl refl)))
      (same_values ends (concat turns) labels taken)
fan_astream-Agrees false ends order turns labels same taken =
    go (first_failure ends order) refl (first_failure ends (concat turns)) refl
  where
    go :
        (v : Option Answer)
        → first_failure ends order ≡ v
        → (w : Option Answer) → first_failure ends (concat turns) ≡ w
        → Agrees ends labels
            (take_results false ends (concat turns))
            (fan_ainvoke false ends order labels)
    go none e none f =
        rw (fan_ainvoke, e)
          (subst (λ r. Agrees ends labels r (inr (labelled ends labels)))
            (sym (stream-eq false ends (concat turns) (inr f)))
            (same_values ends (concat turns) labels taken))
    go (some x) e (some y) f =
        rw (fan_ainvoke, e)
          (raised-Agrees ends labels (take_results false ends (concat turns)) y x
            (stream-failed ends (concat turns) y f)
            (moved-IsFailure ends (concat turns) labels y taken
              (first_failure-IsFailure ends (concat turns) y f))
            (moved-IsFailure ends order labels x same (first_failure-IsFailure ends order x e)))
    go none e (some y) f = absurd (
        no-IsFailure ends order e y (
          moved-IsFailure ends (concat turns) order y (λ l. taken l ∙ sym (same l))
            (first_failure-IsFailure ends (concat turns) y f)))
    go (some x) e none f = absurd (
        no-IsFailure ends (concat turns) f x (
          moved-IsFailure ends order (concat turns) x (λ l. same l ∙ sym (taken l))
            (first_failure-IsFailure ends order x e)))
