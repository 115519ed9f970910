-- ===== src/Prelude/Dicts.antt =====
-- Python's `dict`, in order of insertion, over keys with a test of equality.
use Prim.Native.Nat.{ℕ}
use Prim.Native.String.{String}
use mathlib.Core.Path.{◌≡◌, refl, ap, sym, ◌∙◌}
use mathlib.Core.Logic.{◌↔◌, inl, inr}
use mathlib.Core.Bool.{Bool, true, false, ◌&&◌}
use mathlib.Core.Option.{Option, none, some}
use mathlib.Core.List.{List, [], ◌∷◌}
use native.Mathlib.Omega.{arith}
use text.Mathlib.Text.{◌==◌ as str_eq}
use text.Mathlib.TextEquality.{eq_iff}
use pilot_langgraph.Prelude.Tests.{◌==◌ as nat_eq, ==_iff, if◌then◌else◌, Bool-cases}

pub record HasEq (K : Type 0) : Type 0 where
  pub eqb : K → K → Bool
  pub eqb_iff : (a b : K) → (eqb a b ≡ true) ↔ (a ≡ b)

abbrev pub eqb : {K : Type 0} → ⦃h : HasEq K⦄ → K → K → Bool
eqb ⦃h⦄ = h.eqb

instance abbrev pub string_HasEq : HasEq String
string_HasEq = record { eqb = str_eq; eqb_iff = eq_iff }

instance abbrev pub nat_HasEq : HasEq ℕ
nat_HasEq = record { eqb = nat_eq; eqb_iff = ==_iff }

pub and_iff : (a b : Bool) → ((a && b) ≡ true) ↔ ((a ≡ true) × (b ≡ true))
and_iff a b = ground arith

instance abbrev pub pair_HasEq : {A B : Type 0} → ⦃ha : HasEq A⦄ → ⦃hb : HasEq B⦄ → HasEq (A × B)
pair_HasEq ⦃ha⦄ ⦃hb⦄ = record {
  eqb = λ x y. ha.eqb x.0 y.0 && hb.eqb x.1 y.1;
  eqb_iff = λ x y. (
    λ h.
        let both = (and_iff (ha.eqb x.0 y.0) (hb.eqb x.1 y.1)).0 h in
        λ i. ((ha.eqb_iff x.0 y.0).0 both.0 i, (hb.eqb_iff x.1 y.1).0 both.1 i),
    λ p.
        (and_iff (ha.eqb x.0 y.0) (hb.eqb x.1 y.1)).1
          ((ha.eqb_iff x.0 y.0).1 (ap (λ z. z.0) p), (hb.eqb_iff x.1 y.1).1 (ap (λ z. z.1) p)),
  );
}

abbrev pub Dict : Type 0 → Type 0 → Type 0
Dict K V = List (K × V)

module _ {K : Type 0} ⦃h : HasEq K⦄ where
  pub eqb_self : (a : K) → h.eqb a a ≡ true
  eqb_self a = (h.eqb_iff a a).1 refl

  pub eqb-false : (a b : K) → (a ≡ b → ⊥) → h.eqb a b ≡ false
  eqb-false a b ne = elim (Bool-cases (h.eqb a b)) [
    | inl e ↦ elim (ne ((h.eqb_iff a b).0 e)) [ ]
    | inr e ↦ e
  ]

  module _ {V : Type 0} where
    -- `d.get(k)`
    abbrev pub value_of : K → Dict K V → Option V
    value_of k [] = none
    value_of k ((j, v) ∷ d) = if h.eqb j k then some v else value_of k d

    -- `d[k] = v`
    abbrev pub assign : K → V → Dict K V → Dict K V
    assign k v [] = (k, v) ∷ []
    assign k v ((j, u) ∷ d) = if h.eqb j k then (j, v) ∷ d else (j, u) ∷ assign k v d

    pub value_of-assign :
        (k j : K) (v : V) (d : Dict K V)
        → value_of j (assign k v d) ≡ (if h.eqb k j then some v else value_of j d)
    value_of-assign k j v [] = refl
    value_of-assign k j v ((i, u) ∷ d) = elim (Bool-cases (h.eqb i k)) [
      | inl e ↦
          let same : i ≡ k = (h.eqb_iff i k).0 e in
          let agree : h.eqb i j ≡ h.eqb k j = ap (λ x. h.eqb x j) same in
          elim (Bool-cases (h.eqb k j)) [
            | inl f ↦ rw (e, agree, f) refl
            | inr f ↦ rw (e, agree, f) refl
          ]
      | inr e ↦ elim (Bool-cases (h.eqb i j)) [
        | inl f ↦
            let same : i ≡ j = (h.eqb_iff i j).0 f in
            let apart : h.eqb k j ≡ false =
              eqb-false k j (λ p. absurd (ground (arith, e, (h.eqb_iff i k).1 (same ∙ sym p)))) in
            rw (e, f, apart) refl
        | inr f ↦ rw (e, f) (value_of-assign k j v d)
      ]
    ]
