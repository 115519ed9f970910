-- ===== src/Server/Stats/Percentile.antt =====
-- `percentile` reads a latency of the ring, and grows with its argument.
use mathlib.Core.List.{Perm}
use mathlib.Core.List.Perm
use pilot_langgraph.Prelude.{
  IsSorted, ℕ, zero, suc, ◌-◌, ◌*◌, ◌≤◌, ◌<◌, ◌≡◌, refl, some, List, [], ◌∷◌, All, length,
  get_elem?, ltb, leb, Bool-cases, inl, inr, arith,
}
use pilot_langgraph.Server.Stats.{Stats, insert_sorted, sorted, round_div, index, pick, percentile}

round_div_mono_100 : (a b : ℕ) → a ≤ b → round_div a 100 ≤ round_div b 100
unfolding round_div
round_div_mono_100 a b k = ground arith

round_div_mono_10 : (a b : ℕ) → a ≤ b → round_div a 10 ≤ round_div b 10
unfolding round_div
round_div_mono_10 a b k = ground arith

insert_sorted-All :
    (P : ℕ → Type 0) (x : ℕ) (xs : List ℕ) → P x → All P xs → All P (insert_sorted x xs)
unfolding insert_sorted
insert_sorted-All P x [] p ps = (p, tt)
insert_sorted-All P x (y ∷ ys) p ps = elim (Bool-cases (leb x y)) [
  | inl e ↦ rw e (p, ps)
  | inr e ↦ rw e (ps.0, insert_sorted-All P x ys p ps.1)
]

All-le_trans : (x y : ℕ) (ys : List ℕ) → x ≤ y → All (λ z. y ≤ z) ys → All (λ z. x ≤ z) ys
All-le_trans x y [] h ps = tt
All-le_trans x y (z ∷ ys) h ps = (omega arith, All-le_trans x y ys h ps.1)

insert_sorted-IsSorted : (x : ℕ) (xs : List ℕ) → IsSorted xs → IsSorted (insert_sorted x xs)
unfolding insert_sorted
insert_sorted-IsSorted x [] s = (tt, tt)
insert_sorted-IsSorted x (y ∷ ys) s = elim (Bool-cases (leb x y)) [
  | inl e ↦ rw e ((ground arith, All-le_trans x y ys (ground arith) s.0), s)
  | inr e ↦
      rw e (insert_sorted-All (λ z. y ≤ z) x ys (ground arith) s.0, insert_sorted-IsSorted x ys s.1)
]

pub sorted-IsSorted : (xs : List ℕ) → IsSorted (sorted xs)
unfolding sorted
sorted-IsSorted [] = tt
sorted-IsSorted (x ∷ xs) = insert_sorted-IsSorted x (sorted xs) (sorted-IsSorted xs)

insert_sorted-perm : (x : ℕ) (xs : List ℕ) → Perm (insert_sorted x xs) (x ∷ xs)
unfolding insert_sorted
insert_sorted-perm x [] = Perm.refl (x ∷ [])
insert_sorted-perm x (y ∷ ys) = elim (Bool-cases (leb x y)) [
  | inl e ↦ rw e (Perm.refl (x ∷ y ∷ ys))
  | inr e ↦ rw e (Perm.trans (Perm.cons y (insert_sorted-perm x ys)) (Perm.swap x y ys))
]

pub sorted-perm : (xs : List ℕ) → Perm (sorted xs) xs
unfolding sorted
sorted-perm [] = Perm.refl []
sorted-perm (x ∷ xs) = Perm.trans (insert_sorted-perm x (sorted xs)) (Perm.cons x (sorted-perm xs))

length-insert_sorted : (x : ℕ) (xs : List ℕ) → length (insert_sorted x xs) ≡ suc (length xs)
unfolding insert_sorted
length-insert_sorted x [] = refl
length-insert_sorted x (y ∷ ys) = ground (arith, length-insert_sorted x ys)

pub length-sorted : (xs : List ℕ) → length (sorted xs) ≡ length xs
unfolding sorted
length-sorted [] = refl
length-sorted (x ∷ xs) = omega (arith, length-insert_sorted x (sorted xs), length-sorted xs)

get_elem?-All :
    (P : ℕ → Type 0) (xs : List ℕ) (j : ℕ)
    → All P xs
    → j < length xs
    → (b : ℕ) × (get_elem? xs j ≡ some b) × P b
get_elem?-All P [] j ps k = elim k [ ]
get_elem?-All P (x ∷ xs) zero ps k = (x, refl, ps.0)
get_elem?-All P (x ∷ xs) (suc j) ps k = get_elem?-All P xs j ps.1 (omega arith)

index_mono : (p q n : ℕ) → p ≤ q → index p n ≤ index q n
unfolding index
index_mono p q n h = omega (arith, round_div_mono_100 (p * (n - 1)) (q * (n - 1)) (grind arith))

index-zero : (p n : ℕ) → n ≡ 0 → index p n ≡ 0
unfolding index
index-zero p n h = omega arith

index-lt : (p n : ℕ) → 0 < n → index p n < n
unfolding index
index-lt p n h = omega arith

get_elem?-sorted :
    (xs : List ℕ) (i j : ℕ)
    → IsSorted xs
    → i ≤ j
    → j < length xs
    → (a : ℕ) × (b : ℕ) × (get_elem? xs i ≡ some a) × (get_elem? xs j ≡ some b) × (a ≤ b)
get_elem?-sorted [] i j s h k = elim k [ ]
get_elem?-sorted (x ∷ xs) zero zero s h k = (x, x, refl, refl, omega arith)
get_elem?-sorted (x ∷ xs) zero (suc j) s h k =
    let (b, e, p) = get_elem?-All (λ y. x ≤ y) xs j s.0 (omega arith) in (x, b, refl, e, p)
get_elem?-sorted (x ∷ xs) (suc i) zero s h k = absurd (omega arith)
get_elem?-sorted (x ∷ xs) (suc i) (suc j) s h k =
    get_elem?-sorted xs i j s.1 (omega arith) (omega arith)

-- The percentiles of a worker are ordered: a higher percentage never gives a lower latency.
pub percentile_mono : (s : Stats) (p q : ℕ) → p ≤ q → percentile p s ≤ percentile q s
unfolding percentile
percentile_mono s p q h = elim (Bool-cases (ltb 0 n)) [
  | inl some_calls ↦
      let (a, b, ea, eb, l) =
        get_elem?-sorted (sorted s.latencies) (index p n) (index q n) (sorted-IsSorted s.latencies)
          (index_mono p q n h)
          (omega (arith, index-lt q n (ground arith), length-sorted s.latencies)) in
      rw (ea, eb) (unfold pick in round_div_mono_10 a b l)
  | inr no_calls ↦ rw (index-zero p n (ground arith), index-zero q n (ground arith)) (omega arith)
]
  where
    n : ℕ
    n = length s.latencies
