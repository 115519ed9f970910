-- ===== src/Server/RateLimiter/Window.antt =====
-- The deque of one caller: what `prune` keeps, and the dictionary of the deques.
use pilot_langgraph.Prelude.{
  ℕ, ◌≤◌, ◌≡◌, refl, inl, inr, List, [], ◌∷◌, ◌++◌, All, All-append, IsSorted, ltb, leb, ◌==◌,
  if◌then◌else◌, arith, Bool-cases,
}
use pilot_langgraph.Server.RateLimiter.{Windows, window_of, set_window, prune}

-- The times of `w` that are not before the cutoff.
unfoldable pub keep : ℕ → List ℕ → List ℕ
keep cutoff [] = []
keep cutoff (t ∷ w) = if leb cutoff t then t ∷ keep cutoff w else keep cutoff w

keep_everything : (cutoff : ℕ) (w : List ℕ) → All (λ t. cutoff ≤ t) w → keep cutoff w ≡ w
unfolding keep
keep_everything cutoff [] h = refl
keep_everything cutoff (t ∷ w) h = ground (arith, h.0, keep_everything cutoff w h.1)

All-ge : (a b : ℕ) (w : List ℕ) → a ≤ b → All (λ t. b ≤ t) w → All (λ t. a ≤ t) w
All-ge a b [] h p = tt
All-ge a b (t ∷ w) h p = (omega arith, All-ge a b w h p.1)

pub All-le : (a b : ℕ) (w : List ℕ) → a ≤ b → All (λ t. t ≤ a) w → All (λ t. t ≤ b) w
All-le a b [] h p = tt
All-le a b (t ∷ w) h p = (omega arith, All-le a b w h p.1)

-- On a sorted deque, dropping from the left finds every old time.
pub prune-eq-keep : (cutoff : ℕ) (w : List ℕ) → IsSorted w → prune cutoff w ≡ keep cutoff w
unfolding prune keep
prune-eq-keep cutoff [] s = refl
prune-eq-keep cutoff (t ∷ w) s = elim (Bool-cases (ltb t cutoff)) [
  | inl old ↦ ground (arith, prune-eq-keep cutoff w s.1)
  | inr fresh ↦ ground (arith, keep_everything cutoff w (All-ge cutoff t w (ground arith) s.0))
]

pub keep-All : (P : ℕ → Type 0) (cutoff : ℕ) (w : List ℕ) → All P w → All P (keep cutoff w)
unfolding keep
keep-All P cutoff [] h = tt
keep-All P cutoff (t ∷ w) h = elim (Bool-cases (leb cutoff t)) [
  | inl e ↦ rw e (h.0, keep-All P cutoff w h.1)
  | inr e ↦ rw e (keep-All P cutoff w h.1)
]

pub keep-IsSorted : (cutoff : ℕ) (w : List ℕ) → IsSorted w → IsSorted (keep cutoff w)
unfolding keep
keep-IsSorted cutoff [] s = tt
keep-IsSorted cutoff (t ∷ w) s = elim (Bool-cases (leb cutoff t)) [
  | inl e ↦ rw e (keep-All (λ y. t ≤ y) cutoff w s.0, keep-IsSorted cutoff w s.1)
  | inr e ↦ rw e (keep-IsSorted cutoff w s.1)
]

pub keep-keep : (a b : ℕ) (w : List ℕ) → a ≤ b → keep b (keep a w) ≡ keep b w
unfolding keep
keep-keep a b [] h = refl
keep-keep a b (t ∷ w) h = ground (arith, keep-keep a b w h)

pub keep-append :
    (c : ℕ) (w : List ℕ) (t : ℕ)
    → keep c (w ++ t ∷ []) ≡ keep c w ++ (if leb c t then t ∷ [] else [])
unfolding keep
keep-append c [] t = refl
keep-append c (x ∷ w) t = ground (arith, keep-append c w t)

pub append-IsSorted :
    (w : List ℕ) (now : ℕ) → IsSorted w → All (λ t. t ≤ now) w → IsSorted (w ++ now ∷ [])
append-IsSorted [] now s h = (tt, tt)
append-IsSorted (t ∷ w) now s h =
    (All-append (λ y. t ≤ y) w (now ∷ []) s.0 (h.0, tt), append-IsSorted w now s.1 h.1)

pub window_of-set_window :
    (j k : ℕ) (w : List ℕ) (m : Windows)
    → window_of j (set_window k w m) ≡ (if k == j then w else window_of j m)
unfolding window_of set_window
window_of-set_window j k w [] = refl
window_of-set_window j k w ((c, v) ∷ m) = ground (arith, window_of-set_window j k w m)
