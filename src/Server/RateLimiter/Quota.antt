-- ===== src/Server/RateLimiter/Quota.antt =====
-- The limiter against the history of the calls that it let through.
use pilot_langgraph.Prelude.{
  ℕ, ◌-◌, ◌≤◌, ◌≡◌, refl, inl, inr, Bool, true, false, ◌&&◌, List, [], ◌∷◌, ◌++◌, All, All-append,
  IsSorted, length, append-nil, ltb, leb, ◌==◌, if◌then◌else◌, arith, Bool-cases,
}
use pilot_langgraph.Server.RateLimiter.{RateLimiter, window_of, consume}
use pilot_langgraph.Server.RateLimiter.Window.{
  keep, All-le, prune-eq-keep, keep-All, keep-IsSorted, keep-keep, keep-append, append-IsSorted,
  window_of-set_window,
}

-- The calls that were let through, the oldest first: who called, and when.
abbrev pub History : Type 0
History = List (ℕ × ℕ)

-- When `caller` was let through, not before the cutoff.
unfoldable pub recent : ℕ → ℕ → History → List ℕ
recent caller cutoff [] = []
recent caller cutoff ((c, t) ∷ h) =
    if (c == caller) && leb cutoff t then t ∷ recent caller cutoff h else recent caller cutoff h

-- A sliding window over the whole history: a call is let through if fewer than `limit` calls of this
-- caller were let through in the window that ends now.
unfoldable pub allowed : ℕ → ℕ → History → ℕ → ℕ → Bool
allowed limit window h caller now = ltb (length (recent caller (now - window) h)) limit

pub recent-append :
    (caller cutoff : ℕ) (h : History) (c t : ℕ)
    → recent caller cutoff (h ++ (c, t) ∷ [])
      ≡ recent caller cutoff h ++ (if (c == caller) && leb cutoff t then t ∷ [] else [])
unfolding recent
recent-append caller cutoff [] c t = refl
recent-append caller cutoff ((d, s) ∷ h) c t = ground (arith, recent-append caller cutoff h c t)

-- The deques hold what the history holds, as far as any later window can see.
pub record Tracks (l : RateLimiter) (h : History) (now : ℕ) : Type 0 where
  pub sorted : (c : ℕ) → IsSorted (window_of c l.windows)
  pub past : (c : ℕ) → All (λ t. t ≤ now) (window_of c l.windows)
  pub same :
      (c cutoff : ℕ)
      → now - l.window_secs ≤ cutoff
      → keep cutoff (window_of c l.windows) ≡ recent c cutoff h

IsSorted-if : (b : Bool) (v w : List ℕ) → IsSorted v → IsSorted w → IsSorted (if b then v else w)
IsSorted-if true v w sv sw = sv
IsSorted-if false v w sv sw = sw

All-if : (P : ℕ → Type 0) (b : Bool) (v w : List ℕ) → All P v → All P w → All P (if b then v else w)
All-if P true v w pv pw = pv
All-if P false v w pv pw = pw

module _ (l : RateLimiter) (h : History) (before now caller : ℕ) (later : before ≤ now)
    (t : Tracks l h before) where
  abbrev cutoff : ℕ
  cutoff = now - l.window_secs

  abbrev pruned : List ℕ
  pruned = keep cutoff (window_of caller l.windows)

  pruned-recent : pruned ≡ recent caller cutoff h
  pruned-recent = t.same caller cutoff (omega arith)

  -- The limiter's answer is that of the sliding window over the history.
  pub consume-allowed : (consume l caller now).0 ≡ allowed l.limit l.window_secs h caller now
  unfolding consume allowed
  consume-allowed =
      rw (prune-eq-keep cutoff (window_of caller l.windows) (t.sorted caller), pruned-recent)
        (ground arith)

  -- The caller's deque after the call.
  abbrev window' : List ℕ
  window' = if leb l.limit (length pruned) then pruned else pruned ++ now ∷ []

  window_of-consume :
      (c : ℕ)
      → window_of c (consume l caller now).1.windows
        ≡ (if caller == c then window' else window_of c l.windows)
  unfolding consume
  window_of-consume c = rw (prune-eq-keep cutoff (window_of caller l.windows) (t.sorted caller)) (
      ground (
        arith,
        window_of-set_window c caller pruned l.windows,
        window_of-set_window c caller (pruned ++ now ∷ []) l.windows,
      ))

  pruned-past : All (λ x. x ≤ now) pruned
  pruned-past =
      keep-All _ cutoff (window_of caller l.windows) (All-le before now _ later (t.past caller))

  window'-sorted : IsSorted window'
  window'-sorted = elim (Bool-cases (leb l.limit (length pruned))) [
    | inl full ↦ rw full (keep-IsSorted cutoff _ (t.sorted caller))
    | inr room ↦
        rw room (append-IsSorted pruned now (keep-IsSorted cutoff _ (t.sorted caller)) pruned-past)
  ]

  window'-past : All (λ x. x ≤ now) window'
  window'-past = elim (Bool-cases (leb l.limit (length pruned))) [
    | inl full ↦ rw full pruned-past
    | inr room ↦ rw room (All-append _ pruned (now ∷ []) pruned-past (omega arith, tt))
  ]

  -- The history after the call.
  abbrev pub history' : History
  history' = if (consume l caller now).0 then h ++ (caller, now) ∷ [] else h

  pub window_secs-consume : (consume l caller now).1.window_secs ≡ l.window_secs
  unfolding consume
  window_secs-consume = ground arith

  pub limit-consume : (consume l caller now).1.limit ≡ l.limit
  unfolding consume
  limit-consume = ground arith

  consume-answer : (consume l caller now).0 ≡ (if leb l.limit (length pruned) then false else true)
  unfolding consume
  consume-answer =
      rw (prune-eq-keep cutoff (window_of caller l.windows) (t.sorted caller)) (ground arith)

  same-consume :
      (c cut : ℕ)
      → cutoff ≤ cut
      → keep cut (if caller == c then window' else window_of c l.windows) ≡ recent c cut history'
  same-consume c cut k = rw consume-answer (
      ground (
        arith,
        keep-keep cutoff cut (window_of caller l.windows) k,
        keep-append cut pruned now,
        recent-append c cut h caller now,
        t.same c cut (omega arith),
        append-nil (recent c cut h),
      ))

  pub consume-Tracks : Tracks (consume l caller now).1 history' now
  consume-Tracks = record {
    sorted = λ c.
        rw (window_of-consume c)
          (IsSorted-if (caller == c) window' (window_of c l.windows) window'-sorted (t.sorted c));
    past = λ c. rw (window_of-consume c) (
        All-if _ (caller == c) window' (window_of c l.windows) window'-past
          (All-le before now _ later (t.past c)));
    same = λ c cut k. rw (window_of-consume c) (same-consume c cut (rw window_secs-consume at k));
  }
