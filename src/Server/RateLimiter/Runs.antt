-- ===== src/Server/RateLimiter/Runs.antt =====
-- Sequences of calls through one limiter, from its start.
use pilot_langgraph.Prelude.{
  ℕ, ◌-◌, ◌≤◌, ◌≡◌, refl, Bool, List, [], ◌∷◌, ◌++◌, length, length-append, if◌then◌else◌, arith,
}
use pilot_langgraph.Server.RateLimiter.{RateLimiter, init, window_of, consume}
use pilot_langgraph.Server.RateLimiter.Window.{keep}
use pilot_langgraph.Server.RateLimiter.Quota.{
  History, recent, allowed, recent-append, Tracks, consume-allowed, consume-Tracks, history',
  window_secs-consume, limit-consume,
}

-- Calls as (caller, time), no time before `start` or before the call ahead.
abbrev pub Ordered : ℕ → List (ℕ × ℕ) → Type 0
Ordered start [] = Unit
Ordered start ((c, t) ∷ calls) = (start ≤ t) × Ordered t calls

-- The answers of the limiter to the calls.
unfoldable pub answers : RateLimiter → List (ℕ × ℕ) → List Bool
answers l [] = []
answers l ((c, t) ∷ calls) = (consume l c t).0 ∷ answers (consume l c t).1 calls

-- The answers of the sliding window over the history.
unfoldable pub expected : ℕ → ℕ → History → List (ℕ × ℕ) → List Bool
expected limit window h [] = []
expected limit window h ((c, t) ∷ calls) =
    let b = allowed limit window h c t in
    b ∷ expected limit window (if b then h ++ (c, t) ∷ [] else h) calls

answers-expected_from :
    (l : RateLimiter) (h : History) (start : ℕ) (calls : List (ℕ × ℕ))
    → Tracks l h start
    → Ordered start calls
    → answers l calls ≡ expected l.limit l.window_secs h calls
unfolding answers expected
answers-expected_from l h start [] t o = refl
answers-expected_from l h start ((c, now) ∷ calls) t o =
    let e = consume-allowed l h start now c o.0 t in
    let ih =
      answers-expected_from (consume l c now).1 (history' l h start now c o.0 t) now calls
        (consume-Tracks l h start now c o.0 t) o.1 in
    ground
      (arith, e, ih, window_secs-consume l h start now c o.0 t, limit-consume l h start now c o.0 t)

init-Tracks : (limit window : ℕ) → Tracks (init limit window) [] 0
unfolding init recent keep window_of
init-Tracks limit window = record { sorted = λ c. tt; past = λ c. tt; same = λ c cut k. refl }

-- Fed with calls in the order of their times, a new limiter answers each as the sliding window over
-- the calls let through before it: yes exactly when fewer than `limit` calls of the same caller were
-- let through in the `window` ticks before.
pub answers-expected :
    (limit window : ℕ) (calls : List (ℕ × ℕ))
    → Ordered 0 calls
    → answers (init limit window) calls ≡ expected limit window [] calls
answers-expected limit window calls o =
    unfold init in answers-expected_from (init limit window) [] 0 calls (init-Tracks limit window) o

-- The calls that the limiter let through, behind those of `h`.
unfoldable pub served : RateLimiter → History → List (ℕ × ℕ) → History
served l h [] = h
served l h ((c, t) ∷ calls) =
    let r = consume l c t in served r.1 (if r.0 then h ++ (c, t) ∷ [] else h) calls

-- The time of the last call.
abbrev pub last_time : ℕ → List (ℕ × ℕ) → ℕ
last_time start [] = start
last_time start ((c, t) ∷ calls) = last_time t calls

recent_mono : (c a b : ℕ) (h : History) → a ≤ b → length (recent c b h) ≤ length (recent c a h)
unfolding recent
recent_mono c a b [] k = omega arith
recent_mono c a b ((d, t) ∷ h) k = ground (arith, recent_mono c a b h k)

-- No caller has been let through more often than the limit in the window that ends at `now`.
abbrev pub WithinQuota : ℕ → ℕ → History → ℕ → Type 0
WithinQuota limit window h now = (c : ℕ) → length (recent c (now - window) h) ≤ limit

allowed-WithinQuota :
    (limit window : ℕ) (h : History) (start now caller : ℕ)
    → start ≤ now
    → WithinQuota limit window h start
    → WithinQuota limit window
        (if allowed limit window h caller now then h ++ (caller, now) ∷ [] else h)
        now
unfolding allowed
allowed-WithinQuota limit window h start now caller later q c = ground (
  arith,
  q c,
  recent_mono c (start - window) (now - window) h,
  recent-append c (now - window) h caller now,
  length-append (recent c (now - window) h) (now ∷ []),
  length-append {A = ℕ} (recent c (now - window) h) [],
)

served-WithinQuota_from :
    (l : RateLimiter) (h : History) (start : ℕ) (calls : List (ℕ × ℕ))
    → Tracks l h start
    → Ordered start calls
    → WithinQuota l.limit l.window_secs h start
    → WithinQuota l.limit l.window_secs (served l h calls) (last_time start calls)
unfolding served
served-WithinQuota_from l h start [] t o q = q
served-WithinQuota_from l h start ((c, now) ∷ calls) t o q =
    let el = limit-consume l h start now c o.0 t in
    let ew = window_secs-consume l h start now c o.0 t in
    let q' : WithinQuota (consume l c now).1.limit (consume l c now).1.window_secs
        (history' l h start now c o.0 t) now =
      rw (el, ew, consume-allowed l h start now c o.0 t)
        (allowed-WithinQuota l.limit l.window_secs h start now c o.0 q) in
    rw (el, ew) at
      (served-WithinQuota_from (consume l c now).1 (history' l h start now c o.0 t) now calls
        (consume-Tracks l h start now c o.0 t) o.1 q')

-- In calls made in the order of their times, each caller is let through at most `limit` times in the
-- window of `window` ticks that ends with the last call. (The calls may be cut off anywhere, so this
-- holds of the window that ends with any of them.)
pub served-WithinQuota :
    (limit window : ℕ) (calls : List (ℕ × ℕ))
    → Ordered 0 calls
    → WithinQuota limit window (served (init limit window) [] calls) (last_time 0 calls)
served-WithinQuota limit window calls o =
    unfold init in
    served-WithinQuota_from (init limit window) [] 0 calls (init-Tracks limit window) o
      (unfold recent in λ c. omega arith)
