-- ===== src/Server/RateLimiter.antt =====
-- `_RateLimiter` of server.py. Times are whole ticks of the monotonic clock. `windows` is a `dict`
-- from the caller's node id to its deque, the oldest call first.
pub mod Window
pub mod Quota
pub mod Runs
use pilot_langgraph.Prelude.{
  ℕ, ◌-◌, Bool, true, false, Option, none, some, List, [], ◌∷◌, ◌++◌, length, ltb, leb, ◌==◌,
  if◌then◌else◌,
}

abbrev pub Windows : Type 0
Windows = List (ℕ × List ℕ)

pub record RateLimiter : Type 0 where
  pub limit : ℕ
  pub window_secs : ℕ
  pub windows : Windows

unfoldable pub init : ℕ → ℕ → RateLimiter
init limit window_secs = record { limit = limit; window_secs = window_secs; windows = [] }

-- `self.windows.get(caller)`, with a new deque for a caller that has none.
pub window_of : ℕ → Windows → List ℕ
window_of caller [] = []
window_of caller ((c, w) ∷ rest) = if c == caller then w else window_of caller rest

pub set_window : ℕ → List ℕ → Windows → Windows
set_window caller w [] = (caller, w) ∷ []
set_window caller w ((c, v) ∷ rest) =
    if c == caller then (c, w) ∷ rest else (c, v) ∷ set_window caller w rest

-- `while window and window[0] < cutoff: window.popleft()`
pub prune : ℕ → List ℕ → List ℕ
prune cutoff [] = []
prune cutoff (t ∷ w) = if ltb t cutoff then prune cutoff w else t ∷ w

-- `cutoff` stops at 0 here; no time of the clock is below 0, so the test says the same.
unfoldable pub consume : RateLimiter → ℕ → ℕ → Bool × RateLimiter
unfolding window_of set_window prune
consume l caller now =
    let window = prune (now - l.window_secs) (window_of caller l.windows) in
    if leb l.limit (length window)
    then (false, record l { windows = set_window caller window l.windows })
    else (true, record l { windows = set_window caller (window ++ now ∷ []) l.windows })
