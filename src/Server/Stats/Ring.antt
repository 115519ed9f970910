-- ===== src/Server/Stats/Ring.antt =====
-- The ring of latencies and the counters.
use pilot_langgraph.Prelude.{ℕ, ◌≤◌, [], ◌∷◌, length, drop, length-append, length-drop, arith, List}
use pilot_langgraph.Server.Stats.{Stats, no_stats, ring_size, push, count_call, count_error}

pub length-push :
    (x : ℕ) (ring : List ℕ) → length ring ≤ ring_size → length (push x ring) ≤ ring_size
unfolding push
length-push x ring h =
    ground
      (arith, length-append ring (x ∷ []), length-append (drop 1 ring) (x ∷ []), length-drop 1 ring)

-- The ring is within its size, and no call is an error without being counted as a call.
pub record IsValid (s : Stats) : Type 0 where
  pub bounded : length s.latencies ≤ ring_size
  pub errors_le : s.errors ≤ s.calls

pub no_stats-IsValid : IsValid no_stats
unfolding no_stats
no_stats-IsValid = omega arith

pub count_call-IsValid : (latency : ℕ) (s : Stats) → IsValid s → IsValid (count_call latency s)
unfolding count_call
count_call-IsValid latency s v = record {
  bounded = length-push latency s.latencies v.bounded;
  errors_le = omega arith;
}

pub count_error-IsValid : (latency : ℕ) (s : Stats) → IsValid s → IsValid (count_error latency s)
unfolding count_error
count_error-IsValid latency s v = record {
  bounded = length-push latency s.latencies v.bounded;
  errors_le = omega arith;
}
