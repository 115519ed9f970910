-- ===== src/Server/Stats.antt =====
-- `_Stats` of server.py. Latencies are whole microseconds; `percentile` takes its argument in
-- hundredths, and gives hundredths of a millisecond.
pub mod Ring
pub mod Percentile
use pilot_langgraph.Prelude.{
  ℕ, zero, suc, ◌+◌, ◌-◌, ◌*◌, ◌/◌, ◌%◌, min, List, [], ◌∷◌, ◌++◌, Option, none, some, length, drop,
  get_elem?, ltb, leb, ◌==◌, if◌then◌else◌,
}

pub record Stats : Type 0 where
  pub calls : ℕ
  pub errors : ℕ
  pub latencies : List ℕ

unfoldable pub no_stats : Stats
no_stats = record { calls = 0; errors = 0; latencies = [] }

-- `deque(maxlen=256)`
abbrev pub ring_size : ℕ
ring_size = 256

-- `deque.append`: a full ring drops its oldest item.
pub push : ℕ → List ℕ → List ℕ
push x ring = if ltb (length ring) ring_size then ring ++ x ∷ [] else drop 1 ring ++ x ∷ []

-- What a finished call adds: `calls += 1`, `errors += 1` if it failed, and its latency.
unfoldable pub count_call : ℕ → Stats → Stats
unfolding push
count_call latency s = record s { calls = s.calls + 1; latencies = push latency s.latencies }

unfoldable pub count_error : ℕ → Stats → Stats
unfolding push
count_error latency s = record {
  calls = s.calls + 1;
  errors = s.errors + 1;
  latencies = push latency s.latencies;
}

-- `sorted`
pub insert_sorted : ℕ → List ℕ → List ℕ
insert_sorted x [] = x ∷ []
insert_sorted x (y ∷ ys) = if leb x y then x ∷ y ∷ ys else y ∷ insert_sorted x ys

pub sorted : List ℕ → List ℕ
sorted [] = []
sorted (x ∷ xs) = insert_sorted x (sorted xs)

-- `round(a / b)`: the nearest number, a tie to the even one.
pub round_div : ℕ → ℕ → ℕ
round_div a b =
    let q = a / b in
    let r = a % b in
    if ltb (2 * r) b then q else if ltb b (2 * r) then q + 1 else if q % 2 == 0 then q else q + 1

-- `max(0, min(n - 1, int(round(p * (n - 1)))))`
pub index : ℕ → ℕ → ℕ
index p n = min (n - 1) (round_div (p * (n - 1)) 100)

pub pick : Option ℕ → ℕ
pick none = 0
pick (some latency) = round_div latency 10

unfoldable pub percentile : ℕ → Stats → ℕ
percentile p s = pick (get_elem? (sorted s.latencies) (index p (length s.latencies)))
