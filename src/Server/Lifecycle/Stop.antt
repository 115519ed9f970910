-- ===== src/Server/Lifecycle/Stop.antt =====
-- What a requested stop does.
use pilot_langgraph.Prelude.{
  ℕ, ◌+◌, ◌≤◌, ◌≡◌, refl, ◌⊎◌, Bool, true, false, Bool-cases, inl, inr, Option, none, some, List,
  [], ◌∷◌, ◌++◌, arith, length, length-append,
}
use pilot_langgraph.Prelude.Result.{Exc}
use pilot_langgraph.Server.Lifecycle.Busy.{
  is_draining, IsBusy, step_in-IsBusy, run-IsBusy, AllEnd, step_in-AllEnd, AllEnd-nil,
}
use pilot_langgraph.Server.Lifecycle.{
  Arrival, stream, accept_failed, Phase, accepting, draining, cancelling, ended, Service, Event,
  request_stop, arrives, wakes, call_ends, drain_timeout, daemon_lost, is_nil, finish, begin_drain,
  loop_head, start_call, wake, end_call, end_cancelled, check_drained, abort, arrive, step_in, step,
  run, serve, listening_on,
}

abbrev pub is_ended : Phase → Bool
is_ended (ended _) = true
is_ended _ = false

-- How many calls may still begin.
abbrev pub may_start : Phase → ℕ
may_start accepting = 1
may_start _ = 0

-- What a step does to a server that is to stop: from `s` in the phase `p` to `t`.
record Winds (p : Phase) (s t : Service) : Type 0 where
  still : t.stopping ≡ true
  calls : length t.started + may_start t.phase ≤ length s.started + may_start p
  down : may_start p ≡ 0 → may_start t.phase ≡ 0
  over : is_ended p ≡ true → is_ended t.phase ≡ true

begin_drain_winds :
    (err : Option Exc) (s : Service)
    → s.stopping ≡ true
    → ((begin_drain err s).stopping ≡ true)
      × ((begin_drain err s).started ≡ s.started)
      × (may_start (begin_drain err s).phase ≡ 0)
unfolding begin_drain finish
begin_drain_winds err s h = elim (Bool-cases (is_nil s.inflight)) [
  | inl e ↦ rw e (h, refl, refl)
  | inr e ↦ rw e (h, refl, refl)
]

wake_winds :
    (s : Service)
    → s.stopping ≡ true
    → ((wake s).stopping ≡ true)
      × (length (wake s).started ≤ length s.started + 1)
      × (may_start (wake s).phase ≡ 0)
unfolding wake loop_head start_call
wake_winds s h = go s.arrival refl
  where
    go :
        (v : Option Arrival)
        → s.arrival ≡ v
        → ((wake s).stopping ≡ true)
          × (length (wake s).started ≤ length s.started + 1)
          × (may_start (wake s).phase ≡ 0)
    go none w = ground (arith, w, h, begin_drain_winds none s h)
    go (some (stream c)) w =
        ground
          (arith, w, h, begin_drain_winds none (start_call c s) h, length-append s.started (c ∷ []))
    go (some (accept_failed err)) w = ground (arith, w, h, begin_drain_winds (some err) s h)

step_in-Winds :
    (p : Phase) (e : Event) (s : Service)
    → s.phase ≡ p
    → s.stopping ≡ true
    → Winds p s (step_in p e s)
unfolding step_in finish arrive end_call end_cancelled check_drained abort
step_in-Winds accepting (arrives a) s ph h = ground arith
step_in-Winds accepting wakes s ph h = ground (arith, wake_winds s h)
step_in-Winds accepting (call_ends c) s ph h = ground arith
step_in-Winds accepting request_stop s ph h = ground arith
step_in-Winds accepting drain_timeout s ph h = ground arith
step_in-Winds (draining err) (arrives a) s ph h = ground arith
step_in-Winds (draining err) wakes s ph h = ground arith
step_in-Winds (draining err) (call_ends c) s ph h = ground arith
step_in-Winds (draining err) drain_timeout s ph h = ground arith
step_in-Winds (draining err) request_stop s ph h = ground arith
step_in-Winds (ended err) (arrives a) s ph h = ground arith
step_in-Winds (ended err) wakes s ph h = ground arith
step_in-Winds (ended err) (call_ends c) s ph h = ground arith
step_in-Winds (ended err) drain_timeout s ph h = ground arith
step_in-Winds (ended err) request_stop s ph h = ground arith
step_in-Winds (cancelling err) (arrives a) s ph h = ground arith
step_in-Winds (cancelling err) wakes s ph h = ground arith
step_in-Winds (cancelling err) (call_ends c) s ph h = ground arith
step_in-Winds (cancelling err) drain_timeout s ph h = ground arith
step_in-Winds (cancelling err) request_stop s ph h = ground arith
step_in-Winds accepting daemon_lost s ph h = ground arith
step_in-Winds (draining err) daemon_lost s ph h = ground arith
step_in-Winds (cancelling err) daemon_lost s ph h = ground arith
step_in-Winds (ended err) daemon_lost s ph h = ground arith

step-Winds : (e : Event) (s : Service) → s.stopping ≡ true → Winds s.phase s (step e s)
unfolding step
step-Winds e s h = step_in-Winds s.phase e s refl h

run-Winds : (es : List Event) (s : Service) → s.stopping ≡ true → Winds s.phase s (run es s)
unfolding run
run-Winds [] s h = record { still = h; calls = omega arith; down = λ p. p; over = λ p. p }
run-Winds (e ∷ es) s h =
    let first = step-Winds e s h in
    let later = run-Winds es (step e s) first.still in
    record {
      still = later.still;
      calls = omega (arith, first.calls, later.calls);
      down = λ p. later.down (first.down p);
      over = λ p. later.over (first.over p);
    }

run-append : (es fs : List Event) (s : Service) → run (es ++ fs) s ≡ run fs (run es s)
unfolding run
run-append [] fs s = refl
run-append (e ∷ es) fs s = run-append es fs (step e s)

-- Behind the next turn of the loop.
woken : (s : Service) → s.stopping ≡ true → may_start (step wakes s).phase ≡ 0
unfolding step step_in
woken s h = go s.phase refl
  where
    go : (p : Phase) → s.phase ≡ p → may_start (step_in p wakes s).phase ≡ 0
    go accepting e = (wake_winds s h).2
    go (draining err) e = rw e refl
    go (cancelling err) e = rw e refl
    go (ended err) e = rw e refl

may_start-le : (p : Phase) → may_start p ≤ 1
may_start-le accepting = omega arith
may_start-le (draining err) = omega arith
may_start-le (cancelling err) = omega arith
may_start-le (ended err) = omega arith

off_cases : (p : Phase) → may_start p ≡ 0 → (is_draining p ≡ true) ⊎ (is_ended p ≡ true)
off_cases accepting h = absurd (ground (arith, h))
off_cases (draining err) h = inl refl
off_cases (cancelling err) h = inl refl
off_cases (ended err) h = inr refl

-- A server that begins no more calls ends with the calls that are in flight.
all_end :
    (es : List Event) (s : Service)
    → s.stopping ≡ true
    → may_start s.phase ≡ 0
    → IsBusy s
    → AllEnd s es
    → is_ended (run es s).phase ≡ true
unfolding run step
all_end [] s h m b a = elim (off_cases s.phase m) [
  | inl d ↦ absurd (ground (arith, b d, AllEnd-nil s a))
  | inr e ↦ e
]
all_end (e ∷ es) s h m b a = elim (off_cases s.phase m) [
  | inl d ↦
      let w = step-Winds e s h in
      all_end es (step e s) w.still (w.down m) (step_in-IsBusy s.phase e s refl b)
        (step_in-AllEnd s.phase e es s d a)
  | inr o ↦ (run-Winds (e ∷ es) s h).over o
]

serve-IsBusy : (stopping : Bool) (periodic : List ℕ) → IsBusy (serve stopping periodic)
unfolding serve listening_on loop_head begin_drain finish
serve-IsBusy true periodic = ground arith
serve-IsBusy false periodic = ground arith

-- In every run in which a stop has been requested: when the loop has woken once, whatever comes
-- before and behind, and every call that is in flight then ends later, in any order and with any
-- other events between, such as the timeout of the drain, which cancels the calls: then the server
-- has accepted no more, has begun at most one more call, and has ended. A call that does not end,
-- cancelled or not, is waited for; a periodic task that is cancelled is taken to end.
pub stop_ends :
    (stopping : Bool) (periodic : List ℕ) (es fs gs : List Event)
    → (run es (serve stopping periodic)).stopping ≡ true
    → AllEnd (run (wakes ∷ fs) (run es (serve stopping periodic))) gs
    → let s = run es (serve stopping periodic) in
      let t = run (wakes ∷ fs) s in
      (may_start t.phase ≡ 0)
      × (length t.started ≤ length s.started + 1)
      × (is_ended (run gs t).phase ≡ true)
unfolding run
stop_ends stopping periodic es fs gs h a =
    let s = run es (serve stopping periodic) in
    let first = step-Winds wakes s h in
    let t = run fs (step wakes s) in
    let later = run-Winds fs (step wakes s) first.still in
    let whole = run-Winds (wakes ∷ fs) s h in
    let off = later.down (woken s h) in
    (
      off,
      omega (arith, whole.calls, may_start-le s.phase),
      all_end gs t later.still off
          (run-IsBusy (wakes ∷ fs) s
            (run-IsBusy es (serve stopping periodic) (serve-IsBusy stopping periodic)))
          a,
    )
