-- ===== src/Server/Lifecycle/Busy.antt =====
-- What a drain waits for: the calls in flight, and the events that end them.
use pilot_langgraph.Prelude.{
  ℕ, ◌+◌, ◌≤◌, ◌≡◌, refl, ap, sym, ◌∙◌, Bool, true, false, Bool-cases, inl, inr, Option, none, some,
  List, [], ◌∷◌, ◌==◌, if◌then◌else◌, arith,
}
use pilot_langgraph.Prelude.Result.{Exc}
use pilot_langgraph.Server.Lifecycle.Drain.{times, times-discard}
use pilot_langgraph.Server.Lifecycle.{
  Arrival, stream, accept_failed, Phase, accepting, draining, cancelling, ended, Service, Event,
  request_stop, arrives, wakes, call_ends, drain_timeout, daemon_lost, is_nil, finish, begin_drain,
  loop_head, start_call, wake, discard, is_running, end_call, end_cancelled, check_drained, abort,
  arrive, step_in, step, run,
}

-- The drain goes on only while a call is in flight.
abbrev pub is_draining : Phase → Bool
is_draining (draining _) = true
is_draining (cancelling _) = true
is_draining _ = false

abbrev pub IsBusy : Service → Type 0
IsBusy s = is_draining s.phase ≡ true → is_nil s.inflight ≡ false

begin_drain-IsBusy : (err : Option Exc) (s : Service) → IsBusy (begin_drain err s)
unfolding begin_drain finish
begin_drain-IsBusy err s = ground arith

check_drained-IsBusy : (err : Option Exc) (s : Service) → IsBusy (check_drained err s)
unfolding check_drained finish
check_drained-IsBusy err s = ground arith

wake-IsBusy : (s : Service) → s.phase ≡ accepting → IsBusy (wake s)
unfolding wake loop_head start_call
wake-IsBusy s ph = go s.arrival refl
  where
    go : (v : Option Arrival) → s.arrival ≡ v → IsBusy (wake s)
    go none w = ground (arith, w, ph, begin_drain-IsBusy none s)
    go (some (stream c)) w = ground (arith, w, begin_drain-IsBusy none (start_call c s))
    go (some (accept_failed err)) w = ground (arith, w, begin_drain-IsBusy (some err) s)

pub step_in-IsBusy :
    (p : Phase) (e : Event) (s : Service) → s.phase ≡ p → IsBusy s → IsBusy (step_in p e s)
unfolding step_in arrive end_call abort
step_in-IsBusy accepting (arrives a) s ph h = ground arith
step_in-IsBusy accepting wakes s ph h = wake-IsBusy s ph
step_in-IsBusy accepting (call_ends c) s ph h = ground arith
step_in-IsBusy accepting request_stop s ph h = h
step_in-IsBusy accepting drain_timeout s ph h = h
step_in-IsBusy accepting daemon_lost s ph h = h
step_in-IsBusy (draining err) (call_ends c) s ph h = check_drained-IsBusy err (end_call c s)
step_in-IsBusy (draining err) drain_timeout s ph h = λ _. h (ap is_draining ph)
step_in-IsBusy (draining err) (arrives a) s ph h = h
step_in-IsBusy (draining err) wakes s ph h = h
step_in-IsBusy (draining err) request_stop s ph h = h
step_in-IsBusy (draining err) daemon_lost s ph h = h
step_in-IsBusy (cancelling err) (call_ends c) s ph h = check_drained-IsBusy err (end_cancelled c s)
step_in-IsBusy (cancelling err) drain_timeout s ph h = h
step_in-IsBusy (cancelling err) (arrives a) s ph h = h
step_in-IsBusy (cancelling err) wakes s ph h = h
step_in-IsBusy (cancelling err) request_stop s ph h = h
step_in-IsBusy (cancelling err) daemon_lost s ph h = h
step_in-IsBusy (ended err) (arrives a) s ph h = h
step_in-IsBusy (ended err) wakes s ph h = h
step_in-IsBusy (ended err) (call_ends c) s ph h = h
step_in-IsBusy (ended err) request_stop s ph h = h
step_in-IsBusy (ended err) drain_timeout s ph h = h
step_in-IsBusy (ended err) daemon_lost s ph h = h

pub run-IsBusy : (es : List Event) (s : Service) → IsBusy s → IsBusy (run es s)
unfolding run step
run-IsBusy [] s h = h
run-IsBusy (e ∷ es) s h = run-IsBusy es (step e s) (step_in-IsBusy s.phase e s refl h)

-- How often the events end a call.
abbrev pub ends : ℕ → List Event → ℕ
ends c [] = 0
ends c (call_ends d ∷ es) = (if d == c then 1 else 0) + ends c es
ends c (_ ∷ es) = ends c es

-- Every call in flight ends in the events.
abbrev pub AllEnd : Service → List Event → Type 0
AllEnd s es = (c : ℕ) → times c s.inflight ≤ ends c es

times-idle : (c : ℕ) (l : List ℕ) → is_running c l ≡ false → times c l ≡ 0
times-idle c [] h = refl
times-idle c (d ∷ l) h = ground (arith, times-idle c l)

same_call : (c d : ℕ) → (d == c) ≡ true → d ≡ c
same_call c d h = ground arith

discard-left :
    (c d n : ℕ) (l : List ℕ)
    → times c l ≤ (if d == c then 1 else 0) + n
    → times c (if is_running d l then discard d l else l) ≤ n
discard-left c d n l h = elim (Bool-cases (is_running d l)) [
  | inl r ↦ rw r (omega (arith, h, times-discard c d l r))
  | inr r ↦ elim (Bool-cases (d == c)) [
    | inl e ↦
        let none_left : times c l ≡ 0 =
          ap (λ x. times x l) (sym (same_call c d e)) ∙ times-idle d l r in
        rw r (omega (arith, none_left))
    | inr e ↦ rw r (ground (arith, h, e))
  ]
]

call_ends-inflight :
    (err : Option Exc) (d : ℕ) (s : Service)
    → ((check_drained err (end_call d s)).inflight
        ≡ (if is_running d s.inflight then discard d s.inflight else s.inflight))
      × ((check_drained err (end_cancelled d s)).inflight
          ≡ (if is_running d s.inflight then discard d s.inflight else s.inflight))
unfolding check_drained finish end_call end_cancelled
call_ends-inflight err d s = (ground arith, ground arith)

-- In the drain, what still is in flight ends in the events that still come.
pub step_in-AllEnd :
    (p : Phase) (e : Event) (es : List Event) (s : Service)
    → is_draining p ≡ true
    → AllEnd s (e ∷ es)
    → AllEnd (step_in p e s) es
unfolding step_in abort
step_in-AllEnd accepting e es s d h = absurd (ground (arith, d))
step_in-AllEnd (ended err) e es s d h = absurd (ground (arith, d))
step_in-AllEnd (draining err) (call_ends c) es s d h =
    λ x. rw (call_ends-inflight err c s).0 (discard-left x c (ends x es) s.inflight (h x))
step_in-AllEnd (draining err) drain_timeout es s d h = h
step_in-AllEnd (draining err) (arrives a) es s d h = h
step_in-AllEnd (draining err) wakes es s d h = h
step_in-AllEnd (draining err) request_stop es s d h = h
step_in-AllEnd (draining err) daemon_lost es s d h = h
step_in-AllEnd (cancelling err) (call_ends c) es s d h =
    λ x. rw (call_ends-inflight err c s).1 (discard-left x c (ends x es) s.inflight (h x))
step_in-AllEnd (cancelling err) drain_timeout es s d h = h
step_in-AllEnd (cancelling err) (arrives a) es s d h = h
step_in-AllEnd (cancelling err) wakes es s d h = h
step_in-AllEnd (cancelling err) request_stop es s d h = h
step_in-AllEnd (cancelling err) daemon_lost es s d h = h

times-none : (l : List ℕ) → ((c : ℕ) → times c l ≤ 0) → is_nil l ≡ true
times-none [] h = refl
times-none (c ∷ l) h = absurd (ground (arith, h c))

-- With nothing to come, no call is in flight.
pub AllEnd-nil : (s : Service) → AllEnd s [] → is_nil s.inflight ≡ true
AllEnd-nil s h = times-none s.inflight h
