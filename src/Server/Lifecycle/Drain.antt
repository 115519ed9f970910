-- ===== src/Server/Lifecycle/Drain.antt =====
-- What holds in every state of the life of a server.
use pilot_langgraph.Prelude.{
  ℕ, ◌+◌, ◌≡◌, refl, ap, sym, subst, ◌∙◌, Bool, true, false, not, Bool-cases, inl, inr, Option,
  none, some, List, [], ◌∷◌, ◌++◌, ◌==◌, if◌then◌else◌, arith,
}
use pilot_langgraph.Prelude.Result.{Exc}
use pilot_langgraph.Server.Lifecycle.{
  Arrival, stream, accept_failed, Phase, accepting, draining, cancelling, ended, Service, Event,
  request_stop, arrives, wakes, call_ends, drain_timeout, daemon_lost, is_nil, finish, begin_drain,
  loop_head, start_call, wake, discard, is_running, end_call, check_drained, abort, end_cancelled,
  arrive, step_in, step, run, listening_on, serve,
}

-- How often a call stands in a list.
abbrev pub times : ℕ → List ℕ → ℕ
times c [] = 0
times c (d ∷ l) = (if d == c then 1 else 0) + times c l

times-append : (c : ℕ) (l m : List ℕ) → times c (l ++ m) ≡ times c l + times c m
times-append c [] m = omega arith
times-append c (d ∷ l) m = omega (arith, times-append c l m)

pub times-discard :
    (c d : ℕ) (l : List ℕ)
    → is_running d l ≡ true
    → times c (discard d l) + (if d == c then 1 else 0) ≡ times c l
times-discard c d [] h = cc
times-discard c d (x ∷ l) h = ground (arith, times-discard c d l)

-- What may hold of the resources of a phase.
abbrev pub Holds : Phase → Service → Type 0
Holds accepting s = (s.listening ≡ true) × (s.connected ≡ not s.lost)
Holds (draining _) s = (s.listening ≡ false) × (s.connected ≡ not s.lost) × (s.periodic ≡ [])
Holds (cancelling _) s = (s.listening ≡ false) × (s.connected ≡ not s.lost) × (s.periodic ≡ [])
Holds (ended _) s =
    (s.listening ≡ false) × (s.connected ≡ false) × (s.periodic ≡ []) × (s.inflight ≡ [])

-- Every call that has begun is in flight, or ended by itself, or ended behind its cancellation: each
-- once.
abbrev pub Accounted : Service → Type 0
Accounted s =
    (c : ℕ) → times c s.started ≡ times c s.inflight + times c s.finished + times c s.aborted

pub record IsSound (s : Service) : Type 0 where
  pub resources : Holds s.phase s
  pub accounted : Accounted s

is_nil-eq : (l : List ℕ) → is_nil l ≡ true → l ≡ []
is_nil-eq [] h = refl
is_nil-eq (x ∷ l) h = cc

begin_drain-IsSound :
    (err : Option Exc) (s : Service)
    → s.connected ≡ not s.lost
    → Accounted s
    → IsSound (begin_drain err s)
unfolding begin_drain finish
begin_drain-IsSound err s up h = elim (Bool-cases (is_nil s.inflight)) [
  | inl e ↦ rw e (record { resources = (refl, refl, refl, is_nil-eq s.inflight e); accounted = h })
  | inr e ↦ rw e (record { resources = (refl, up, refl); accounted = h })
]

loop_head-IsSound :
    (s : Service)
    → s.connected ≡ not s.lost
    → s.listening ≡ true
    → Accounted s
    → IsSound (loop_head s)
unfolding loop_head
loop_head-IsSound s up on h =
    elim s.stopping
      as (λ b.
        IsSound
          (if b then begin_drain none s else record s { phase = accepting; arrival = none })) [
            | true ↦ begin_drain-IsSound none s up h
            | false ↦ record { resources = (on, up); accounted = h }
          ]

start_call-Accounted : (c : ℕ) (s : Service) → Accounted s → Accounted (start_call c s)
unfolding start_call
start_call-Accounted c s h d =
    omega (arith, h d, times-append d s.started (c ∷ []), times-append d s.inflight (c ∷ []))

end_call-Accounted : (c : ℕ) (s : Service) → Accounted s → Accounted (end_call c s)
unfolding end_call
end_call-Accounted c s h d = elim (Bool-cases (is_running c s.inflight)) [
  | inl e ↦
      rw e (omega (arith, h d, times-append d s.finished (c ∷ []), times-discard d c s.inflight e))
  | inr e ↦ rw e (h d)
]

end_cancelled-Accounted : (c : ℕ) (s : Service) → Accounted s → Accounted (end_cancelled c s)
unfolding end_cancelled
end_cancelled-Accounted c s h d = elim (Bool-cases (is_running c s.inflight)) [
  | inl e ↦
      rw e (omega (arith, h d, times-append d s.aborted (c ∷ []), times-discard d c s.inflight e))
  | inr e ↦ rw e (h d)
]

-- A state of a phase, with what the phase holds.
sound : (p : Phase) (s : Service) → s.phase ≡ p → Holds p s → Accounted s → IsSound s
sound p s e r h = record { resources = subst (λ q. Holds q s) (sym e) r; accounted = h }

wake-IsSound :
    (s : Service) → s.phase ≡ accepting → Holds accepting s → Accounted s → IsSound (wake s)
unfolding wake start_call
wake-IsSound s e r h = go s.arrival refl
  where
    go : (v : Option Arrival) → s.arrival ≡ v → IsSound (wake s)
    go none w =
        rw (wake, w)
          (elim s.stopping as (λ b. IsSound (if b then begin_drain none s else s)) [
            | true ↦ begin_drain-IsSound none s r.1 h
            | false ↦ sound accepting s e r h
          ])
    go (some (stream c)) w =
        rw (wake, w) (loop_head-IsSound (start_call c s) r.1 r.0 (start_call-Accounted c s h))
    go (some (accept_failed err)) w = rw (wake, w) (begin_drain-IsSound (some err) s r.1 h)

-- The end of a call leaves the other fields alone.
end_call-Holds :
    (p : Phase) (c : ℕ) (s : Service)
    → ((t : Service)
        → t.listening ≡ s.listening
        → t.connected ≡ s.connected
        → t.lost ≡ s.lost
        → t.periodic ≡ s.periodic
        → Holds p t)
    → (Holds p (end_call c s))
      × ((end_call c s).phase ≡ s.phase)
      × (Holds p (end_cancelled c s))
      × ((end_cancelled c s).phase ≡ s.phase)
unfolding end_call end_cancelled
end_call-Holds p c s keep = (
  keep (end_call c s) (ground arith) (ground arith) (ground arith) (ground arith),
  ground arith,
  keep (end_cancelled c s) (ground arith) (ground arith) (ground arith) (ground arith),
  ground arith,
)

arrive-IsSound :
    (a : Arrival) (s : Service)
    → s.phase ≡ accepting
    → Holds accepting s
    → Accounted s
    → IsSound (arrive a s)
unfolding arrive
arrive-IsSound a s e r h = go s.arrival refl
  where
    go : (v : Option Arrival) → s.arrival ≡ v → IsSound (arrive a s)
    go none w = rw (arrive, w) (sound accepting (record s { arrival = some a }) e r h)
    go (some b) w = rw (arrive, w) (sound accepting s e r h)

check_drained-IsSound :
    (p : Phase) (err : Option Exc) (s : Service)
    → s.phase ≡ p
    → Holds p s
    → Holds (draining err) s
    → Accounted s
    → IsSound (check_drained err s)
unfolding check_drained finish
check_drained-IsSound p err s e k r h = elim (Bool-cases (is_nil s.inflight)) [
  | inl n ↦ rw n (record { resources = (r.0, refl, r.2, is_nil-eq s.inflight n); accounted = h })
  | inr n ↦ rw n (sound p s e k h)
]

abort-IsSound :
    (err : Option Exc) (s : Service) → Holds (draining err) s → Accounted s → IsSound (abort err s)
unfolding abort
abort-IsSound err s r h = record { resources = r; accounted = h }

-- What the drain holds, of a state with the same resources.
abbrev keeps :
    (s : Service)
    → (s.listening ≡ false) × (s.connected ≡ not s.lost) × (s.periodic ≡ [])
    → (t : Service) → t.listening ≡ s.listening
    → t.connected ≡ s.connected
    → t.lost ≡ s.lost
    → t.periodic ≡ s.periodic
    → (t.listening ≡ false) × (t.connected ≡ not t.lost) × (t.periodic ≡ [])
keeps s r t on up l per = (on ∙ r.0, up ∙ r.1 ∙ ap not (sym l), per ∙ r.2)

step_in-IsSound :
    (p : Phase) (e : Event) (s : Service)
    → s.phase ≡ p
    → Holds p s
    → Accounted s
    → IsSound (step_in p e s)
unfolding step_in
step_in-IsSound accepting (arrives a) s ph r h = arrive-IsSound a s ph r h
step_in-IsSound accepting wakes s ph r h = wake-IsSound s ph r h
step_in-IsSound accepting (call_ends c) s ph r h =
    let kept =
      end_call-Holds accepting c s (λ t on up l _. (on ∙ r.0, up ∙ r.1 ∙ ap not (sym l))) in
    sound accepting (end_call c s) (kept.1 ∙ ph) kept.0 (end_call-Accounted c s h)
step_in-IsSound accepting request_stop s ph r h =
    sound accepting (record s { stopping = true }) ph r h
step_in-IsSound accepting drain_timeout s ph r h = sound accepting s ph r h
step_in-IsSound accepting daemon_lost s ph r h =
    sound accepting (record s { lost = true; connected = false }) ph (r.0, refl) h
step_in-IsSound (draining err) (arrives a) s ph r h = sound (draining err) s ph r h
step_in-IsSound (draining err) wakes s ph r h = sound (draining err) s ph r h
step_in-IsSound (draining err) (call_ends c) s ph r h =
    let kept = end_call-Holds (draining err) c s (keeps s r) in
    check_drained-IsSound (draining err) err (end_call c s) (kept.1 ∙ ph) kept.0 kept.0
      (end_call-Accounted c s h)
step_in-IsSound (draining err) drain_timeout s ph r h = abort-IsSound err s r h
step_in-IsSound (draining err) request_stop s ph r h =
    sound (draining err) (record s { stopping = true }) ph r h
step_in-IsSound (draining err) daemon_lost s ph r h =
    sound (draining err) (record s { lost = true; connected = false }) ph (r.0, refl, r.2) h
step_in-IsSound (cancelling err) (arrives a) s ph r h = sound (cancelling err) s ph r h
step_in-IsSound (cancelling err) wakes s ph r h = sound (cancelling err) s ph r h
step_in-IsSound (cancelling err) (call_ends c) s ph r h =
    let kept = end_call-Holds (cancelling err) c s (keeps s r) in
    check_drained-IsSound (cancelling err) err (end_cancelled c s) (kept.3 ∙ ph) kept.2 kept.2
      (end_cancelled-Accounted c s h)
step_in-IsSound (cancelling err) drain_timeout s ph r h = sound (cancelling err) s ph r h
step_in-IsSound (cancelling err) request_stop s ph r h =
    sound (cancelling err) (record s { stopping = true }) ph r h
step_in-IsSound (cancelling err) daemon_lost s ph r h =
    sound (cancelling err) (record s { lost = true; connected = false }) ph (r.0, refl, r.2) h
step_in-IsSound (ended err) daemon_lost s ph r h =
    sound (ended err) (record s { lost = true; connected = false }) ph (r.0, refl, r.2, r.3) h
step_in-IsSound (ended err) (arrives a) s ph r h = sound (ended err) s ph r h
step_in-IsSound (ended err) wakes s ph r h = sound (ended err) s ph r h
step_in-IsSound (ended err) (call_ends c) s ph r h = sound (ended err) s ph r h
step_in-IsSound (ended err) drain_timeout s ph r h = sound (ended err) s ph r h
step_in-IsSound (ended err) request_stop s ph r h =
    sound (ended err) (record s { stopping = true }) ph r h

run-IsSound : (es : List Event) (s : Service) → IsSound s → IsSound (run es s)
unfolding run step
run-IsSound [] s h = h
run-IsSound (e ∷ es) s h =
    run-IsSound es (step_in s.phase e s) (step_in-IsSound s.phase e s refl h.resources h.accounted)

serve-IsSound : (stopping : Bool) (periodic : List ℕ) → IsSound (serve stopping periodic)
unfolding serve listening_on
serve-IsSound stopping periodic =
    loop_head-IsSound (listening_on stopping periodic) refl refl (λ c. refl)

-- In every run of the server, whatever events come and in whatever order: every call that has begun
-- is in flight, has ended by itself or has ended behind its cancellation by the drain, each as often
-- as it began; while the server accepts or waits for its calls, the connection to the daemon is open
-- unless the daemon has been lost; the listener is open while it accepts, and closed, with no
-- periodic task left, from then on; when the server has ended, the connection is closed and no call
-- is in flight.
pub run-serve-IsSound :
    (stopping : Bool) (periodic : List ℕ) (es : List Event)
    → IsSound (run es (serve stopping periodic))
run-serve-IsSound stopping periodic es =
    run-IsSound es (serve stopping periodic) (serve-IsSound stopping periodic)
