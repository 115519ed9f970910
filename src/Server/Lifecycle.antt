-- ===== src/Server/Lifecycle.antt =====
-- `serve_forever`, `_run_periodic` and `_drain_inflight` of server.py behind the connect and the
-- listen, as a machine over the events that the event loop brings. A call is known by a number, as
-- is the stream that it serves. A periodic task ends when it is cancelled; a call ends when its
-- event comes, cancelled or not.
pub mod Drain
pub mod Busy
pub mod Periodic
pub mod Stop
use pilot_langgraph.Prelude.{
  ℕ, ◌+◌, ◌||◌, Bool, true, false, Option, none, some, List, [], ◌∷◌, ◌++◌, ◌==◌, if◌then◌else◌,
}
use pilot_langgraph.Prelude.Result.{Exc}

-- What the accept task of the loop gives.
pub data Arrival : Type 0 where
  stream : ℕ → Arrival
  accept_failed : Exc → Arrival

-- The loop waits for the accept task or the stop; `finally` waits for the calls in flight, up to the
-- timeout, and then for those that it has cancelled, without a bound; the end, with the exception that leaves `serve_forever`, if any.
pub data Phase : Type 0 where
  accepting : Phase
  draining : Option Exc → Phase
  cancelling : Option Exc → Phase
  ended : Option Exc → Phase

-- `started`, `finished` and `aborted` are the calls that have begun, that ended by themselves, and
-- that ended behind their cancellation by the drain. `lost` says that the read loop of the
-- connection has ended, which closes the connection, but wakes nobody here.
pub record Service : Type 0 where
  pub phase : Phase
  pub stopping : Bool
  pub arrival : Option Arrival
  pub inflight : List ℕ
  pub started : List ℕ
  pub finished : List ℕ
  pub aborted : List ℕ
  pub periodic : List ℕ
  pub listening : Bool
  pub connected : Bool
  pub lost : Bool

pub data Event : Type 0 where
  request_stop : Event
  arrives : Arrival → Event
  wakes : Event
  call_ends : ℕ → Event
  drain_timeout : Event
  daemon_lost : Event

abbrev pub is_nil : {A : Type 0} → List A → Bool
is_nil [] = true
is_nil (_ ∷ _) = false

-- `await self._conn.close()` at the end of `finally`.
unfoldable pub finish : Option Exc → Service → Service
finish err s = record s { phase = ended err; connected = false }

-- `finally`: the listener is closed and the periodic tasks are cancelled. With no call in flight
-- that is all of the drain.
unfoldable pub begin_drain : Option Exc → Service → Service
unfolding finish
begin_drain err s =
    let t = record s { listening = false; periodic = []; arrival = none; phase = draining err } in
    if is_nil s.inflight then finish err t else t

-- `while not self._stopping.is_set()`
unfoldable pub loop_head : Service → Service
unfolding begin_drain
loop_head s =
    if s.stopping then begin_drain none s else record s { phase = accepting; arrival = none }

-- A task for the stream goes to the calls in flight.
unfoldable pub start_call : ℕ → Service → Service
start_call c s = record s { inflight = s.inflight ++ c ∷ []; started = s.started ++ c ∷ [] }

-- Behind `asyncio.wait`: an arrival is served even where the stop is there too.
unfoldable pub wake : Service → Service
unfolding begin_drain loop_head start_call
wake s = elim s.arrival [
  | none ↦ if s.stopping then begin_drain none s else s
  | some (stream c) ↦ loop_head (start_call c s)
  | some (accept_failed e) ↦ begin_drain (some e) s
]

-- `self._inflight.discard`
abbrev pub discard : ℕ → List ℕ → List ℕ
discard c [] = []
discard c (d ∷ l) = if d == c then l else d ∷ discard c l

abbrev pub is_running : ℕ → List ℕ → Bool
is_running c [] = false
is_running c (d ∷ l) = (d == c) || is_running c l

unfoldable pub end_call : ℕ → Service → Service
end_call c s =
    if is_running c s.inflight
    then record s { inflight = discard c s.inflight; finished = s.finished ++ c ∷ [] }
    else s

-- The drain is over when the last call is.
unfoldable pub check_drained : Option Exc → Service → Service
unfolding finish
check_drained err s = if is_nil s.inflight then finish err s else s

-- The timeout of the drain: what still runs is cancelled, and then waited for.
unfoldable pub abort : Option Exc → Service → Service
abort err s = record s { phase = cancelling err }

-- The end of a call that has been cancelled.
unfoldable pub end_cancelled : ℕ → Service → Service
end_cancelled c s =
    if is_running c s.inflight
    then record s { inflight = discard c s.inflight; aborted = s.aborted ++ c ∷ [] }
    else s

unfoldable pub arrive : Arrival → Service → Service
arrive a s = elim s.arrival [ none ↦ record s { arrival = some a } | some _ ↦ s ]

unfoldable pub step_in : Phase → Event → Service → Service
unfolding arrive wake end_call end_cancelled check_drained abort
step_in accepting (arrives a) s = arrive a s
step_in accepting wakes s = wake s
step_in accepting (call_ends c) s = end_call c s
step_in (draining err) (call_ends c) s = check_drained err (end_call c s)
step_in (draining err) drain_timeout s = abort err s
step_in (cancelling err) (call_ends c) s = check_drained err (end_cancelled c s)
step_in _ request_stop s = record s { stopping = true }
step_in _ daemon_lost s = record s { lost = true; connected = false }
step_in _ _ s = s

unfoldable pub step : Event → Service → Service
unfolding step_in
step e s = step_in s.phase e s

unfoldable pub run : List Event → Service → Service
unfolding step
run [] s = s
run (e ∷ es) s = run es (step e s)

-- Behind the connect, the listen and the start of the periodic tasks.
unfoldable pub listening_on : Bool → List ℕ → Service
listening_on stopping periodic = record {
  phase = accepting;
  stopping = stopping;
  arrival = none;
  inflight = [];
  started = [];
  finished = [];
  aborted = [];
  periodic = periodic;
  listening = true;
  connected = true;
  lost = false;
}

unfoldable pub serve : Bool → List ℕ → Service
unfolding listening_on loop_head begin_drain finish
serve stopping periodic = loop_head (listening_on stopping periodic)
