-- ===== src/Client/Runnable/Replies.antt =====
-- What a caller gets for the replies of a server, and how often it tries.
use pilot_langgraph.Prelude.{
  ℕ, zero, suc, ◌+◌, ◌≤◌, ◌<◌, ◌≡◌, ◌⊎◌, refl, true, false, Bool-cases, inl, inr, List, [], ◌∷◌,
  All, String, length, map, if◌then◌else◌, arith,
}
use pilot_langgraph.Prelude.Result.{
  struct_error, invalid_address, network_mismatch, topic_too_long, payload_too_large, eof_error,
  timeout_error, connection_error, connection_error_wrapper, key_error, index_error, overflow_error,
  runtime_error, value_error, permission_error,
}
use pilot_langgraph.Json.{Json, null, get, get?, is_null, truthy}
use pilot_langgraph.Server.Types.{Message, Frame, chunk, last, failure, frame_json}
use pilot_langgraph.Client.Errors.{from_reply}
use pilot_langgraph.Client.Runnable.{
  ended, Outcome, answered, remote, broken, collect, ainvoke_once, is_transient, attempts,
  ainvoke_with_retries, delay,
}

-- What a reply amounts to: its error, or the last of its values that is not null.
abbrev pub amounts_to : (Message → String) → Json → List Frame → Outcome
amounts_to render v [] = answered v
amounts_to render v (chunk r ∷ l) = amounts_to render (if is_null r then v else r) l
amounts_to render v (last r ∷ l) = answered (if is_null r then v else r)
amounts_to render v (failure t m ∷ l) = remote (from_reply (frame_json render (failure t m)))

collect-frames :
    (render : Message → String) (v : Json) (l : List Frame)
    → collect (map (frame_json render) l) ended v ≡ amounts_to render v l
unfolding collect frame_json get get? truthy
collect-frames render v [] = refl
collect-frames render v (chunk r ∷ l) = collect-frames render (if is_null r then v else r) l
collect-frames render v (last r ∷ l) = refl
collect-frames render v (failure t m ∷ l) = refl

-- The frames of a server, as they stand on the wire, give the caller the error of the first error
-- frame, or else the last value that is not null, up to the first frame that is done. A reply that
-- stops before a frame that is done, with the end of the stream, gives what came last as if it were
-- whole.
pub ainvoke_once-frames :
    (render : Message → String) (l : List Frame)
    → ainvoke_once (map (frame_json render) l, ended) ≡ amounts_to render null l
unfolding ainvoke_once
ainvoke_once-frames render l = collect-frames render null l

-- The sleeps of the first `n` attempts from `i` on.
abbrev pub sleeps : ℕ → ℕ → ℕ → List ℕ
sleeps backoff i zero = []
sleeps backoff i (suc n) = delay backoff i ∷ sleeps backoff (suc i) n

-- The failures that are tried again: a connection that the daemon or the peer closes with no reply,
-- and a timeout. A `PilotConnectionError` is neither.
abbrev pub TriedAgain : Outcome → Type 0
TriedAgain o = (o ≡ broken connection_error_wrapper) ⊎ (o ≡ broken timeout_error)

TriedAgain-transient : (o : Outcome) → TriedAgain o → is_transient o ≡ true
unfolding is_transient
TriedAgain-transient o (inl e) = rw (e, is_transient) refl
TriedAgain-transient o (inr e) = rw (e, is_transient) refl

transient-TriedAgain : (o : Outcome) → is_transient o ≡ true → TriedAgain o
unfolding is_transient
transient-TriedAgain (answered r) h = absurd (ground (arith, h))
transient-TriedAgain (remote e) h = absurd (ground (arith, h))
transient-TriedAgain (broken struct_error) h = absurd (ground (arith, h))
transient-TriedAgain (broken invalid_address) h = absurd (ground (arith, h))
transient-TriedAgain (broken network_mismatch) h = absurd (ground (arith, h))
transient-TriedAgain (broken (topic_too_long n)) h = absurd (ground (arith, h))
transient-TriedAgain (broken (payload_too_large n)) h = absurd (ground (arith, h))
transient-TriedAgain (broken eof_error) h = absurd (ground (arith, h))
transient-TriedAgain (broken timeout_error) h = inr refl
transient-TriedAgain (broken connection_error) h = absurd (ground (arith, h))
transient-TriedAgain (broken connection_error_wrapper) h = inl refl
transient-TriedAgain (broken key_error) h = absurd (ground (arith, h))
transient-TriedAgain (broken index_error) h = absurd (ground (arith, h))
transient-TriedAgain (broken overflow_error) h = absurd (ground (arith, h))
transient-TriedAgain (broken runtime_error) h = absurd (ground (arith, h))
transient-TriedAgain (broken value_error) h = absurd (ground (arith, h))
transient-TriedAgain (broken permission_error) h = absurd (ground (arith, h))

settled-transient : (o : Outcome) → ¬ TriedAgain o → is_transient o ≡ false
unfolding is_transient
settled-transient o h = elim (Bool-cases (is_transient o)) [
  | inl e ↦ absurd (h (transient-TriedAgain o e))
  | inr e ↦ e
]

attempts-settles :
    (once : ℕ → Outcome) (backoff i n k left : ℕ)
    → k ≡ i + n
    → ((j : ℕ) → i ≤ j → j < k → is_transient (once j) ≡ true)
    → is_transient (once k) ≡ false
    → n ≤ left
    → attempts once backoff i left ≡ (once k, sleeps backoff i n)
unfolding attempts
attempts-settles once backoff i zero k zero e t f h = let same : k ≡ i = omega arith in rw same refl
attempts-settles once backoff i zero k (suc left) e t f h =
    let same : k ≡ i = omega arith in rw (same, rw same at f) refl
attempts-settles once backoff i (suc n) k zero e t f h = absurd (omega arith)
attempts-settles once backoff i (suc n) k (suc left) e t f h =
    let ih =
      attempts-settles once backoff (suc i) n k left (omega arith) (λ j lo hi. t j (omega arith) hi)
        f (omega arith) in
    let again : is_transient (once i) ≡ true = t i (omega arith) (omega arith) in
    rw (again, ih) refl

-- Where the first `n` attempts end with a `PilotConnectionErrorWrapper`, a stream that ends before any
-- reply, or a `TimeoutError`, and the one behind them ends otherwise, be it with another exception
-- such as a `PilotConnectionError`, and no more than `max_retries` retries are needed, the call gives what that attempt
-- gives, after the sleeps of the `n` failed attempts.
pub ainvoke_with_retries-settles :
    (once : ℕ → Outcome) (max_retries backoff n : ℕ)
    → ((j : ℕ) → j < n → TriedAgain (once j))
    → ¬ TriedAgain (once n)
    → n ≤ max_retries
    → ainvoke_with_retries once max_retries backoff ≡ (once n, sleeps backoff 0 n)
unfolding ainvoke_with_retries
ainvoke_with_retries-settles once max_retries backoff n t f h =
    attempts-settles once backoff 0 n n max_retries (omega arith)
      (λ j lo hi. TriedAgain-transient (once j) (t j hi)) (settled-transient (once n) f) h

attempts-bounded :
    (once : ℕ → Outcome) (backoff i left : ℕ) → length (attempts once backoff i left).1 ≤ left
unfolding attempts
attempts-bounded once backoff i zero = omega arith
attempts-bounded once backoff i (suc left) =
    ground (arith, attempts-bounded once backoff (suc i) left)

All-attempts :
    (once : ℕ → Outcome) (backoff i left : ℕ)
    → All (λ d. d ≤ 30000) (attempts once backoff i left).1
unfolding attempts
All-attempts once backoff i zero = tt
All-attempts once backoff i (suc left) = elim (Bool-cases (is_transient (once i))) [
  | inl e ↦ rw e (omega arith, All-attempts once backoff (suc i) left)
  | inr e ↦ rw e tt
]

-- A call sleeps at most `max_retries` times, so it makes at most one attempt more than that, and
-- never sleeps longer than thirty seconds.
pub ainvoke_with_retries-bounded :
    (once : ℕ → Outcome) (max_retries backoff : ℕ)
    → (length (ainvoke_with_retries once max_retries backoff).1 ≤ max_retries)
      × All (λ d. d ≤ 30000) (ainvoke_with_retries once max_retries backoff).1
unfolding ainvoke_with_retries
ainvoke_with_retries-bounded once max_retries backoff =
    (attempts-bounded once backoff 0 max_retries, All-attempts once backoff 0 max_retries)
