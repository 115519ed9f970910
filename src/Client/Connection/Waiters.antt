-- ===== src/Client/Connection/Waiters.antt =====
-- Which request gets which reply.
use pilot_langgraph.Prelude.{
  ℕ, zero, suc, ◌≡◌, refl, ap, ◌∙◌, false, Option, none, some, List, [], ◌∷◌, ◌++◌, All, get_elem?,
  ◌==◌, arith, Dict, value_of, value_of-assign, eqb_self, nat_HasEq,
}
use pilot_langgraph.Ipc.Bytes.{Bytes}
use pilot_langgraph.Client.Connection.{
  Conn, Future, pending, resolved, cancelled, items_of, settle, deliver_to_waiter, request,
  request_timeout, remove,
}

abbrev pub deliver_all : ℕ → List Bytes → Conn → Conn
deliver_all cmd [] s = s
deliver_all cmd (p ∷ ps) s = deliver_all cmd ps (deliver_to_waiter cmd p s)

-- The futures that wait for a command, the oldest first.
abbrev pub waiting : ℕ → Conn → List ℕ
waiting cmd s = items_of (value_of cmd s.waiters)

abbrev pub IsPending : Conn → ℕ → Type 0
IsPending s f = value_of f s.futures ≡ some pending

-- No future twice.
abbrev pub Distinct : List ℕ → Type 0
Distinct [] = Unit
Distinct (f ∷ fs) = All (λ g. (f == g) ≡ false) fs × Distinct fs

settle-same :
    (f : ℕ) (o : Future) (d : Dict ℕ Future)
    → value_of f d ≡ some pending
    → value_of f (settle f o d) ≡ some o
settle-same f o d e =
    rw (settle, e) (value_of-assign f f o d ∙ rw (eqb_self ⦃h = nat_HasEq⦄ f) refl)

settle-other :
    (f g : ℕ) (o : Future) (d : Dict ℕ Future)
    → (f == g) ≡ false
    → value_of g (settle f o d) ≡ value_of g d
settle-other f g o d ne = go (value_of f d) refl
  where
    go : (v : Option Future) → value_of f d ≡ v → value_of g (settle f o d) ≡ value_of g d
    go none e = rw (settle, e) refl
    go (some pending) e = rw (settle, e) (value_of-assign f g o d ∙ rw ne refl)
    go (some (resolved p)) e = rw (settle, e) refl
    go (some (Future.failed x)) e = rw (settle, e) refl
    go (some cancelled) e = rw (settle, e) refl

module _ (cmd : ℕ) (p : Bytes) (s : Conn) where
  deliver-waiting :
      {f : ℕ} {fs : List ℕ} → waiting cmd s ≡ f ∷ fs → waiting cmd (deliver_to_waiter cmd p s) ≡ fs
  unfolding deliver_to_waiter
  deliver-waiting {f} {fs} e =
      rw (deliver_to_waiter, e)
        (ap items_of {y = some fs}
          (value_of-assign cmd cmd fs s.waiters ∙ rw (eqb_self ⦃h = nat_HasEq⦄ cmd) refl))

  deliver-futures :
      {f : ℕ} {fs : List ℕ}
      → waiting cmd s ≡ f ∷ fs
      → (deliver_to_waiter cmd p s).futures ≡ settle f (resolved p) s.futures
  unfolding deliver_to_waiter
  deliver-futures e = rw (deliver_to_waiter, e) refl

  deliver-nobody : waiting cmd s ≡ [] → deliver_to_waiter cmd p s ≡ s
  unfolding deliver_to_waiter
  deliver-nobody e = rw (deliver_to_waiter, e) refl

-- A future that does not wait keeps its state.
deliver_all-other :
    (cmd f : ℕ) (ps : List Bytes) (fs : List ℕ) (s : Conn)
    → waiting cmd s ≡ fs
    → All (λ g. (g == f) ≡ false) fs
    → value_of f (deliver_all cmd ps s).futures ≡ value_of f s.futures
deliver_all-other cmd f [] fs s e a = refl
deliver_all-other cmd f (p ∷ ps) [] s e a =
    ap (λ t. value_of f (deliver_all cmd ps t).futures) (deliver-nobody cmd p s e)
    ∙ deliver_all-other cmd f ps [] s e a
deliver_all-other cmd f (p ∷ ps) (g ∷ fs) s e a =
    deliver_all-other cmd f ps fs (deliver_to_waiter cmd p s) (deliver-waiting cmd p s e) a.1
    ∙ ap (value_of f) (deliver-futures cmd p s e)
    ∙ settle-other g f (resolved p) s.futures a.0

still-IsPending :
    (cmd g : ℕ) (p : Bytes) (s : Conn) (gs fs : List ℕ)
    → waiting cmd s ≡ g ∷ gs
    → All (λ f. (g == f) ≡ false) fs
    → All (IsPending s) fs
    → All (IsPending (deliver_to_waiter cmd p s)) fs
still-IsPending cmd g p s gs [] e d a = tt
still-IsPending cmd g p s gs (f ∷ fs) e d a = (
  ap (value_of f) (deliver-futures cmd p s e) ∙ settle-other g f (resolved p) s.futures d.0 ∙ a.0,
  still-IsPending cmd g p s gs fs e d.1 a.1,
)

flipped : (f : ℕ) (fs : List ℕ) → All (λ g. (f == g) ≡ false) fs → All (λ g. (g == f) ≡ false) fs
flipped f [] a = tt
flipped f (g ∷ fs) a = (let ne = a.0 in ground arith, flipped f fs a.1)

-- The replies of a command, delivered in their order to requests that wait for it, resolve the
-- futures of the requests in the order in which these were sent: the i-th future with the i-th
-- reply, as many as there are of both. The futures are pending and distinct.
pub deliver_all-fifo :
    (cmd : ℕ) (fs : List ℕ) (ps : List Bytes) (s : Conn)
    → waiting cmd s ≡ fs
    → All (IsPending s) fs
    → Distinct fs
    → (i f : ℕ) (p : Bytes) → get_elem? fs i ≡ some f
    → get_elem? ps i ≡ some p
    → value_of f (deliver_all cmd ps s).futures ≡ some (resolved p)
deliver_all-fifo cmd [] ps s e a d i f p ef ep = absurd (ground (arith, ef))
deliver_all-fifo cmd (g ∷ fs) [] s e a d i f p ef ep = absurd (ground (arith, ep))
deliver_all-fifo cmd (g ∷ fs) (q ∷ ps) s e a d zero f p ef ep =
    let same : g ≡ f = ground (arith, ef) in
    let reply : q ≡ p = ground (arith, ep) in
    rw (← same, ← reply)
      (deliver_all-other cmd g ps fs (deliver_to_waiter cmd q s) (deliver-waiting cmd q s e)
          (flipped g fs d.0)
        ∙ ap (value_of g) (deliver-futures cmd q s e)
        ∙ settle-same g (resolved q) s.futures a.0)
deliver_all-fifo cmd (g ∷ fs) (q ∷ ps) s e a d (suc i) f p ef ep =
    deliver_all-fifo cmd fs ps (deliver_to_waiter cmd q s) (deliver-waiting cmd q s e)
      (still-IsPending cmd g q s fs fs e d.0 a.1) d.1 i f p ef ep

-- The second of two requests for one command, where the first has timed out.
abbrev pub after_timeout : ℕ → Conn → ℕ × Conn
after_timeout cmd s = let (f, s1) = request cmd s in request cmd (request_timeout cmd f s1)

request-waiting :
    (cmd : ℕ) (s : Conn) → waiting cmd (request cmd s).1 ≡ waiting cmd s ++ (request cmd s).0 ∷ []
unfolding request
request-waiting cmd s =
    rw
      (
        value_of-assign cmd cmd (waiting cmd s ++ s.next_future ∷ []) s.waiters,
        eqb_self ⦃h = nat_HasEq⦄ cmd,
      )
      refl

request-IsPending : (cmd : ℕ) (s : Conn) → IsPending (request cmd s).1 (request cmd s).0
unfolding request
request-IsPending cmd s =
    value_of-assign s.next_future s.next_future pending s.futures
    ∙ rw (eqb_self ⦃h = nat_HasEq⦄ s.next_future) refl

timeout-waiting :
    (cmd f : ℕ) (s : Conn) → waiting cmd (request_timeout cmd f s) ≡ remove f (waiting cmd s)
unfolding request_timeout
timeout-waiting cmd f s =
    rw (value_of-assign cmd cmd (remove f (waiting cmd s)) s.waiters, eqb_self ⦃h = nat_HasEq⦄ cmd)
      refl

-- Where no other request waits for the command: after a request has timed out and the next one for
-- the same command has been sent, the reply that comes first, which is the late reply to the
-- request that timed out, resolves the future of the next request.
pub late_reply :
    (cmd : ℕ) (s : Conn) (late : Bytes)
    → waiting cmd s ≡ []
    → value_of (after_timeout cmd s).0 (deliver_to_waiter cmd late (after_timeout cmd s).1).futures
      ≡ some (resolved late)
late_reply cmd s late e =
    let f = (request cmd s).0 in
    let s1 = (request cmd s).1 in
    let s2 = request_timeout cmd f s1 in
    let g = (request cmd s2).0 in
    let first : waiting cmd s1 ≡ f ∷ [] = request-waiting cmd s ∙ ap (λ l. l ++ f ∷ []) e in
    let nobody : waiting cmd s2 ≡ [] =
      timeout-waiting cmd f s1 ∙ ap (remove f) first ∙ rw (eqb_self ⦃h = nat_HasEq⦄ f) refl in
    let second : waiting cmd (request cmd s2).1 ≡ g ∷ [] =
      request-waiting cmd s2 ∙ ap (λ l. l ++ g ∷ []) nobody in
    ap (value_of g) (deliver-futures cmd late (request cmd s2).1 second)
    ∙ settle-same g (resolved late) _ (request-IsPending cmd s2)
